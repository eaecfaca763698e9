-- ===== src/Assets/Cache.antt =====
-- services/asset-service/resolution.py: `rebuild_ip_ownership`.
use Prim.Native.String.{◌++◌ as ◌+++◌}
use cernityndr.Base.{
  ℕ, String, Option, none, some, List, [], ◌∷◌, ◌++◌, leb, if◌then◌else◌, string_eq, Table, lookup,
  insert,
}
use cernityndr.Assets.{Lease, Interval, Bindings, ownership_intervals}

-- An interval without its mac.
pub record Span : Type 0 where
  pub value : String
  pub valid_from : ℕ
  pub valid_to : Option ℕ
  pub evidence : Option Lease

abbrev pub span : Interval → Span
span iv = record {
  value = iv.value;
  valid_from = iv.valid_from;
  valid_to = iv.valid_to;
  evidence = iv.evidence;
}

abbrev pub subject : String → String
subject mac = "mac:" +++ mac

abbrev pub or_no_spans : Option (List Span) → List Span
or_no_spans none = []
or_no_spans (some spans) = spans

-- Every mac that has claimed an address, with no intervals.
unfoldable pub claimants : List Lease → Table (List Span) → Table (List Span)
unfolding insert
claimants [] owned = owned
claimants (c ∷ cs) owned = claimants cs (insert (subject c.mac) [] owned)

unfoldable pub all_claimants : Bindings → Table (List Span) → Table (List Span)
unfolding claimants
all_claimants [] owned = owned
all_claimants (row ∷ rows) owned = all_claimants rows (claimants row.1 owned)

unfoldable pub add_interval : Interval → Table (List Span) → Table (List Span)
unfolding insert lookup
add_interval iv owned =
    insert (subject iv.mac) (or_no_spans (lookup (subject iv.mac) owned) ++ span iv ∷ []) owned

unfoldable pub add_intervals : List Interval → Table (List Span) → Table (List Span)
unfolding add_interval
add_intervals [] owned = owned
add_intervals (iv ∷ ivs) owned = add_intervals ivs (add_interval iv owned)

unfoldable pub add_bindings : Bindings → Table (List Span) → Table (List Span)
unfolding add_intervals ownership_intervals
add_bindings [] owned = owned
add_bindings (row ∷ rows) owned =
    add_bindings rows (add_intervals (ownership_intervals row.0 row.1) owned)

unfoldable pub insert_span : Span → List Span → List Span
insert_span x [] = x ∷ []
insert_span x (y ∷ ys) =
    let more = insert_span x ys in if leb x.valid_from y.valid_from then x ∷ y ∷ ys else y ∷ more

unfoldable pub sort_spans : List Span → List Span
unfolding insert_span
sort_spans [] = []
sort_spans (x ∷ xs) = insert_span x (sort_spans xs)

unfoldable pub sort_all : Table (List Span) → Table (List Span)
unfolding sort_spans
sort_all [] = []
sort_all (row ∷ rows) = (row.0, sort_spans row.1) ∷ sort_all rows

unfoldable pub rebuild_ip_ownership : Bindings → Table (List Span)
unfolding sort_all add_bindings all_claimants
rebuild_ip_ownership bindings = sort_all (add_bindings bindings (all_claimants bindings []))
