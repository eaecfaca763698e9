-- ===== src/Assets/Rebuild.antt =====
-- services/asset-service/resolution.py: `rebuild_ip_ownership` against `resolve_mac`.
use cernityndr.Base.{
  ℕ, String, ◌≡◌, refl, ap, ◌∙◌, subst, inl, inr, Bool, true, false, ◌&&◌, ◌||◌, Option, none, some,
  List, [], ◌∷◌, ◌++◌, map, arith, eq_iff, leb, ◌==◌, string_eq, same_refl, any, all, Bool-cases,
  Table, lookup, insert, contains, distinct,
}
use cernityndr.Assets.{
  Lease, Interval, Bindings, is_before, owner_at, plot, extend, ends_at, first_bound,
  winning_by_start, boundaries, oldest_first, ownership_intervals, or_no_leases, resolve_mac,
  record_binding, same_record,
}
use cernityndr.Assets.Cache.{subject, all_claimants, add_bindings, rebuild_ip_ownership}
use cernityndr.Assets.Gives.{
  gives, is_given, gives-all_claimants, gives-add_bindings, gives-sort_all, same-subject, or_false,
}
use cernityndr.Assets.Plot.{holds, is_owner}
use cernityndr.Assets.Exact.{ownership_intervals_exact}

abbrev pub keys : {V : Type 0} → Table V → List String
keys table = map (λ row. row.0) table

-- Every interval of an address has it as its value.
all-extend :
    (ip : String) (win : List Lease) (b : ℕ) (next : Option ℕ) (o : Option String)
    (done : List Interval)
    → all (λ (iv : Interval). iv.value == ip) done ≡ true
    → all (λ (iv : Interval). iv.value == ip) (extend ip win b next o done) ≡ true
unfolding extend
all-extend ip win b next none done h = h
all-extend ip win b next (some mac) [] h = rw (same_refl ip) refl
all-extend ip win b next (some mac) (last ∷ done) h =
    elim (Bool-cases (last.mac == mac && ends_at last.valid_to b)) [
      | inl q ↦ rw q h
      | inr q ↦ rw q (rw (same_refl ip) h)
    ]

all-plot :
    (ip : String) (win leases : List Lease) (bs : List ℕ) (done : List Interval)
    → all (λ (iv : Interval). iv.value == ip) done ≡ true
    → all (λ (iv : Interval). iv.value == ip) (plot ip win leases bs done) ≡ true
unfolding plot
all-plot ip win leases [] done h = h
all-plot ip win leases (b ∷ bs) done h =
    all-plot ip win leases bs _ (all-extend ip win b (first_bound bs) (owner_at leases b) done h)

all-oldest_first :
    (P : Interval → Bool) (done out : List Interval)
    → all P done ≡ true
    → all P out ≡ true
    → all P (oldest_first done out) ≡ true
all-oldest_first P [] out h k = k
all-oldest_first P (iv ∷ done) out h k =
    all-oldest_first P done (iv ∷ out) (ground (arith, h)) (ground (arith, h, k))

all-ownership_intervals :
    (ip : String) (leases : List Lease)
    → all (λ (iv : Interval). iv.value == ip) (ownership_intervals ip leases) ≡ true
unfolding ownership_intervals
all-ownership_intervals ip leases =
    all-oldest_first (λ (iv : Interval). iv.value == ip)
      (plot ip (winning_by_start leases) leases (boundaries leases) []) []
      (all-plot ip (winning_by_start leases) leases (boundaries leases) [] refl) refl

-- What an insert does to the keys.
contains-keys-insert :
    {V : Type 0} (key x : String) (value : V) (table : Table V)
    → contains (keys (insert key value table)) x ≡ (x == key || contains (keys table) x)
unfolding insert contains
contains-keys-insert key x value [] = refl
contains-keys-insert key x value (row ∷ rows) =
    ground
      (arith, contains-keys-insert key x value rows, eq_iff row.0 key, eq_iff x key, eq_iff x row.0)

distinct-keys-insert :
    {V : Type 0} (key : String) (value : V) (table : Table V)
    → distinct (keys table) ≡ true
    → distinct (keys (insert key value table)) ≡ true
unfolding insert distinct contains
distinct-keys-insert key value [] h = refl
distinct-keys-insert key value (row ∷ rows) h = ground (
  arith,
  distinct-keys-insert key value rows,
  contains-keys-insert key row.0 value rows,
  eq_iff row.0 key,
)

lookup-absent :
    {V : Type 0} (key : String) (table : Table V)
    → contains (keys table) key ≡ false
    → lookup key table ≡ none
unfolding lookup contains
lookup-absent key [] h = refl
lookup-absent key (row ∷ rows) h =
    let other : (row.0 == key) ≡ false = ground (arith, h, eq_iff row.0 key, eq_iff key row.0) in
    rw other (lookup-absent key rows (ground (arith, h)))

module _ (ip mac : String) (t : ℕ) where
  arranged :
      (v h m l a rest : Bool)
      → v ≡ h
      → ((m && (v && l && a)) || (h && rest)) ≡ (h && ((m && l && a) || rest))
  arranged v h m l a rest e = ground arith

  any-is_given :
      (home : String) (ivs : List Interval)
      → all (λ (iv : Interval). iv.value == home) ivs ≡ true
      → any (is_given ip t (subject mac)) ivs ≡ (home == ip && any (holds mac t) ivs)
  any-is_given home [] h = ground arith
  any-is_given home (iv ∷ ivs) h =
      let here : (iv.value == home) ≡ true = ground (arith, h) in
      rw (same-subject ip t iv.mac mac) (
        rw (any-is_given home ivs (ground (arith, h))) (
          arranged (iv.value == ip) (home == ip) (iv.mac == mac) (leb iv.valid_from t)
            (is_before t iv.valid_to) (any (holds mac t) ivs)
            (ap (λ x. x == ip) ((eq_iff iv.value home).0 here))))

  any-rows :
      (rows : Bindings)
      → distinct (keys rows) ≡ true
      → any
          (λ (row : String × List Lease).
            any (is_given ip t (subject mac)) (ownership_intervals row.0 row.1))
          rows
        ≡ is_owner mac (resolve_mac rows ip t)
  unfolding distinct resolve_mac lookup owner_at
  any-rows [] h = refl
  any-rows (row ∷ rows) h =
      let one =
        any-is_given row.0 (ownership_intervals row.0 row.1) (all-ownership_intervals row.0 row.1)
        ∙ ap (λ b. row.0 == ip && b) (ownership_intervals_exact row.0 row.1 mac t) in
      let rest = any-rows rows (ground (arith, h)) in
      rw one (
        rw rest (elim (Bool-cases (row.0 == ip)) [
          | inl q ↦
              let absent : lookup ip rows ≡ none = lookup-absent ip rows (
                subst (λ x. contains (keys rows) x ≡ false) ((eq_iff row.0 ip).0 q)
                  (ground (arith, h))) in
              rw q (rw absent (or_false ip t (is_owner mac (owner_at row.1 t))))
          | inr q ↦ rw q refl
        ]))

  rebuild-resolve_mac :
      (rows : Bindings)
      → distinct (keys rows) ≡ true
      → gives ip t (rebuild_ip_ownership rows) (subject mac) ≡ is_owner mac (resolve_mac rows ip t)
  unfolding rebuild_ip_ownership
  rebuild-resolve_mac rows h =
      gives-sort_all ip t (add_bindings rows (all_claimants rows [])) (subject mac)
      ∙ gives-add_bindings ip t rows (all_claimants rows []) (subject mac)
      ∙ rw (gives-all_claimants ip t rows [] (subject mac) (unfold lookup in refl))
          (any-rows rows h)

-- The leases recorded one after another, each for its address.
unfoldable pub record_all : Bindings → List (String × Lease) → Bindings
unfolding record_binding
record_all bindings [] = bindings
record_all bindings (r ∷ rs) = record_all (record_binding bindings r.0 r.1) rs

distinct-record_binding :
    (bindings : Bindings) (ip : String) (b : Lease)
    → distinct (keys bindings) ≡ true
    → distinct (keys (record_binding bindings ip b)) ≡ true
unfolding record_binding
distinct-record_binding bindings ip b h =
    let leases = or_no_leases (lookup ip bindings) in
    elim (Bool-cases (any (λ (x : Lease). same_record x b) leases)) [
      | inl q ↦ rw q (distinct-keys-insert ip leases bindings h)
      | inr q ↦ rw q (distinct-keys-insert ip (leases ++ b ∷ []) bindings h)
    ]

distinct-record_all :
    (bindings : Bindings) (rs : List (String × Lease))
    → distinct (keys bindings) ≡ true
    → distinct (keys (record_all bindings rs)) ≡ true
unfolding record_all
distinct-record_all bindings [] h = h
distinct-record_all bindings (r ∷ rs) h =
    distinct-record_all (record_binding bindings r.0 r.1) rs
      (distinct-record_binding bindings r.0 r.1 h)

-- The cache agrees with attribution: whatever leases were recorded, in whatever order, the rebuilt
-- intervals of a mac give it an address at an instant if and only if `resolve_mac` resolves the
-- address to that mac at the instant.
pub rebuild_ip_ownership-resolve_mac :
    (rs : List (String × Lease)) (ip mac : String) (t : ℕ)
    → gives ip t (rebuild_ip_ownership (record_all [] rs)) (subject mac)
      ≡ is_owner mac (resolve_mac (record_all [] rs) ip t)
rebuild_ip_ownership-resolve_mac rs ip mac t =
    rebuild-resolve_mac ip mac t (record_all [] rs)
      (distinct-record_all [] rs (unfold distinct in refl))
