-- ===== src/Assets/Gives.antt =====
-- services/asset-service/resolution.py: what a table of intervals gives, through each step of `rebuild_ip_ownership`.
use text.Mathlib.TextLemmas.{append_cancel_left}
use cernityndr.Base.{
  ℕ, String, ◌≡◌, refl, sym, ap, ◌∙◌, inl, inr, Bool, false, ◌&&◌, ◌||◌, List, [], ◌∷◌, ◌++◌, arith,
  eq_iff, leb, ◌==◌, string_eq, any, Bool-cases, Table, lookup, insert, lookup-insert,
}
use cernityndr.Assets.{Lease, Interval, Bindings, is_before, ownership_intervals}
use cernityndr.Assets.Cache.{
  Span, span, subject, or_no_spans, claimants, all_claimants, add_interval, add_intervals,
  add_bindings, insert_span, sort_spans, sort_all,
}

module _ (ip : String) (t : ℕ) where
  -- The address at the instant.
  abbrev pub covers : Span → Bool
  covers s = s.value == ip && leb s.valid_from t && is_before t s.valid_to

  -- A table gives the address to a subject at the instant.
  abbrev pub gives : Table (List Span) → String → Bool
  gives owned key = any covers (or_no_spans (lookup key owned))

  gives-claimants :
      (cs : List Lease) (owned : Table (List Span)) (key : String)
      → gives owned key ≡ false
      → gives (claimants cs owned) key ≡ false
  unfolding claimants
  gives-claimants [] owned key h = h
  gives-claimants (c ∷ cs) owned key h = gives-claimants cs (insert (subject c.mac) [] owned) key (
      rw (lookup-insert (subject c.mac) key [] owned)
        (elim (Bool-cases (subject c.mac == key)) [ inl q ↦ rw q refl | inr q ↦ rw q h ]))

  pub gives-all_claimants :
      (rows : Bindings) (owned : Table (List Span)) (key : String)
      → gives owned key ≡ false
      → gives (all_claimants rows owned) key ≡ false
  unfolding all_claimants
  gives-all_claimants [] owned key h = h
  gives-all_claimants (row ∷ rows) owned key h =
      gives-all_claimants rows (claimants row.1 owned) key (gives-claimants row.1 owned key h)

  any-append : (xs : List Span) (x : Span) → any covers (xs ++ x ∷ []) ≡ (any covers xs || covers x)
  any-append [] x = ground arith
  any-append (y ∷ ys) x = ap (λ b. covers y || b) (any-append ys x) ∙ ground arith

  -- The interval is the subject's, and covers.
  abbrev pub is_given : String → Interval → Bool
  is_given key iv = subject iv.mac == key && covers (span iv)

  gives-add_interval :
      (iv : Interval) (owned : Table (List Span)) (key : String)
      → gives (add_interval iv owned) key ≡ (gives owned key || is_given key iv)
  unfolding add_interval
  gives-add_interval iv owned key =
      rw
        (lookup-insert (subject iv.mac) key
          (or_no_spans (lookup (subject iv.mac) owned) ++ span iv ∷ []) owned)
        (elim (Bool-cases (subject iv.mac == key)) [
          | inl q ↦ rw q (
              any-append (or_no_spans (lookup (subject iv.mac) owned)) (span iv)
              ∙ ap (λ k. any covers (or_no_spans (lookup k owned)) || covers (span iv))
                  ((eq_iff (subject iv.mac) key).0 q))
          | inr q ↦ rw q (ground arith)
        ])

  pub or_false : (a : Bool) → (a || false) ≡ a
  or_false a = ground arith

  or_assoc : (a b c : Bool) → ((a || b) || c) ≡ (a || (b || c))
  or_assoc a b c = ground arith

  gives-add_intervals :
      (ivs : List Interval) (owned : Table (List Span)) (key : String)
      → gives (add_intervals ivs owned) key ≡ (gives owned key || any (is_given key) ivs)
  unfolding add_intervals
  gives-add_intervals [] owned key = ground arith
  gives-add_intervals (iv ∷ ivs) owned key =
      gives-add_intervals ivs (add_interval iv owned) key
      ∙ ap (λ b. b || any (is_given key) ivs) (gives-add_interval iv owned key)
      ∙ or_assoc (gives owned key) (is_given key iv) (any (is_given key) ivs)

  pub gives-add_bindings :
      (rows : Bindings) (owned : Table (List Span)) (key : String)
      → gives (add_bindings rows owned) key ≡ (
          gives owned key
          || any
              (λ (row : String × List Lease). any (is_given key) (ownership_intervals row.0 row.1))
              rows)
  unfolding add_bindings
  gives-add_bindings [] owned key = ground arith
  gives-add_bindings (row ∷ rows) owned key =
      gives-add_bindings rows (add_intervals (ownership_intervals row.0 row.1) owned) key
      ∙ ap
          (λ b.
            b
            || any (λ (r : String × List Lease). any (is_given key) (ownership_intervals r.0 r.1))
                rows)
          (gives-add_intervals (ownership_intervals row.0 row.1) owned key)
      ∙ or_assoc (gives owned key) (any (is_given key) (ownership_intervals row.0 row.1)) _

  any-insert_span :
      (x : Span) (xs : List Span) → any covers (insert_span x xs) ≡ (covers x || any covers xs)
  unfolding insert_span
  any-insert_span x [] = refl
  any-insert_span x (y ∷ ys) = elim (Bool-cases (leb x.valid_from y.valid_from)) [
    | inl q ↦ rw q refl
    | inr q ↦ rw q (
        ap (λ b. covers y || b) (any-insert_span x ys) ∙ swap (covers y) (covers x) (any covers ys))
  ]
    where
      swap : (a b c : Bool) → (a || (b || c)) ≡ (b || (a || c))
      swap a b c = ground arith

  any-sort_spans : (xs : List Span) → any covers (sort_spans xs) ≡ any covers xs
  unfolding sort_spans
  any-sort_spans [] = refl
  any-sort_spans (x ∷ xs) =
      any-insert_span x (sort_spans xs) ∙ ap (λ b. covers x || b) (any-sort_spans xs)

  pub gives-sort_all :
      (owned : Table (List Span)) (key : String) → gives (sort_all owned) key ≡ gives owned key
  unfolding sort_all lookup
  gives-sort_all [] key = refl
  gives-sort_all (row ∷ rows) key = elim (Bool-cases (row.0 == key)) [
    | inl q ↦ rw q (any-sort_spans row.1)
    | inr q ↦ rw q (gives-sort_all rows key)
  ]

  -- The subject of a mac determines it.
  pub same-subject : (a b : String) → (subject a == subject b) ≡ (a == b)
  same-subject a b = elim (Bool-cases (a == b)) [
    | inl q ↦ rw q ((eq_iff (subject a) (subject b)).1 (ap subject ((eq_iff a b).0 q)))
    | inr q ↦ elim (Bool-cases (subject a == subject b)) [
      | inr r ↦ r ∙ sym q
      | inl r ↦
          r
          ∙ sym (
              (eq_iff a b).1 (append_cancel_left "mac:" a b ((eq_iff (subject a) (subject b)).0 r)))
    ]
  ]
