-- ===== src/CaseStore/Settled.antt =====
-- services/finding-service/store.py: what a drain delivers, and that it marks nothing else.
use cernityndr.Base.{
  ℕ, zero, suc, String, ◌≡◌, sym, ◌∙◌, ◌⊎◌, inl, inr, Bool, true, false, List, [], ◌∷◌, arith, ◌==◌,
  string_eq, eq_iff, contains, distinct, Bool-cases, same_refl,
}
use mathlib.Core.Bool.{true≢false}
use cernityndr.Case.Disposition.{DispositionRecord}
use cernityndr.CaseStore.{
  OutboxRow, Store, delivered_of, is_waiting, attempt, claimable, drain_row, drain_rows,
  pending_rows, drain_dispositions,
}
use cernityndr.CaseStore.Outbox.{ids}
use cernityndr.CaseStore.Pending.{all_waiting, all_waiting-pending_rows, distinct-pending_rows}
use cernityndr.CaseStore.Delivery.{delivered_of-mark, drain_row-Drained, drain_rows-Drained}

-- None of the rows awaits delivery in `s`.
abbrev pub Settled : List OutboxRow → Store → Type 0
Settled [] s = Unit {0}
Settled (row ∷ rows) s = (is_waiting (delivered_of row.id s.dispositions) ≡ false) × Settled rows s

module _ {R : Type 0} (deliver : R → DispositionRecord → Bool × R) (max_attempts : ℕ) where
  drain_row_settles :
      (row : OutboxRow) (s : Store) (r : R) (a : ℕ)
      → ((q : R) (b : DispositionRecord) → (attempt deliver max_attempts q b).0 ≡ true)
      → s.claimed ≡ []
      → is_waiting (delivered_of row.id (drain_row deliver max_attempts row s r a).0.dispositions)
        ≡ false
  unfolding drain_row claimable contains
  drain_row_settles row s r a accepts c =
      elim (Bool-cases (is_waiting (delivered_of row.id s.dispositions))) [
        | inr done ↦ rw (c, done) done
        | inl w ↦ rw (c, w, accepts r row.body) (rw (delivered_of-mark, same_refl row.id))
      ]

  drain_rows-Settled :
      (rows : List OutboxRow) (s : Store) (r : R) (a : ℕ)
      → ((q : R) (b : DispositionRecord) → (attempt deliver max_attempts q b).0 ≡ true)
      → distinct (ids s.dispositions) ≡ true
      → s.claimed ≡ []
      → Settled rows (drain_rows deliver max_attempts rows s r a).0
  unfolding drain_rows
  drain_rows-Settled [] s r a accepts u c = tt
  drain_rows-Settled (row ∷ rows) s r a accepts u c =
      let (s', r', a') = drain_row deliver max_attempts row s r a in
      let one = drain_row-Drained deliver max_attempts row s r a u in
      let u' : distinct (ids s'.dispositions) ≡ true = rw one.same_ids u in
      (
        (drain_rows-Drained deliver max_attempts rows s' r' a' u').stays row.id
            (drain_row_settles row s r a accepts c),
        drain_rows-Settled rows s' r' a' accepts u' (one.released ∙ c),
      )

module _ {R : Type 0} (deliver : R → DispositionRecord → Bool × R) (max_attempts : ℕ)
    (Has : R → DispositionRecord → Type 0)
    (takes : (r : R) (b : DispositionRecord) → (deliver r b).0 ≡ true → Has (deliver r b).1 b)
    (keeps : (r : R) (b c : DispositionRecord) → Has r c → Has (deliver r b).1 c) where
  attempt-keeps :
      (n : ℕ) (r : R) (b c : DispositionRecord) → Has r c → Has (attempt deliver n r b).1 c
  unfolding attempt
  attempt-keeps zero r b c h = h
  attempt-keeps (suc n) r b c h = elim (Bool-cases (deliver r b).0) [
    | inl q ↦ rw q (keeps r b c h)
    | inr q ↦ rw q (attempt-keeps n (deliver r b).1 b c (keeps r b c h))
  ]

  attempt-takes :
      (n : ℕ) (r : R) (b : DispositionRecord)
      → (attempt deliver n r b).0 ≡ true
      → Has (attempt deliver n r b).1 b
  unfolding attempt
  attempt-takes zero r b h = absurd (true≢false (sym h))
  attempt-takes (suc n) r b h = elim (Bool-cases (deliver r b).0) [
    | inl q ↦ rw q (takes r b q)
    | inr q ↦ rw q (attempt-takes n (deliver r b).1 b (rw q at h))
  ]

  -- The row still awaits delivery, or the receiver has its record.
  abbrev pub IsSafe : Store → R → OutboxRow → Type 0
  IsSafe s r row = (is_waiting (delivered_of row.id s.dispositions) ≡ true) ⊎ Has r row.body

  drain_row-IsSafe :
      (row : OutboxRow) (s : Store) (r : R) (a : ℕ)
      → IsSafe s r row
      → let out = drain_row deliver max_attempts row s r a in IsSafe out.0 out.1 row
  unfolding drain_row
  drain_row-IsSafe row s r a h = elim (Bool-cases (claimable s row.id)) [
    | inr busy ↦ rw busy h
    | inl free ↦ elim (Bool-cases (attempt deliver max_attempts r row.body).0) [
      | inl good ↦ rw free (rw good (inr (attempt-takes max_attempts r row.body good)))
      | inr refused ↦ rw free (
          rw refused (elim h [
            | inl w ↦ inl w
            | inr got ↦ inr (attempt-keeps max_attempts r row.body row.body got)
          ]))
    ]
  ]

  drain_row-IsSafe_other :
      (row x : OutboxRow) (s : Store) (r : R) (a : ℕ)
      → (row.id == x.id) ≡ false
      → IsSafe s r x
      → let out = drain_row deliver max_attempts row s r a in IsSafe out.0 out.1 x
  unfolding drain_row
  drain_row-IsSafe_other row x s r a other h = elim (Bool-cases (claimable s row.id)) [
    | inr busy ↦ rw busy h
    | inl free ↦ elim (Bool-cases (attempt deliver max_attempts r row.body).0) [
      | inl good ↦ rw free (
          rw good (elim h [
            | inl w ↦ inl (delivered_of-mark row.id x.id s.dispositions ∙ rw other w)
            | inr got ↦ inr (attempt-keeps max_attempts r row.body x.body got)
          ]))
      | inr refused ↦ rw free (
          rw refused (elim h [
            | inl w ↦ inl w
            | inr got ↦ inr (attempt-keeps max_attempts r row.body x.body got)
          ]))
    ]
  ]

  drain_rows-IsSafe_other :
      (rows : List OutboxRow) (x : OutboxRow) (s : Store) (r : R) (a : ℕ)
      → contains (ids rows) x.id ≡ false
      → IsSafe s r x
      → let out = drain_rows deliver max_attempts rows s r a in IsSafe out.0 out.1 x
  unfolding drain_rows contains
  drain_rows-IsSafe_other [] x s r a other h = h
  drain_rows-IsSafe_other (row ∷ rows) x s r a other h =
      let (s', r', a') = drain_row deliver max_attempts row s r a in
      drain_rows-IsSafe_other rows x s' r' a' (ground (arith, other)) (
        drain_row-IsSafe_other row x s r a
          (ground (arith, other, eq_iff row.id x.id, eq_iff x.id row.id)) h)

  abbrev pub AllSafe : List OutboxRow → Store → R → Type 0
  AllSafe [] s r = Unit {0}
  AllSafe (row ∷ rows) s r = IsSafe s r row × AllSafe rows s r

  AllSafe-drain_row :
      (row : OutboxRow) (rows : List OutboxRow) (s : Store) (r : R) (a : ℕ)
      → contains (ids rows) row.id ≡ false
      → AllSafe rows s r
      → let out = drain_row deliver max_attempts row s r a in AllSafe rows out.0 out.1
  unfolding contains
  AllSafe-drain_row row [] s r a h k = tt
  AllSafe-drain_row row (x ∷ rows) s r a h k = (
    drain_row-IsSafe_other row x s r a (ground (arith, h)) k.0,
    AllSafe-drain_row row rows s r a (ground (arith, h)) k.1,
  )

  drain_rows-AllSafe :
      (rows : List OutboxRow) (s : Store) (r : R) (a : ℕ)
      → distinct (ids rows) ≡ true
      → AllSafe rows s r
      → let out = drain_rows deliver max_attempts rows s r a in AllSafe rows out.0 out.1
  unfolding drain_rows distinct
  drain_rows-AllSafe [] s r a u h = tt
  drain_rows-AllSafe (row ∷ rows) s r a u h =
      let (s', r', a') = drain_row deliver max_attempts row s r a in
      let new : contains (ids rows) row.id ≡ false = ground (arith, u) in
      (
        drain_rows-IsSafe_other rows row s' r' a' new (drain_row-IsSafe row s r a h.0),
        drain_rows-AllSafe rows s' r' a' (ground (arith, u))
            (AllSafe-drain_row row rows s r a new h.1),
      )

  all_waiting-AllSafe :
      (rows : List OutboxRow) (s : Store) (r : R)
      → all_waiting s.dispositions rows ≡ true
      → AllSafe rows s r
  all_waiting-AllSafe [] s r h = tt
  all_waiting-AllSafe (row ∷ rows) s r h =
      (inl (ground (arith, h)), all_waiting-AllSafe rows s r (ground (arith, h)))

  -- Every row got, and none of them awaits delivery in `s`.
  abbrev pub AllGot : List OutboxRow → Store → R → Type 0
  AllGot [] s r = Unit {0}
  AllGot (row ∷ rows) s r =
      (is_waiting (delivered_of row.id s.dispositions) ≡ false) × Has r row.body × AllGot rows s r

  safe-AllGot :
      (rows : List OutboxRow) (s : Store) (r : R)
      → AllSafe rows s r
      → Settled rows s
      → AllGot rows s r
  safe-AllGot [] s r h k = tt
  safe-AllGot (row ∷ rows) s r h k = (
    k.0,
    elim h.0 [ inl w ↦ absurd (true≢false (sym w ∙ k.0)) | inr got ↦ got ],
    safe-AllGot rows s r h.1 k.1,
  )

  -- A drain loses nothing: each row that the tenant had pending still awaits delivery after it, or
  -- the receiver has its record. The receiver may refuse and raise as it likes; it has a record
  -- that it accepts, and does not lose one that it has. Whoever is granted the tenant, or not, may
  -- call; the ids of the rows are distinct.
  pub drain-AllSafe :
      (tenant : String) (tenants : List String) (s : Store) (r : R)
      → distinct (ids s.dispositions) ≡ true
      → let out = drain_dispositions deliver max_attempts tenant tenants s r in
        AllSafe (pending_rows s tenant) out.0 out.1
  unfolding drain_dispositions
  drain-AllSafe tenant tenants s r u =
      let before =
        all_waiting-AllSafe (pending_rows s tenant) s r (all_waiting-pending_rows tenant s u) in
      elim (Bool-cases (contains tenants tenant)) [
        | inl g ↦ rw g (
            drain_rows-AllSafe (pending_rows s tenant) s r 0 (distinct-pending_rows tenant s u)
              before)
        | inr n ↦ rw n before
      ]

  -- A caller that is granted the tenant drains to a receiver that accepts every record within the
  -- tries allowed, while no other drain holds a claim: then the receiver has the record of every
  -- row that the tenant had pending, and none of these rows awaits delivery any more. The receiver
  -- has a record that it accepts, and does not lose one that it has; the ids of the rows are
  -- distinct.
  pub drain-Settled :
      (tenant : String) (tenants : List String) (s : Store) (r : R)
      → contains tenants tenant ≡ true
      → ((q : R) (b : DispositionRecord) → (attempt deliver max_attempts q b).0 ≡ true)
      → distinct (ids s.dispositions) ≡ true
      → s.claimed ≡ []
      → let out = drain_dispositions deliver max_attempts tenant tenants s r in
        AllGot (pending_rows s tenant) out.0 out.1
  unfolding drain_dispositions
  drain-Settled tenant tenants s r g accepts u c =
      let out = drain_dispositions deliver max_attempts tenant tenants s r in
      safe-AllGot (pending_rows s tenant) out.0 out.1 (drain-AllSafe tenant tenants s r u)
        (rw g (drain_rows-Settled deliver max_attempts (pending_rows s tenant) s r 0 accepts u c))
