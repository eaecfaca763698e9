-- ===== src/CaseStore/Delivery.antt =====
-- Draining the outbox: claims, acceptance and the count of what was delivered.
use cernityndr.Base.{
  ℕ, suc, ◌+◌, String, ◌≡◌, refl, ◌∙◌, Bool, true, false, List, [], ◌∷◌, map, arith, if◌then◌else◌,
  ◌==◌, string_eq, eq_iff, contains, without-append_self, distinct, Bool-cases, inl, inr,
}
use cernityndr.Case.Disposition.{DispositionRecord}
use cernityndr.CaseStore.{
  OutboxRow, Store, delivered_of, is_waiting, mark_delivered, attempt, claimable, drain_row,
  drain_rows, pending_rows, drain_dispositions,
}
use cernityndr.CaseStore.Outbox.{ids}

-- How many rows still await delivery.
abbrev pub waiting : List OutboxRow → ℕ
waiting [] = 0
waiting (r ∷ rows) = if r.delivered then waiting rows else suc (waiting rows)

-- What a row is, whether or not it was delivered.
abbrev pub contents : List OutboxRow → List (String × String × String × DispositionRecord)
contents = map (λ (r : OutboxRow). (r.id, r.case_id, r.tenant, r.body))

mark_absent :
    (id : String) (rows : List OutboxRow)
    → contains (ids rows) id ≡ false
    → mark_delivered id rows ≡ rows
unfolding mark_delivered contains
mark_absent id [] h = refl
mark_absent id (r ∷ rows) h = ground (arith, mark_absent id rows, eq_iff r.id id, eq_iff id r.id)

contents-mark :
    (id : String) (rows : List OutboxRow) → contents (mark_delivered id rows) ≡ contents rows
unfolding mark_delivered
contents-mark id [] = refl
contents-mark id (r ∷ rows) = ground (arith, contents-mark id rows)

ids-mark : (id : String) (rows : List OutboxRow) → ids (mark_delivered id rows) ≡ ids rows
unfolding mark_delivered
ids-mark id [] = refl
ids-mark id (r ∷ rows) = ground (arith, ids-mark id rows)

waiting-mark :
    (id : String) (rows : List OutboxRow)
    → distinct (ids rows) ≡ true
    → is_waiting (delivered_of id rows) ≡ true
    → suc (waiting (mark_delivered id rows)) ≡ waiting rows
unfolding mark_delivered delivered_of distinct
waiting-mark id [] h w = cc
waiting-mark id (r ∷ rows) h w =
    ground (arith, waiting-mark id rows, mark_absent id rows, eq_iff r.id id)

pub delivered_of-mark :
    (id j : String) (rows : List OutboxRow)
    → is_waiting (delivered_of j (mark_delivered id rows))
      ≡ (if id == j then false else is_waiting (delivered_of j rows))
unfolding mark_delivered delivered_of
delivered_of-mark id j [] = ground arith
delivered_of-mark id j (r ∷ rows) =
    ground (arith, delivered_of-mark id j rows, eq_iff r.id id, eq_iff r.id j, eq_iff id j)

-- From `s` with `a` accepted so far to `s'` with `a'`.
pub record Drained (s s' : Store) (a a' : ℕ) : Type 0 where
  pub same_cases : s'.cases ≡ s.cases
  pub released : s'.claimed ≡ s.claimed
  pub same_contents : contents s'.dispositions ≡ contents s.dispositions
  pub same_ids : ids s'.dispositions ≡ ids s.dispositions
  pub counted : a' + waiting s'.dispositions ≡ a + waiting s.dispositions
  pub stays :
      (j : String)
      → is_waiting (delivered_of j s.dispositions) ≡ false
      → is_waiting (delivered_of j s'.dispositions) ≡ false

Drained-refl : (s : Store) (a : ℕ) → Drained s s a a
Drained-refl s a = record {
  same_cases = refl;
  released = refl;
  same_contents = refl;
  same_ids = refl;
  counted = refl;
  stays = λ j h. h;
}

Drained-trans : (s t u : Store) (a b c : ℕ) → Drained s t a b → Drained t u b c → Drained s u a c
Drained-trans s t u a b c h k = record {
  same_cases = k.same_cases ∙ h.same_cases;
  released = k.released ∙ h.released;
  same_contents = k.same_contents ∙ h.same_contents;
  same_ids = k.same_ids ∙ h.same_ids;
  counted = k.counted ∙ h.counted;
  stays = λ j w. k.stays j (h.stays j w);
}

claimable-parts :
    (s : Store) (id : String)
    → claimable s id ≡ true
    → (contains s.claimed id ≡ false) × (is_waiting (delivered_of id s.dispositions) ≡ true)
unfolding claimable
claimable-parts s id h = ground arith

module _ {R : Type 0} (deliver : R → DispositionRecord → Bool × R) (max_attempts : ℕ) where
  pub drain_row-Drained :
      (row : OutboxRow) (s : Store) (r : R) (a : ℕ)
      → distinct (ids s.dispositions) ≡ true
      → let out = drain_row deliver max_attempts row s r a in Drained s out.0 a out.2
  unfolding drain_row
  drain_row-Drained row s r a u = elim (Bool-cases (claimable s row.id)) [
    | inr busy ↦ rw busy (Drained-refl s a)
    | inl free ↦
        let (unclaimed, w) = claimable-parts s row.id free in
        rw free (elim (Bool-cases (attempt deliver max_attempts r row.body).0) [
          | inr refused ↦ rw refused (record {
            same_cases = refl;
            released = without-append_self s.claimed row.id unclaimed;
            same_contents = refl;
            same_ids = refl;
            counted = refl;
            stays = λ j h. h;
          })
          | inl good ↦ rw good (record {
            same_cases = refl;
            released = without-append_self s.claimed row.id unclaimed;
            same_contents = contents-mark row.id s.dispositions;
            same_ids = ids-mark row.id s.dispositions;
            counted = omega (arith, waiting-mark row.id s.dispositions u w);
            stays = λ j h. rw delivered_of-mark (ground (arith, h));
          })
        ])
  ]

  pub drain_rows-Drained :
      (rows : List OutboxRow) (s : Store) (r : R) (a : ℕ)
      → distinct (ids s.dispositions) ≡ true
      → let out = drain_rows deliver max_attempts rows s r a in Drained s out.0 a out.2
  unfolding drain_rows
  drain_rows-Drained [] s r a u = Drained-refl s a
  drain_rows-Drained (row ∷ rows) s r a u =
      let (s', r', a') = drain_row deliver max_attempts row s r a in
      let one = drain_row-Drained row s r a u in
      Drained-trans s s' (drain_rows deliver max_attempts rows s' r' a').0 a a'
        (drain_rows deliver max_attempts rows s' r' a').2 one
        (drain_rows-Drained rows s' r' a' (rw one.same_ids u))

  -- A drain, whatever the receiver does, changes nothing of the cases, of the rows but their
  -- `delivered` flags, or of the claims that others hold; no delivered row comes back; and the
  -- number that it returns is exactly by how much the rows that await delivery went down.
  pub drain-Drained :
      (tenant : String) (tenants : List String) (s : Store) (r : R)
      → distinct (ids s.dispositions) ≡ true
      → let out = drain_dispositions deliver max_attempts tenant tenants s r in
        Drained s out.0 0 out.2
  unfolding drain_dispositions
  drain-Drained tenant tenants s r u = elim (Bool-cases (contains tenants tenant)) [
    | inl g ↦ rw g (drain_rows-Drained (pending_rows s tenant) s r 0 u)
    | inr n ↦ rw n (Drained-refl s 0)
  ]

  row_refused :
      (row : OutboxRow) (s : Store) (r : R) (a : ℕ)
      → ((q : R) (b : DispositionRecord) → (attempt deliver max_attempts q b).0 ≡ false)
      → let out = drain_row deliver max_attempts row s r a in
        (out.0.dispositions ≡ s.dispositions) × (out.2 ≡ a)
  unfolding drain_row
  row_refused row s r a refuses = elim (Bool-cases (claimable s row.id)) [
    | inr busy ↦ rw busy (refl, refl)
    | inl free ↦ rw (free, refuses r row.body) (refl, refl)
  ]

  rows_refused :
      (rows : List OutboxRow) (s : Store) (r : R) (a : ℕ)
      → ((q : R) (b : DispositionRecord) → (attempt deliver max_attempts q b).0 ≡ false)
      → let out = drain_rows deliver max_attempts rows s r a in
        (out.0.dispositions ≡ s.dispositions) × (out.2 ≡ a)
  unfolding drain_rows
  rows_refused [] s r a refuses = (refl, refl)
  rows_refused (row ∷ rows) s r a refuses =
      let (s', r', a') = drain_row deliver max_attempts row s r a in
      let (same, count) = row_refused row s r a refuses in
      let (same', count') = rows_refused rows s' r' a' refuses in (same' ∙ same, count' ∙ count)

  -- A receiver that refuses every try gets nothing marked: the outbox stays as it was, each row
  -- still pending for the next drain, and the drain returns 0.
  pub drain_refused :
      (tenant : String) (tenants : List String) (s : Store) (r : R)
      → ((q : R) (b : DispositionRecord) → (attempt deliver max_attempts q b).0 ≡ false)
      → ((drain_dispositions deliver max_attempts tenant tenants s r).0.dispositions
          ≡ s.dispositions)
        × ((drain_dispositions deliver max_attempts tenant tenants s r).2 ≡ 0)
  unfolding drain_dispositions
  drain_refused tenant tenants s r refuses = elim (Bool-cases (contains tenants tenant)) [
    | inl g ↦ rw g (rows_refused (pending_rows s tenant) s r 0 refuses)
    | inr n ↦ rw n (refl, refl)
  ]
