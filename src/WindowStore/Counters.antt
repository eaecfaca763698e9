-- ===== src/WindowStore/Counters.antt =====
-- shared/store.py: a counter over its tumbling window.
use cernityndr.Base.{
  ℕ, String, ◌≡◌, refl, ap, ◌∙◌, ◌⊎◌, inl, inr, true, false, none, some, List, [], ◌∷◌, ◌+◌, arith,
  eq_iff, ltb, if◌then◌else◌, ◌==◌, string_eq, same_refl, all, Table, lookup, insert, lookup-insert,
  lookup-remove, Bool-cases,
}
use cernityndr.WindowStore.{
  Num, Store, or_empty, or_else, default_to, alive, fields_of, fresh, counter_add, counter_get,
}

pub record Add (F : Type 0) : Type 0 where
  pub field : String
  pub delta : F
  pub ttl : ℕ
  pub now : ℕ

module _ {F : Type 0} (n : Num F) where
  unfoldable pub add_all : String → Store F → List (Add F) → Store F
  unfolding counter_add
  add_all key st [] = st
  add_all key st (a ∷ adds) = add_all key (counter_add n key a.field a.delta a.ttl a.now st).1 adds

  -- The deltas of one field, from the left.
  unfoldable pub total : String → F → List (Add F) → F
  total field sum [] = sum
  total field sum (a ∷ adds) =
      total field (if a.field == field then n.add sum a.delta else sum) adds

  abbrev value : String → String → Store F → F
  value key field st = or_else n.zero (lookup field (or_empty (lookup key st.h)))

  fresh-alive :
      (key : String) (now : ℕ) (st : Store F) → alive n key now st ≡ true → fresh n key now st ≡ st
  unfolding fresh
  fresh-alive key now st h = rw h refl

  -- The sum that an addition leaves in a field.
  counted :
      (key field : String) (a : Add F) (st : Store F) (fields : Table F)
      → or_else n.zero (
          lookup field (
            or_empty (
              lookup key (
                insert key
                  (insert a.field (n.add (or_else n.zero (lookup a.field fields)) a.delta) fields)
                  st.h))))
        ≡ (if a.field == field
            then n.add (or_else n.zero (lookup field fields)) a.delta
            else or_else n.zero (lookup field fields))
  counted key field a st fields =
      let sum = n.add (or_else n.zero (lookup a.field fields)) a.delta in
      rw (lookup-insert key key (insert a.field sum fields) st.h) (
        rw (same_refl key) (
          rw (lookup-insert a.field field sum fields) (elim (Bool-cases (a.field == field)) [
            | inl q ↦ rw q (
                ap (λ x. n.add (or_else n.zero (lookup x fields)) a.delta)
                  ((eq_iff a.field field).0 q))
            | inr q ↦ rw q refl
          ])))

  -- No window is open: the key has expired, or was never written.
  unfoldable pub IsClosed : String → ℕ → Store F → Type 0
  IsClosed key now st =
      (alive n key now st ≡ false) ⊎ ((lookup key st.exp ≡ none) × (lookup key st.h ≡ none))

  fresh-IsClosed :
      (key : String) (now : ℕ) (st : Store F)
      → IsClosed key now st
      → (lookup key (fresh n key now st).exp ≡ none) × (lookup key (fresh n key now st).h ≡ none)
  unfolding fresh IsClosed alive
  fresh-IsClosed key now st (inl dead) = rw dead (
    lookup-remove key key st.exp ∙ rw (same_refl key) refl,
    lookup-remove key key st.h ∙ rw (same_refl key) refl,
  )
  fresh-IsClosed key now st (inr (no_end, no_fields)) =
      rw (fresh-alive key now st (unfold alive in rw no_end refl)) (no_end, no_fields)

  -- One addition to a live window: the field grows, the end stays.
  counter_add-live :
      (key field : String) (end : ℕ) (a : Add F) (st : Store F)
      → lookup key st.exp ≡ some end
      → ltb a.now end ≡ true
      → (lookup key (counter_add n key a.field a.delta a.ttl a.now st).1.exp ≡ some end)
        × (value key field (counter_add n key a.field a.delta a.ttl a.now st).1
            ≡ (if a.field == field then n.add (value key field st) a.delta else value key field st))
  unfolding counter_add alive default_to fields_of
  counter_add-live key field end a st ends soon =
      let live : fresh n key a.now st ≡ st = fresh-alive key a.now st (rw ends soon) in
      rw live (rw ends ends, counted key field a st (or_empty (lookup key st.h)))

  counter_add-first :
      (key field : String) (a : Add F) (st : Store F)
      → IsClosed key a.now st
      → (lookup key (counter_add n key a.field a.delta a.ttl a.now st).1.exp ≡ some (a.now + a.ttl))
        × (value key field (counter_add n key a.field a.delta a.ttl a.now st).1
            ≡ (if a.field == field then n.add n.zero a.delta else n.zero))
  unfolding counter_add default_to fields_of
  counter_add-first key field a st closed =
      let st1 = fresh n key a.now st in
      let (no_end, no_fields) = fresh-IsClosed key a.now st closed in
      (
        rw no_end (lookup-insert key key (a.now + a.ttl) st1.exp ∙ rw (same_refl key) refl),
        counted key field a st1 (or_empty (lookup key st1.h))
            ∙ rw no_fields (unfold lookup in refl),
      )

  add_all-live :
      (key field : String) (end : ℕ) (adds : List (Add F)) (st : Store F)
      → lookup key st.exp ≡ some end
      → all (λ (a : Add F). ltb a.now end) adds ≡ true
      → (lookup key (add_all key st adds).exp ≡ some end)
        × (value key field (add_all key st adds) ≡ total field (value key field st) adds)
  unfolding add_all total
  add_all-live key field end [] st ends soon = (ends, refl)
  add_all-live key field end (a ∷ adds) st ends soon =
      let (still, sum) = counter_add-live key field end a st ends (ground arith) in
      let (kept, rest) =
        add_all-live key field end adds (counter_add n key a.field a.delta a.ttl a.now st).1 still
          (ground arith) in
      (kept, rest ∙ ap (λ x. total field x adds) sum)

  -- The window tumbles: when none is open, the first addition opens one that ends its ttl later,
  -- and no addition within it moves that end. Until then a field reads as the sum of its own deltas
  -- from zero, whatever the key held before, and from then on as zero.
  pub counter_get-add_all :
      (key field : String) (a : Add F) (adds : List (Add F)) (st : Store F) (now : ℕ)
      → IsClosed key a.now st
      → all (λ (b : Add F). ltb b.now (a.now + a.ttl)) adds ≡ true
      → counter_get n key field now (add_all key st (a ∷ adds))
        ≡ (if ltb now (a.now + a.ttl) then total field n.zero (a ∷ adds) else n.zero)
  unfolding counter_get alive fields_of add_all total
  counter_get-add_all key field a adds st now closed soon =
      let (ends, first) = counter_add-first key field a st closed in
      let (kept, sum) =
        add_all-live key field (a.now + a.ttl) adds
          (counter_add n key a.field a.delta a.ttl a.now st).1 ends soon in
      rw kept (elim (Bool-cases (ltb now (a.now + a.ttl))) [
        | inl h ↦ rw h (sum ∙ ap (λ x. total field x adds) first)
        | inr h ↦ rw h refl
      ])
