-- ===== src/WindowStore/Fields.antt =====
-- shared/store.py: `field_set` under its cap.
use cernityndr.Base.{
  ℕ, String, ◌≡◌, refl, ap, ◌∙◌, inl, inr, true, false, not, Option, some, List, [], ◌∷◌, ◌+◌,
  arith, leb, if◌then◌else◌, ◌==◌, string_eq, same_refl, all, length, lookup, lookup-insert,
  lookup-remove, Bool-cases,
}
use cernityndr.WindowStore.Identities.{identities, set_field-bounded}
use cernityndr.WindowStore.{
  Num, Store, or_empty, is_later, refused_field, default_to, alive, fields_of, fresh, set_field,
  field_set, fields_get,
}

pub record Write (F : Type 0) : Type 0 where
  pub key : String
  pub field : String
  pub value : F
  pub ttl : ℕ
  pub now : ℕ

module _ {F : Type 0} (n : Num F) where
  unfoldable pub set_all : ℕ → Store F → List (Write F) → Store F
  unfolding field_set
  set_all cap st [] = st
  set_all cap st (w ∷ ws) =
      set_all cap (field_set n w.key w.field w.value w.ttl (some cap) w.now st) ws

  -- No key has more identities than the cap.
  unfoldable IsCapped : ℕ → Store F → Type 0
  IsCapped cap st =
      (key : String) → leb (length (identities (or_empty (lookup key st.h)))) cap ≡ true

  fresh-IsCapped :
      (cap : ℕ) (key : String) (now : ℕ) (st : Store F)
      → IsCapped cap st
      → IsCapped cap (fresh n key now st)
  unfolding fresh IsCapped
  fresh-IsCapped cap key now st capped other = elim (Bool-cases (alive n key now st)) [
    | inl a ↦ rw a (capped other)
    | inr a ↦ rw a (
        rw (lookup-remove key other st.h) (elim (Bool-cases (key == other)) [
          | inl q ↦ rw q (ground arith)
          | inr q ↦ rw q (capped other)
        ]))
  ]

  field_set-IsCapped :
      (cap : ℕ) (w : Write F) (st : Store F)
      → (w.field == refused_field) ≡ false
      → IsCapped cap st
      → IsCapped cap (field_set n w.key w.field w.value w.ttl (some cap) w.now st)
  unfolding field_set IsCapped fields_of
  field_set-IsCapped cap w st named capped other =
      let st1 = fresh n w.key w.now st in
      let still : (key : String)
          → leb (length (identities (or_empty (lookup key st1.h)))) cap ≡ true =
        fresh-IsCapped cap w.key w.now st capped in
      rw
        (lookup-insert w.key other
          (set_field n (some cap) w.field w.value (or_empty (lookup w.key st1.h))) st1.h)
        (elim (Bool-cases (w.key == other)) [
          | inl q ↦ rw q (
              set_field-bounded n cap w.field w.value (or_empty (lookup w.key st1.h)) named
                (still w.key))
          | inr q ↦ rw q (still other)
        ])

  set_all-IsCapped :
      (cap : ℕ) (st : Store F) (ws : List (Write F))
      → all (λ (w : Write F). not (w.field == refused_field)) ws ≡ true
      → IsCapped cap st
      → IsCapped cap (set_all cap st ws)
  unfolding set_all
  set_all-IsCapped cap st [] named capped = capped
  set_all-IsCapped cap st (w ∷ ws) named capped =
      set_all-IsCapped cap (field_set n w.key w.field w.value w.ttl (some cap) w.now st) ws
        (ground arith) (field_set-IsCapped cap w st (ground arith) capped)

  -- However many fields are written under a cap, to whatever keys and at whatever times, a key
  -- never shows more identities than the cap. The store starts without hashes, and the field of
  -- the refusals is no identity.
  pub fields_get-bounded :
      (cap : ℕ) (st : Store F) (ws : List (Write F)) (key : String) (now : ℕ)
      → st.h ≡ []
      → all (λ (w : Write F). not (w.field == refused_field)) ws ≡ true
      → leb (length (fields_get n key now (set_all cap st ws)).0) cap ≡ true
  unfolding fields_get fields_of IsCapped
  fields_get-bounded cap st ws key now none_yet named =
      let capped : (key : String)
          → leb (length (identities (or_empty (lookup key (set_all cap st ws).h)))) cap ≡ true =
        set_all-IsCapped cap st ws named (λ other. rw none_yet (unfold lookup in ground arith)) in
      elim (Bool-cases (alive n key now (set_all cap st ws))) [
        | inl a ↦ rw a (capped key)
        | inr a ↦ rw a (ground arith)
      ]

  pub fields_of-field_set :
      (key field : String) (value : F) (ttl : ℕ) (cap : Option ℕ) (now : ℕ) (st : Store F)
      → fields_of n key (field_set n key field value ttl cap now st)
        ≡ set_field n cap field value (fields_of n key (fresh n key now st))
  unfolding field_set fields_of
  fields_of-field_set key field value ttl cap now st =
      let st1 = fresh n key now st in
      rw (lookup-insert key key (set_field n cap field value (or_empty (lookup key st1.h))) st1.h)
        (rw (same_refl key) refl)

  pub field_set-exp :
      (key field : String) (value : F) (ttl : ℕ) (cap : Option ℕ) (now end : ℕ) (st : Store F)
      → fresh n key now st ≡ st
      → lookup key st.exp ≡ some end
      → (field_set n key field value ttl cap now st).exp ≡ st.exp
  unfolding field_set default_to
  field_set-exp key field value ttl cap now end st same e =
      ap (λ (r : Store F). default_to (lookup key r.exp) key (now + ttl) r.exp) same
      ∙ ap (λ o. default_to o key (now + ttl) st.exp) e

  pub fresh-alive :
      (key : String) (now : ℕ) (st : Store F) → alive n key now st ≡ true → fresh n key now st ≡ st
  unfolding fresh
  fresh-alive key now st h = rw h refl

  pub fields_get-alive :
      (key : String) (read : ℕ) (st : Store F)
      → (fields_get n key read st).0
        ≡ (if is_later read (lookup key st.exp) then identities (fields_of n key st) else [])
  unfolding fields_get alive
  fields_get-alive key read st = elim (Bool-cases (is_later read (lookup key st.exp))) [
    | inl h ↦ rw h refl
    | inr h ↦ rw h refl
  ]
