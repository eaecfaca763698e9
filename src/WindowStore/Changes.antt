-- ===== src/WindowStore/Changes.antt =====
-- shared/store.py: a list of changes to the fields of one hash.
use cernityndr.Base.{
  ℕ, String, ◌≡◌, refl, sym, ap, ◌∙◌, ◌⊎◌, inl, inr, Bool, true, false, not, Option, none, some,
  List, [], ◌∷◌, arith, eq_iff, if◌then◌else◌, ◌==◌, string_eq, all, Table, lookup, Bool-cases,
}
use cernityndr.WindowStore.{Num, has, refused_field, is_full, set_field}
use cernityndr.WindowStore.Identities.{identities}
use cernityndr.WindowStore.SetField.{
  latest, has-is_full, is_full-set_field, set_field-other, set_field-refused, set_field-open,
  set_field-has,
}

module _ {F : Type 0} where
  -- No change is to the field of the refusals.
  abbrev pub all_named : List (String × F) → Bool
  all_named cs = all (λ (c : String × F). not (c.0 == refused_field)) cs

  -- The value that the last change of `field` has.
  unfoldable last_of : String → List (String × F) → Option F
  last_of field [] = none
  last_of field (c ∷ cs) =
      let rest = last_of field cs in latest (if c.0 == field then some c.1 else none) rest

  latest-latest : (a b c : Option F) → latest a (latest b c) ≡ latest (latest a b) c
  latest-latest a b none = refl
  latest-latest a b (some x) = refl

  latest-twice : (a b : Option F) → latest (latest a b) b ≡ latest a b
  latest-twice a none = refl
  latest-twice a (some x) = refl

  pub lookup-identities :
      (field : String) (fields : Table F)
      → lookup field (identities fields)
        ≡ (if field == refused_field then none else lookup field fields)
  unfolding lookup
  lookup-identities field [] = ground arith
  lookup-identities field (row ∷ rows) = ground (
    arith,
    lookup-identities field rows,
    eq_iff row.0 refused_field,
    eq_iff row.0 field,
    eq_iff field refused_field,
  )

module _ {F : Type 0} (n : Num F) (cap : Option ℕ) where
  unfoldable pub change_all : Table F → List (String × F) → Table F
  unfolding set_field
  change_all fields [] = fields
  change_all fields (c ∷ cs) = change_all (set_field n cap c.0 c.1 fields) cs

  change_all-is_full :
      (f : String) (fields : Table F) (cs : List (String × F))
      → (f == refused_field) ≡ false
      → all_named cs ≡ true
      → is_full n cap f fields ≡ true
      → (lookup f (change_all fields cs) ≡ lookup f fields)
        × (is_full n cap f (change_all fields cs) ≡ true)
  unfolding change_all
  change_all-is_full f fields [] named known full = (refl, full)
  change_all-is_full f fields (c ∷ cs) named known full =
      let next = set_field n cap c.0 c.1 fields in
      let still = is_full-set_field n cap f c.0 c.1 fields named (ground (arith, known)) full in
      let (rest, end) = change_all-is_full f next cs named (ground (arith, known)) still in
      (rest ∙ set_field-refused n cap f c.0 c.1 fields named full, end)

  change_all-has :
      (f : String) (fields : Table F) (cs : List (String × F))
      → (f == refused_field) ≡ false
      → has f fields ≡ true
      → (lookup f (change_all fields cs) ≡ latest (lookup f fields) (last_of f cs))
        × (has f (change_all fields cs) ≡ true)
  unfolding change_all last_of
  change_all-has f fields [] named there = (refl, there)
  change_all-has f fields (c ∷ cs) named there =
      let room = has-is_full n cap f fields there in
      let (rest, end) =
        change_all-has f (set_field n cap c.0 c.1 fields) cs named
          (set_field-has n cap f c.0 c.1 fields named room (inl there)) in
      (
        rest
            ∙ ap (λ o. latest o (last_of f cs)) (set_field-open n cap f c.0 c.1 fields named room)
            ∙ sym (latest-latest (lookup f fields) _ (last_of f cs)),
        end,
      )

  -- After the changes, a field is refused, or it stands with the last value given to it, or it was
  -- not among the changes.
  change_all-cases :
      (f : String) (fields : Table F) (cs : List (String × F))
      → (f == refused_field) ≡ false
      → all_named cs ≡ true
      → (is_full n cap f (change_all fields cs) ≡ true)
        ⊎ ((has f (change_all fields cs) ≡ true)
            × (lookup f (change_all fields cs) ≡ latest (lookup f fields) (last_of f cs)))
        ⊎ (has f cs ≡ false)
  unfolding change_all last_of
  change_all-cases f fields [] named known = inr (inr refl)
  change_all-cases f fields (c ∷ cs) named known =
      let next = set_field n cap c.0 c.1 fields in
      elim (Bool-cases (is_full n cap f fields)) [
        | inl full ↦ inl (change_all-is_full f fields (c ∷ cs) named known full).1
        | inr room ↦
            let step =
              ap (λ o. latest o (last_of f cs)) (set_field-open n cap f c.0 c.1 fields named room)
              ∙ sym (latest-latest (lookup f fields) _ (last_of f cs)) in
            elim (Bool-cases (c.0 == f)) [
              | inl q ↦
                  let (rest, end) =
                    change_all-has f next cs named
                      (set_field-has n cap f c.0 c.1 fields named room (inr q)) in
                  inr (inl (end, rest ∙ step))
              | inr other ↦ elim (change_all-cases f next cs named (ground (arith, known))) [
                | inl full ↦ inl full
                | inr (inl (there, last)) ↦ inr (inl (there, last ∙ step))
                | inr (inr absent) ↦ inr (inr (ground (arith, other, absent)))
              ]
            ]
      ]

  change_all-absent :
      (f : String) (fields : Table F) (cs : List (String × F))
      → (f == refused_field) ≡ false
      → has f cs ≡ false
      → lookup f (change_all fields cs) ≡ lookup f fields
  unfolding change_all
  change_all-absent f fields [] named absent = refl
  change_all-absent f fields (c ∷ cs) named absent =
      change_all-absent f (set_field n cap c.0 c.1 fields) cs named (ground (arith, absent))
      ∙ (set_field-other n cap f c.0 c.1 fields named (ground (arith, absent))).0

  -- The changes a second time leave every field as it is, whichever were taken or refused.
  pub change_all-replay :
      (f : String) (fields : Table F) (cs : List (String × F))
      → (f == refused_field) ≡ false
      → all_named cs ≡ true
      → lookup f (change_all (change_all fields cs) cs) ≡ lookup f (change_all fields cs)
  change_all-replay f fields cs named known =
      let once = change_all fields cs in
      elim (change_all-cases f fields cs named known) [
        | inl full ↦ (change_all-is_full f once cs named known full).0
        | inr (inl (there, last)) ↦
            (change_all-has f once cs named there).0
            ∙ ap (λ o. latest o (last_of f cs)) last
            ∙ latest-twice (lookup f fields) (last_of f cs)
            ∙ sym last
        | inr (inr absent) ↦ change_all-absent f once cs named absent
      ]
