-- ===== src/WindowStore/SetField.antt =====
-- shared/store.py: what one write of `field_set` does to each field of its hash.
use cernityndr.Base.{
  ℕ, String, ◌≡◌, refl, sym, ap, ◌∙◌, subst, ◌⊎◌, inl, inr, true, false, Option, none, some, arith,
  eq_iff, if◌then◌else◌, ◌==◌, string_eq, same_refl, Table, lookup, insert, lookup-insert,
  Bool-cases,
}
use mathlib.Core.Bool.{true≢false}
use cernityndr.WindowStore.{Num, or_else, has, refused_field, is_full, set_field}
use cernityndr.WindowStore.Identities.{length-insert, has-insert, is_full-refused}

module _ {F : Type 0} where
  abbrev pub latest : Option F → Option F → Option F
  latest o none = o
  latest o (some x) = some x

module _ {F : Type 0} (n : Num F) where
  pub has-is_full :
      (cap : Option ℕ) (field : String) (fields : Table F)
      → has field fields ≡ true
      → is_full n cap field fields ≡ false
  unfolding is_full
  has-is_full none field fields h = refl
  has-is_full (some cap) field fields h = rw h refl

  is_full-insert_other :
      (cap : Option ℕ) (f field : String) (value : F) (fields : Table F)
      → (field == refused_field) ≡ false
      → (field == f) ≡ false
      → is_full n cap f fields ≡ true
      → is_full n cap f (insert field value fields) ≡ true
  unfolding is_full
  is_full-insert_other none f field value fields known other h = h
  is_full-insert_other (some cap) f field value fields known other h =
      rw (has-insert field f value fields) (
        rw (has-insert field refused_field value fields)
          (rw (length-insert field value fields) (ground (arith, h, other, known))))

module _ {F : Type 0} (n : Num F) (cap : Option ℕ) where
  pub set_field-other :
      (f field : String) (value : F) (fields : Table F)
      → (f == refused_field) ≡ false
      → (field == f) ≡ false
      → (lookup f (set_field n cap field value fields) ≡ lookup f fields)
        × (has f (set_field n cap field value fields) ≡ has f fields)
  unfolding set_field
  set_field-other f field value fields named other =
      elim (Bool-cases (is_full n cap field fields)) [
        | inl q ↦
            let x = n.add (or_else n.zero (lookup refused_field fields)) n.one in
            let apart : (refused_field == f) ≡ false =
              ground (arith, named, eq_iff f refused_field, eq_iff refused_field f) in
            rw q (
              lookup-insert refused_field f x fields ∙ rw apart refl,
              has-insert refused_field f x fields ∙ rw apart refl,
            )
        | inr q ↦ rw q (
          lookup-insert field f value fields ∙ rw other refl,
          has-insert field f value fields ∙ rw other refl,
        )
      ]

  set_field-taken :
      (field : String) (value : F) (fields : Table F)
      → is_full n cap field fields ≡ false
      → (lookup field (set_field n cap field value fields) ≡ some value)
        × (has field (set_field n cap field value fields) ≡ true)
  unfolding set_field
  set_field-taken field value fields q = rw q (
    lookup-insert field field value fields ∙ rw (same_refl field) refl,
    has-insert field field value fields ∙ rw (same_refl field) refl,
  )

  -- A field that is refused stays refused, whatever else is written.
  pub is_full-set_field :
      (f field : String) (value : F) (fields : Table F)
      → (f == refused_field) ≡ false
      → (field == refused_field) ≡ false
      → is_full n cap f fields ≡ true
      → is_full n cap f (set_field n cap field value fields) ≡ true
  unfolding set_field
  is_full-set_field f field value fields named known full =
      elim (Bool-cases (is_full n cap field fields)) [
        | inl q ↦
            let x = n.add (or_else n.zero (lookup refused_field fields)) n.one in
            rw q (is_full-refused n cap f x fields named full)
        | inr q ↦ elim (Bool-cases (field == f)) [
          | inl same ↦ absurd (
              true≢false
                (sym full ∙ ap (λ x. is_full n cap x fields) (sym ((eq_iff field f).0 same)) ∙ q))
          | inr other ↦ rw q (is_full-insert_other n cap f field value fields known other full)
        ]
      ]

  pub set_field-refused :
      (f field : String) (value : F) (fields : Table F)
      → (f == refused_field) ≡ false
      → is_full n cap f fields ≡ true
      → lookup f (set_field n cap field value fields) ≡ lookup f fields
  unfolding set_field
  set_field-refused f field value fields named full = elim (Bool-cases (field == f)) [
    | inr other ↦ (set_field-other f field value fields named other).0
    | inl same ↦
        let x = n.add (or_else n.zero (lookup refused_field fields)) n.one in
        let apart : (refused_field == f) ≡ false =
          ground (arith, named, eq_iff f refused_field, eq_iff refused_field f) in
        let q : is_full n cap field fields ≡ true =
          ap (λ x. is_full n cap x fields) ((eq_iff field f).0 same) ∙ full in
        rw q (lookup-insert refused_field f x fields ∙ rw apart refl)
  ]

  pub set_field-open :
      (f field : String) (value : F) (fields : Table F)
      → (f == refused_field) ≡ false
      → is_full n cap f fields ≡ false
      → lookup f (set_field n cap field value fields)
        ≡ latest (lookup f fields) (if field == f then some value else none)
  set_field-open f field value fields named room = elim (Bool-cases (field == f)) [
    | inr other ↦ rw other (set_field-other f field value fields named other).0
    | inl same ↦
        let at = (eq_iff field f).0 same in
        rw same (
          subst (λ x. lookup x (set_field n cap field value fields) ≡ some value) at
            (set_field-taken field value fields (ap (λ x. is_full n cap x fields) at ∙ room)).0)
  ]

  pub set_field-has :
      (f field : String) (value : F) (fields : Table F)
      → (f == refused_field) ≡ false
      → is_full n cap f fields ≡ false
      → has f fields ≡ true ⊎ (field == f) ≡ true
      → has f (set_field n cap field value fields) ≡ true
  set_field-has f field value fields named room h = elim (Bool-cases (field == f)) [
    | inr other ↦
        (set_field-other f field value fields named other).1
        ∙ elim h [ inl there ↦ there | inr q ↦ absurd (true≢false (sym q ∙ other)) ]
    | inl same ↦
        let at = (eq_iff field f).0 same in
        subst (λ x. has x (set_field n cap field value fields) ≡ true) at
          (set_field-taken field value fields (ap (λ x. is_full n cap x fields) at ∙ room)).1
  ]
