-- ===== src/WindowStore/Identities.antt =====
-- shared/store.py: the fields of a hash, and what one write of `field_set` does to them.
use cernityndr.Base.{
  ℕ, String, ◌≡◌, refl, ap, inl, inr, true, false, not, ◌||◌, Option, none, some, [], ◌∷◌, ◌+◌, suc,
  arith, eq_iff, leb, if◌then◌else◌, ◌==◌, string_eq, same_refl, keep, length, Table, lookup,
  insert, Bool-cases,
}
use cernityndr.WindowStore.{Num, or_else, has, refused_field, is_full, set_field}

module _ {F : Type 0} where
  -- The fields that `fields_get` returns.
  abbrev pub identities : Table F → Table F
  identities fields = keep (λ (row : String × F). not (row.0 == refused_field)) fields

  pub identities-insert_refused :
      (x : F) (fields : Table F) → identities (insert refused_field x fields) ≡ identities fields
  unfolding insert
  identities-insert_refused x [] = refl
  identities-insert_refused x (row ∷ rows) = elim (Bool-cases (row.0 == refused_field)) [
    | inl q ↦ rw q refl
    | inr q ↦ rw q (rw q (ap (◌∷◌ row) (identities-insert_refused x rows)))
  ]

  pub length-identities-insert :
      (field : String) (value : F) (fields : Table F)
      → (field == refused_field) ≡ false
      → length (identities (insert field value fields)) ≡ (
          if has field fields then length (identities fields) else suc (length (identities fields)))
  unfolding insert
  length-identities-insert field value [] h = rw h refl
  length-identities-insert field value (row ∷ rows) h = ground (
    arith,
    length-identities-insert field value rows h,
    eq_iff row.0 field,
    eq_iff row.0 refused_field,
    eq_iff field refused_field,
  )

  -- Room is counted without the refusals.
  pub identities-room :
      (fields : Table F)
      → leb
          (length (identities fields) + (if has refused_field fields then 1 else 0))
          (length fields)
        ≡ true
  identities-room [] = refl
  identities-room (row ∷ rows) = ground (arith, identities-room rows)

  pub length-insert :
      (key : String) (value : F) (fields : Table F)
      → length (insert key value fields)
        ≡ (if has key fields then length fields else suc (length fields))
  unfolding insert
  length-insert key value [] = refl
  length-insert key value (row ∷ rows) = ground (arith, length-insert key value rows)

  pub has-insert :
      (key other : String) (value : F) (fields : Table F)
      → has other (insert key value fields) ≡ (key == other || has other fields)
  unfolding insert
  has-insert key other value [] = refl
  has-insert key other value (row ∷ rows) = ground (
    arith,
    has-insert key other value rows,
    eq_iff row.0 key,
    eq_iff row.0 other,
    eq_iff key other,
  )

  pub insert-insert :
      (key : String) (value : F) (fields : Table F)
      → insert key value (insert key value fields) ≡ insert key value fields
  unfolding insert
  insert-insert key value [] = rw (same_refl key) refl
  insert-insert key value (row ∷ rows) = elim (Bool-cases (row.0 == key)) [
    | inl q ↦ rw q (rw (same_refl key) refl)
    | inr q ↦ rw q (rw q (ap (◌∷◌ row) (insert-insert key value rows)))
  ]

  module _ (n : Num F) where
    pub set_field-bounded :
        (cap : ℕ) (field : String) (value : F) (fields : Table F)
        → (field == refused_field) ≡ false
        → leb (length (identities fields)) cap ≡ true
        → leb (length (identities (set_field n (some cap) field value fields))) cap ≡ true
    unfolding set_field is_full
    set_field-bounded cap field value fields named h =
        elim (Bool-cases (is_full n (some cap) field fields)) [
          | inl q ↦ rw q (
              rw
                (identities-insert_refused
                  (n.add (or_else n.zero (lookup refused_field fields)) n.one) fields)
                h)
          | inr q ↦ rw q (
              rw (length-identities-insert field value fields named)
                (ground (arith, identities-room fields, q, h)))
        ]

    pub is_full-refused :
        (cap : Option ℕ) (field : String) (x : F) (fields : Table F)
        → (field == refused_field) ≡ false
        → is_full n cap field fields ≡ true
        → is_full n cap field (insert refused_field x fields) ≡ true
    unfolding is_full
    is_full-refused none field x fields named h = h
    is_full-refused (some cap) field x fields named h =
        rw (has-insert refused_field field x fields) (
          rw (has-insert refused_field refused_field x fields) (
            rw (length-insert refused_field x fields)
              (ground (arith, h, named, eq_iff field refused_field, eq_iff refused_field field))))

    pub is_full-insert :
        (cap : Option ℕ) (field : String) (value : F) (fields : Table F)
        → is_full n cap field (insert field value fields) ≡ false
    unfolding is_full
    is_full-insert none field value fields = refl
    is_full-insert (some cap) field value fields =
        rw (has-insert field field value fields) (rw (same_refl field) refl)
