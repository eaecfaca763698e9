-- ===== src/Pipeline/Recency.antt =====
-- services/finding-service/app.py: how long the cache of finalized findings keeps an entry.
use cernityndr.Base.{
  ℕ, suc, ◌≡◌, refl, ◌∙◌, inl, inr, true, false, none, some, [], ◌∷◌, ◌++◌, arith, leb, ltb,
  if◌then◌else◌, ◌==◌, same_refl, length, length-append, Bool-cases, Testable, Dict, find, drop_key,
  put_last, trim, find-drop_key,
}

module _ {K V : Type 0} ⦃e : Testable K⦄ where
  -- How many entries came after the one of `key`.
  unfoldable pub after : K → Dict K V → ℕ
  after key [] = 0
  after key (row ∷ rest) = if row.0 == key then length rest else after key rest

  -- The entry of `key` is `value`, and at most `most` entries came after it.
  abbrev pub IsRecent : K → V → ℕ → Dict K V → Type 0
  IsRecent key value most d = (find key d ≡ some value) × (leb (after key d) most ≡ true)

  length-drop_key : (key : K) (d : Dict K V) → leb (length (drop_key key d)) (length d) ≡ true
  unfolding drop_key
  length-drop_key key [] = ground arith
  length-drop_key key (row ∷ rest) = ground (arith, length-drop_key key rest)

  after-drop_key :
      (gone key : K) (d : Dict K V)
      → (gone == key) ≡ false
      → leb (after key (drop_key gone d)) (after key d) ≡ true
  unfolding after drop_key
  after-drop_key gone key [] h = ground arith
  after-drop_key gone key (row ∷ rest) h = ground (
    arith,
    h,
    after-drop_key gone key rest h,
    length-drop_key gone rest,
    e.same_iff gone key,
    e.same_iff row.0 gone,
    e.same_iff row.0 key,
  )

  after-append_last :
      (key : K) (row : K × V) (value : V) (d : Dict K V)
      → find key d ≡ some value
      → (find key (d ++ row ∷ []) ≡ some value) × (after key (d ++ row ∷ []) ≡ suc (after key d))
  unfolding after find
  after-append_last key row value [] h = absurd cc
  after-append_last key row value (first ∷ rest) h = elim (Bool-cases (first.0 == key)) [
    | inl q ↦ rw q (rw q at h, length-append rest (row ∷ []) ∙ omega arith)
    | inr q ↦ rw q (after-append_last key row value rest (rw q at h))
  ]

  after-trim :
      (most : ℕ) (key : K) (value : V) (d : Dict K V)
      → find key d ≡ some value
      → ltb (after key d) most ≡ true
      → (find key (trim most d) ≡ some value) × (after key (trim most d) ≡ after key d)
  unfolding after find trim
  after-trim most key value [] h k = absurd cc
  after-trim most key value (row ∷ rest) h k = elim (Bool-cases (row.0 == key)) [
    | inl q ↦
        let fits : ltb most (length (row ∷ rest)) ≡ false = ground (arith, k, q) in
        rw fits (h, refl)
    | inr q ↦ elim (Bool-cases (ltb most (length (row ∷ rest)))) [
      | inl long ↦ rw long (rw q (after-trim most key value rest (rw q at h) (rw q at k)))
      | inr short ↦ rw short (h, refl)
    ]
  ]

  after-new :
      (key : K) (value : V) (d : Dict K V)
      → find key d ≡ none
      → (find key (d ++ (key, value) ∷ []) ≡ some value) × (after key (d ++ (key, value) ∷ []) ≡ 0)
  unfolding after find
  after-new key value [] h = rw (same_refl key) (refl, refl)
  after-new key value (first ∷ rest) h = elim (Bool-cases (first.0 == key)) [
    | inl q ↦ absurd (some-none (rw q at h))
    | inr q ↦ rw q (after-new key value rest (rw q at h))
  ]
    where
      some-none : {v : V} → some v ≡ none → ⊥
      some-none p = cc

  pub put_last-IsRecent :
      (most : ℕ) (key : K) (value : V) (d : Dict K V)
      → ltb 0 most ≡ true
      → IsRecent key value 0 (trim most (put_last key value d))
  unfolding put_last
  put_last-IsRecent most key value d h =
      let (there, zero_after) =
        after-new key value (drop_key key d) (find-drop_key key key d ∙ rw (same_refl key) refl) in
      let (kept, as_before) =
        after-trim most key value (drop_key key d ++ (key, value) ∷ []) there
          (ground (arith, zero_after, h)) in
      (kept, ground (arith, as_before, zero_after))

  pub IsRecent-drop_key :
      (gone key : K) (value : V) (n : ℕ) (d : Dict K V)
      → (gone == key) ≡ false
      → IsRecent key value n d
      → IsRecent key value n (drop_key gone d)
  IsRecent-drop_key gone key value n d h (there, few) =
      (find-drop_key gone key d ∙ rw h there, ground (arith, few, after-drop_key gone key d h))

  -- One more entry, of another key, does not push out one that has room after it.
  pub IsRecent-put_last :
      (most n : ℕ) (other key : K) (value more : V) (d : Dict K V)
      → (other == key) ≡ false
      → ltb (suc n) most ≡ true
      → IsRecent key value n d
      → IsRecent key value (suc n) (trim most (put_last other more d))
  unfolding put_last
  IsRecent-put_last most n other key value more d h room recent =
      let (there, few) = IsRecent-drop_key other key value n d h recent in
      let (still, one_more) = after-append_last key (other, more) value (drop_key other d) there in
      let (kept, as_before) =
        after-trim most key value (drop_key other d ++ (other, more) ∷ []) still
          (ground (arith, one_more, few, room)) in
      (kept, ground (arith, as_before, one_more, few))
