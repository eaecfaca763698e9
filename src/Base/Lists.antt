-- ===== src/Base/Lists.antt =====
-- Lists by a test for equality: Python's `in`, removal by a comprehension, appending once.
use Prim.Native.Nat.{ℕ, zero, suc, ◌+◌}
use mathlib.Core.Path.{◌≡◌, refl, ap₂}
use mathlib.Core.Logic.{◌⊎◌}
use mathlib.Core.Bool.{Bool, true, false, false≢true, ◌&&◌, ◌||◌, not}
use mathlib.Core.List.{List, [], ◌∷◌, ◌++◌}
use native.Mathlib.Omega.{arith}
use cernityndr.Base.Tests.{if◌then◌else◌, Testable, ◌==◌, same_refl}

module _ {ℓ} {A : Type ℓ} where
  abbrev pub length : List A → ℕ
  length [] = 0
  length (x ∷ xs) = suc (length xs)

  pub length-append : (xs ys : List A) → length (xs ++ ys) ≡ length xs + length ys
  length-append [] ys = omega arith
  length-append (x ∷ xs) ys = omega (arith, length-append xs ys)

  -- [x for x in xs if p(x)]
  abbrev pub keep : (A → Bool) → List A → List A
  keep p [] = []
  keep p (x ∷ xs) = let rest = keep p xs in if p x then x ∷ rest else rest

  -- xs[:n]
  abbrev pub take : ℕ → List A → List A
  take zero xs = []
  take (suc n) [] = []
  take (suc n) (x ∷ xs) = x ∷ take n xs

  abbrev pub all : (A → Bool) → List A → Bool
  all p [] = true
  all p (x ∷ xs) = p x && all p xs

  abbrev pub any : (A → Bool) → List A → Bool
  any p [] = false
  any p (x ∷ xs) = p x || any p xs

module _ {ℓ} {A : Type ℓ} ⦃e : Testable A⦄ where
  -- a in xs
  unfoldable pub contains : List A → A → Bool
  contains [] a = false
  contains (x ∷ xs) a = a == x || contains xs a

  -- [x for x in xs if x != a]
  unfoldable pub without : A → List A → List A
  without a [] = []
  without a (x ∷ xs) = let rest = without a xs in if x == a then rest else x ∷ rest

  -- No two places hold equal elements.
  unfoldable pub distinct : List A → Bool
  unfolding contains
  distinct [] = true
  distinct (x ∷ xs) = not (contains xs x) && distinct xs

  pub contains-cons :
      (x : A) (xs : List A) (a : A) → contains (x ∷ xs) a ≡ true → (a ≡ x) ⊎ (contains xs a ≡ true)
  unfolding contains
  contains-cons x xs a h = ground (arith, e.same_iff a x)

  pub contains-append :
      (xs ys : List A) (a : A) → contains (xs ++ ys) a ≡ (contains xs a || contains ys a)
  unfolding contains
  contains-append [] ys a = refl
  contains-append (x ∷ xs) ys a = ground (arith, contains-append xs ys a)

  pub contains-without :
      (xs : List A) (a b : A)
      → contains (without a xs) b ≡ (if b == a then false else contains xs b)
  unfolding contains without
  contains-without [] a b = ground arith
  contains-without (x ∷ xs) a b =
      ground (arith, contains-without xs a b, e.same_iff x a, e.same_iff b a, e.same_iff b x)

  -- Removing what was appended last gives the list back.
  pub without-append_self :
      (xs : List A) (a : A) → contains xs a ≡ false → without a (xs ++ a ∷ []) ≡ xs
  unfolding contains without
  without-append_self [] a h = ground (arith, e.same_iff a a)
  without-append_self (x ∷ xs) a h =
      ground (arith, without-append_self xs a, e.same_iff a x, e.same_iff x a)

  pub distinct-append :
      (xs : List A) (a : A)
      → distinct xs ≡ true
      → contains xs a ≡ false
      → distinct (xs ++ a ∷ []) ≡ true
  unfolding distinct contains
  distinct-append [] a h k = refl
  distinct-append (x ∷ xs) a h k =
      ground
        (arith, distinct-append xs a, contains-append xs (a ∷ []) x, e.same_iff a x, e.same_iff x a)

  pub distinct-without : (xs : List A) (a : A) → distinct xs ≡ true → distinct (without a xs) ≡ true
  unfolding distinct without
  distinct-without [] a h = refl
  distinct-without (x ∷ xs) a h = ground (arith, distinct-without xs a, contains-without xs a x)

  -- xs == ys
  unfoldable pub same_list : List A → List A → Bool
  same_list [] [] = true
  same_list (x ∷ xs) (y ∷ ys) = x == y && same_list xs ys
  same_list _ _ = false

  pub same_list-take :
      (xs ys : List A)
      → same_list (take (length ys) xs) ys ≡ true
      → (more : List A) × (xs ≡ ys ++ more)
  unfolding same_list
  same_list-take xs [] h = (xs, refl)
  same_list-take [] (y ∷ ys) h = absurd (false≢true h)
  same_list-take (x ∷ xs) (y ∷ ys) h =
      let (more, p) = same_list-take xs ys (ground arith) in
      let q : x ≡ y = (e.same_iff x y).0 (ground arith) in (more, ap₂ ◌∷◌ q p)

  pub take-same_list : (ys more : List A) → same_list (take (length ys) (ys ++ more)) ys ≡ true
  unfolding same_list
  take-same_list [] more = refl
  take-same_list (y ∷ ys) more = rw (same_refl y) (take-same_list ys more)
