-- ===== src/Base/Dicts.antt =====
-- Python's dict, and OrderedDict, by a key type with a test for equality.
use Prim.Native.Nat.{ℕ}
use mathlib.Core.Path.{◌≡◌, refl}
use mathlib.Core.Bool.{true}
use mathlib.Core.Option.{Option, none, some}
use mathlib.Core.List.{List, [], ◌∷◌, ◌++◌}
use native.Mathlib.Omega.{arith}
use cernityndr.Base.Tests.{if◌then◌else◌, Testable, ◌==◌, ltb, leb}
use cernityndr.Base.Lists.{length}

abbrev pub Dict : Type 0 → Type 0 → Type 0
Dict K V = List (K × V)

module _ {K V : Type 0} ⦃e : Testable K⦄ where
  -- `d.get(key)`
  unfoldable pub find : K → Dict K V → Option V
  find key [] = none
  find key (row ∷ rest) = if row.0 == key then some row.1 else find key rest

  -- `d[key] = value`
  unfoldable pub put : K → V → Dict K V → Dict K V
  put key value [] = (key, value) ∷ []
  put key value (row ∷ rest) =
      let more = put key value rest in if row.0 == key then (key, value) ∷ rest else row ∷ more

  -- What is left after `d.pop(key, None)`.
  unfoldable pub drop_key : K → Dict K V → Dict K V
  drop_key key [] = []
  drop_key key (row ∷ rest) =
      let more = drop_key key rest in if row.0 == key then more else row ∷ more

  pub find-put :
      (key other : K) (value : V) (d : Dict K V)
      → find other (put key value d) ≡ (if key == other then some value else find other d)
  unfolding find put
  find-put key other value [] = refl
  find-put key other value (row ∷ rest) = ground (
    arith,
    find-put key other value rest,
    e.same_iff key other,
    e.same_iff row.0 key,
    e.same_iff row.0 other,
  )

  pub find-drop_key :
      (key other : K) (d : Dict K V)
      → find other (drop_key key d) ≡ (if key == other then none else find other d)
  unfolding find drop_key
  find-drop_key key other [] = ground arith
  find-drop_key key other (row ∷ rest) = ground (
    arith,
    find-drop_key key other rest,
    e.same_iff key other,
    e.same_iff row.0 key,
    e.same_iff row.0 other,
  )

  -- `d[key] = value; d.move_to_end(key)`
  unfoldable pub put_last : K → V → Dict K V → Dict K V
  unfolding drop_key
  put_last key value d = drop_key key d ++ (key, value) ∷ []

  -- `while len(d) > most: d.popitem(last=False)`
  unfoldable pub trim : ℕ → Dict K V → Dict K V
  trim most [] = []
  trim most (row ∷ rest) =
      let more = trim most rest in if ltb most (length (row ∷ rest)) then more else row ∷ rest

  pub trim-length : (most : ℕ) (d : Dict K V) → leb (length (trim most d)) most ≡ true
  unfolding trim
  trim-length most [] = ground arith
  trim-length most (row ∷ rest) = ground (arith, trim-length most rest)

  find-append_last :
      (d : Dict K V) (key : K) (value : V)
      → find key d ≡ none
      → find key (d ++ (key, value) ∷ []) ≡ some value
  unfolding find
  find-append_last [] key value h = ground (arith, e.same_iff key key)
  find-append_last (row ∷ rest) key value h = ground (arith, find-append_last rest key value)

  find-trim :
      (most : ℕ) (d : Dict K V) (key : K) (value : V)
      → ltb 0 most ≡ true
      → find key d ≡ none
      → find key (trim most (d ++ (key, value) ∷ [])) ≡ some value
  unfolding trim find
  find-trim most [] key value p h = ground (arith, e.same_iff key key)
  find-trim most (row ∷ rest) key value p h =
      ground (arith, find-trim most rest key value p, find-append_last rest key value)

  -- What was put last is not what a positive bound drops.
  pub find-trim-put_last :
      (most : ℕ) (d : Dict K V) (key : K) (value : V)
      → ltb 0 most ≡ true
      → find key (trim most (put_last key value d)) ≡ some value
  unfolding put_last
  find-trim-put_last most d key value p =
      find-trim most (drop_key key d) key value p
        (ground (arith, find-drop_key key key d, e.same_iff key key))
