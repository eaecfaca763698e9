-- ===== src/Base/Keyed.antt =====
-- A table with a text key, as an association list: Python's dict, or a table with a primary key.
use Prim.Native.String.{String}
use mathlib.Core.Path.{◌≡◌, refl}
use mathlib.Core.Option.{Option, none, some}
use mathlib.Core.List.{List, [], ◌∷◌}
use native.Mathlib.Omega.{arith}
use text.Mathlib.TextEquality.{eq_iff}
use cernityndr.Base.Tests.{if◌then◌else◌, ◌==◌, string_eq}

abbrev pub Table : Type 0 → Type 0
Table V = List (String × V)

module _ {V : Type 0} where
  -- `d.get(key)`, or the row of a SELECT by key.
  unfoldable pub lookup : String → Table V → Option V
  lookup key [] = none
  lookup key (entry ∷ rest) = if entry.0 == key then some entry.1 else lookup key rest

  -- `d[key] = value`: a key that is there keeps its place.
  unfoldable pub insert : String → V → Table V → Table V
  insert key value [] = (key, value) ∷ []
  insert key value (entry ∷ rest) =
      let more = insert key value rest in
      if entry.0 == key then (key, value) ∷ rest else entry ∷ more

  -- `d.pop(key, None)`
  unfoldable pub remove : String → Table V → Table V
  remove key [] = []
  remove key (entry ∷ rest) =
      let more = remove key rest in if entry.0 == key then more else entry ∷ more

  pub lookup-insert :
      (key other : String) (value : V) (table : Table V)
      → lookup other (insert key value table)
        ≡ (if key == other then some value else lookup other table)
  unfolding lookup insert
  lookup-insert key other value [] = refl
  lookup-insert key other value (entry ∷ rest) = ground (
    arith,
    lookup-insert key other value rest,
    eq_iff key other,
    eq_iff entry.0 key,
    eq_iff entry.0 other,
  )

  pub lookup-remove :
      (key other : String) (table : Table V)
      → lookup other (remove key table) ≡ (if key == other then none else lookup other table)
  unfolding lookup remove
  lookup-remove key other [] = ground arith
  lookup-remove key other (entry ∷ rest) = ground (
    arith,
    lookup-remove key other rest,
    eq_iff key other,
    eq_iff entry.0 key,
    eq_iff entry.0 other,
  )
