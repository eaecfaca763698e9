-- ===== src/WindowStore.antt =====
-- shared/store.py, InMemoryStore: the state of the detectors' windows, with an expiry on every key. A
-- time and a ttl are whole milliseconds, and each call takes the time that the clock shows. Numbers
-- of counters and scores are the parameter `Num`; a value of a window or a key is a text.
pub mod Windows
pub mod Identities
pub mod Fields
pub mod SetField
pub mod Changes
pub mod Replay
pub mod Counters
pub mod Once
pub mod Examples
use text.Mathlib.Text.{starts_with}
use cernityndr.Base.{
  ℕ, String, Bool, true, false, not, ◌&&◌, ◌||◌, Option, none, some, List, [], ◌∷◌, ◌++◌, map, ◌+◌,
  ◌-◌, ltb, leb, nat_eq, if◌then◌else◌, ◌==◌, string_eq, text_le, length, keep, any, contains,
  Table, lookup, insert, remove, order_by,
}

pub record Num (F : Type 0) : Type 0 where
  pub zero : F
  pub one : F
  pub add : F → F → F
  pub lt : F → F → Bool

pub record Sample (F : Type 0) : Type 0 where
  pub score : F
  pub value : String
  pub expiry : ℕ

pub record Store (F : Type 0) : Type 0 where
  pub z : Table (List (Sample F))
  pub zs : Table (Table F)
  pub h : Table (Table F)
  pub s : Table (Table ℕ)
  pub kv : Table (String × ℕ)
  pub exp : Table ℕ
  pub dedup : Table ℕ

abbrev pub or_empty : {A : Type 0} → Option (List A) → List A
or_empty none = []
or_empty (some xs) = xs

abbrev pub or_else : {A : Type 0} → A → Option A → A
or_else a none = a
or_else a (some b) = b

abbrev pub is_later : ℕ → Option ℕ → Bool
is_later now none = true
is_later now (some e) = ltb now e

abbrev pub has : {A : Type 0} → String → Table A → Bool
has key [] = false
has key (row ∷ rows) = row.0 == key || has key rows

abbrev pub refused_field : String
refused_field = "#refused"

-- `d.setdefault(key, value)` on a table of expiries
unfoldable pub default_to : Option ℕ → String → ℕ → Table ℕ → Table ℕ
unfolding insert
default_to none key value exp = insert key value exp
default_to (some e) key value exp = exp

module _ {F : Type 0} (n : Num F) where
  unfoldable pub alive : String → ℕ → Store F → Bool
  unfolding lookup
  alive key now st = is_later now (lookup key st.exp)

  unfoldable pub fields_of : String → Store F → Table F
  unfolding lookup
  fields_of key st = or_empty (lookup key st.h)

  -- A hash past its expiry is dropped.
  unfoldable pub fresh : String → ℕ → Store F → Store F
  unfolding alive remove
  fresh key now st =
      if alive key now st then st else record st { h = remove key st.h; exp = remove key st.exp }

  unfoldable pub counter_add : String → String → F → ℕ → ℕ → Store F → F × Store F
  unfolding fresh fields_of insert lookup default_to
  counter_add key field delta ttl now st =
      let st1 = fresh key now st in
      let total = n.add (or_else n.zero (lookup field (fields_of key st1))) delta in
      (
        total,
        record st1 {
          h = insert key (insert field total (fields_of key st1)) st1.h;
          exp = default_to (lookup key st1.exp) key (now + ttl) st1.exp;
        },
      )

  unfoldable pub counter_get : String → String → ℕ → Store F → F
  unfolding alive fields_of lookup
  counter_get key field now st =
      if not (alive key now st) then n.zero else or_else n.zero (lookup field (fields_of key st))

  unfoldable pub counter_clear : String → Store F → Store F
  unfolding remove
  counter_clear key st = record st { h = remove key st.h; exp = remove key st.exp }

  unfoldable pub is_full : Option ℕ → String → Table F → Bool
  is_full none field fields = false
  is_full (some cap) field fields =
      not (has field fields)
      && leb cap (length fields - (if has refused_field fields then 1 else 0))

  unfoldable pub set_field : Option ℕ → String → F → Table F → Table F
  unfolding is_full insert lookup
  set_field cap field value fields =
      if is_full cap field fields
      then insert refused_field (n.add (or_else n.zero (lookup refused_field fields)) n.one) fields
      else insert field value fields

  unfoldable pub field_set : String → String → F → ℕ → Option ℕ → ℕ → Store F → Store F
  unfolding fresh fields_of insert set_field lookup default_to
  field_set key field value ttl cap now st =
      let st1 = fresh key now st in
      record st1 {
        h = insert key (set_field cap field value (fields_of key st1)) st1.h;
        exp = default_to (lookup key st1.exp) key (now + ttl) st1.exp;
      }

  unfoldable pub fields_get : String → ℕ → Store F → Table F × F
  unfolding alive fields_of lookup
  fields_get key now st = if not (alive key now st) then ([], n.zero) else (
    keep (λ (row : String × F). not (row.0 == refused_field)) (fields_of key st),
    or_else n.zero (lookup refused_field (fields_of key st)),
  )

  -- `_live_set`, which prunes the set that it reads.
  unfoldable pub live_members : String → ℕ → Store F → Table ℕ
  unfolding lookup
  live_members key now st = keep (λ (row : String × ℕ). ltb now row.1) (or_empty (lookup key st.s))

  unfoldable pub put_set : String → Table ℕ → Table (Table ℕ) → Table (Table ℕ)
  unfolding insert remove
  put_set key [] sets = remove key sets
  put_set key (row ∷ rows) sets = insert key (row ∷ rows) sets

  unfoldable pub live_set : String → ℕ → Store F → Table ℕ × Store F
  unfolding live_members put_set
  live_set key now st =
      let members = live_members key now st in (members, record st { s = put_set key members st.s })

  abbrev pub has_room : Option ℕ → String → Table ℕ → Bool
  has_room none member members = true
  has_room (some cap) member members = leb (length members) cap || has member members

  unfoldable pub set_add : String → String → ℕ → Option ℕ → ℕ → Store F → Store F
  unfolding live_members insert
  set_add key member ttl cap now st =
      let members = live_members key now st in
      record st {
        s =
            insert key
              (if has_room cap member members then insert member (now + ttl) members else members)
              st.s;
        exp = insert key (now + ttl) st.exp;
      }

  unfoldable pub set_len : String → ℕ → Store F → ℕ × Store F
  unfolding live_set
  set_len key now st = let (members, after) = live_set key now st in (length members, after)

  unfoldable pub set_contains : String → String → ℕ → Store F → Bool × Store F
  unfolding live_set
  set_contains key member now st =
      let (members, after) = live_set key now st in (has member members, after)

  unfoldable pub set_members : String → ℕ → Store F → List String × Store F
  unfolding live_set
  set_members key now st =
      let (members, after) = live_set key now st in
      (map (λ (row : String × ℕ). row.0) members, after)

  unfoldable pub remove_member : Option (Table ℕ) → String → String → Store F → Store F
  unfolding insert remove
  remove_member none key member st = st
  remove_member (some members) key member st = record st {
    s = insert key (remove member members) st.s;
  }

  unfoldable pub set_remove : String → String → Store F → Store F
  unfolding lookup remove_member
  set_remove key member st = remove_member (lookup key st.s) key member st
