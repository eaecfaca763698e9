-- ===== src/WindowStore/Windows.antt =====
-- shared/store.py, InMemoryStore: windows and first-seen sets, keys with a value, the emit-once keys,
-- and the batch of `pipeline_ops`.
use text.Mathlib.Text.{starts_with}
use cernityndr.Base.{
  ℕ, String, Bool, true, false, not, ◌&&◌, ◌||◌, Option, none, some, List, [], ◌∷◌, ◌++◌, map, ◌+◌,
  suc, ltb, leb, nat_eq, if◌then◌else◌, string_eq, text_le, keep, contains, Table, lookup, insert,
  remove, order_by,
}
use cernityndr.WindowStore.{
  Num, Sample, Store, or_empty, has, alive, counter_add, field_set, set_add,
}

-- Python's order on the pairs (score, text).
abbrev pub pair_before : {F : Type 0} → Num F → F × String → F × String → Bool
pair_before n a b = n.lt a.0 b.0 || (not (n.lt b.0 a.0) && not (text_le b.1 a.1))

abbrev pub is_held : ℕ → Option (String × ℕ) → Bool
is_held now none = false
is_held now (some entry) = ltb now entry.1

abbrev pub held : ℕ → Option (String × ℕ) → Option String
held now none = none
held now (some entry) = if ltb now entry.1 then some entry.0 else none

-- `e and e > now`
abbrev pub is_muted : ℕ → Option ℕ → Bool
is_muted now none = false
is_muted now (some e) = not (nat_eq e 0) && ltb now e

abbrev pub live_keys : {A : Type 0} → String → (String → Bool) → Table A → List String
live_keys prefix live [] = []
live_keys prefix live (row ∷ rows) =
    let rest = live_keys prefix live rows in
    if starts_with row.0 prefix && live row.0 then row.0 ∷ rest else rest

unfoldable pub unique : List String → List String
unfolding contains
unique [] = []
unique (x ∷ xs) = let rest = unique xs in if contains rest x then rest else x ∷ rest

module _ {F : Type 0} (n : Num F) where
  unfoldable pub insert_pair : F × String → List (F × String) → List (F × String)
  insert_pair a [] = a ∷ []
  insert_pair a (b ∷ bs) =
      let more = insert_pair a bs in if pair_before n b a then b ∷ more else a ∷ b ∷ bs

  unfoldable pub sort_pairs : List (F × String) → List (F × String)
  unfolding insert_pair
  sort_pairs [] = []
  sort_pairs (a ∷ rest) = insert_pair a (sort_pairs rest)

  unfoldable pub window_add : String → F → String → ℕ → ℕ → Store F → Store F
  unfolding insert lookup
  window_add key score value ttl now st = record st {
    z =
        insert key
          (or_empty (lookup key st.z)
            ++ record { score = score; value = value; expiry = now + ttl } ∷ [])
          st.z;
    exp = insert key (now + ttl) st.exp;
  }

  unfoldable pub live_samples : String → F → ℕ → Store F → List (Sample F)
  unfolding lookup
  live_samples key min_score now st =
      keep (λ (t : Sample F). ltb now t.expiry && not (n.lt t.score min_score))
        (or_empty (lookup key st.z))

  unfoldable pub window_range : String → F → ℕ → Store F → List (F × String) × Store F
  unfolding live_samples sort_pairs insert
  window_range key min_score now st =
      let live = live_samples key min_score now st in
      (
        sort_pairs (map (λ (t : Sample F). (t.score, t.value)) live),
        record st { z = insert key live st.z },
      )

  abbrev pub first_seen : String → F → Table F → Table F
  first_seen member score members =
      if has member members then members else members ++ (member, score) ∷ []

  -- The "znx" operation, without its index.
  unfoldable pub zset_add : String → String → F → ℕ → ℕ → Store F → Store F
  unfolding alive insert lookup
  zset_add key member score ttl now st = record st {
    zs =
        insert key
          (first_seen member score (if alive n key now st then or_empty (lookup key st.zs) else []))
          st.zs;
    exp = insert key (now + ttl) st.exp;
  }

  unfoldable pub zset_since : String → F → ℕ → Store F → List String × Store F
  unfolding alive lookup remove sort_pairs
  zset_since key min_score now st =
      if not (alive n key now st) then ([], record st { zs = remove key st.zs }) else (
        map (λ (m : F × String). m.1)
            (sort_pairs (
              map (λ (row : String × F). (row.1, row.0))
                (keep (λ (row : String × F). n.lt min_score row.1) (or_empty (lookup key st.zs))))),
        st,
      )

  abbrev pub rank_of : Option F → String → Table F → Option ℕ
  rank_of none member members = none
  rank_of (some score) member members = some (count_before (score, member) members)
    where
      count_before : F × String → Table F → ℕ
      count_before a [] = 0
      count_before a (row ∷ rows) =
          let rest = count_before a rows in
          if pair_before n (row.1, row.0) a then suc rest else rest

  unfoldable pub zset_rank : String → String → ℕ → Store F → Option ℕ
  unfolding alive lookup
  zset_rank key member now st =
      if not (alive n key now st)
      then none
      else rank_of (lookup member (or_empty (lookup key st.zs))) member
          (or_empty (lookup key st.zs))

  unfoldable pub kv_set : String → String → ℕ → ℕ → Store F → Store F
  unfolding insert
  kv_set key value ttl now st = record st { kv = insert key (value, now + ttl) st.kv }

  unfoldable pub kv_set_once : String → String → ℕ → ℕ → Store F → Bool × Store F
  unfolding insert lookup
  kv_set_once key value ttl now st =
      if leb ttl 0
      then (false, st)
      else if is_held now (lookup key st.kv)
      then (false, st)
      else (true, record st { kv = insert key (value, now + ttl) st.kv })

  unfoldable pub kv_get : String → ℕ → Store F → Option String × Store F
  unfolding lookup remove
  kv_get key now st = (
    held now (lookup key st.kv),
    if is_held now (lookup key st.kv) then st else record st { kv = remove key st.kv },
  )

  unfoldable pub kv_prune : ℕ → Store F → Store F
  kv_prune now st = record st { kv = keep (λ (row : String × (String × ℕ)). ltb now row.1.1) st.kv }

  unfoldable pub dedup_seen : String → ℕ → ℕ → Store F → Bool × Store F
  unfolding insert lookup
  dedup_seen key ttl now st =
      if is_muted now (lookup key st.dedup)
      then (false, st)
      else (true, record st { dedup = insert key (now + ttl) st.dedup })

  unfoldable pub keys_matching : String → ℕ → Store F → List String
  unfolding alive order_by lookup unique
  keys_matching prefix now st =
      let live : String → Bool = λ key. alive n key now st in
      order_by (λ key. key)
        (unique (
          live_keys prefix live st.z
          ++ live_keys prefix live st.zs
          ++ live_keys prefix live st.h
          ++ live_keys prefix live st.s
          ++ live_keys prefix (λ key. is_held now (lookup key st.kv)) st.kv))

  pub data Op : Type 0 where
    win : String → Option String → F → String → ℕ → Op
    cnt : String → String → F → ℕ → Option String → Op
    fset : String → String → F → ℕ → Option String → Option ℕ → Op
    znx : String → String → F → ℕ → Option String → Op
    kv : String → String → ℕ → Op
    sadd : String → String → ℕ → Op

  abbrev pub add_index : Option String → String → ℕ → ℕ → Store F → Store F
  add_index none key ttl now st = st
  add_index (some idx) key ttl now st = set_add n idx key ttl none now st

  unfoldable pub apply_op : ℕ → Store F → Op → Store F
  unfolding window_add counter_add field_set zset_add kv_set set_add
  apply_op now st (win key idx score value ttl) =
      add_index idx key ttl now (window_add key score value ttl now st)
  apply_op now st (cnt key field delta ttl idx) =
      add_index idx key ttl now (counter_add n key field delta ttl now st).1
  apply_op now st (fset key field value ttl idx cap) =
      add_index idx key ttl now (field_set n key field value ttl cap now st)
  apply_op now st (znx key member score ttl idx) =
      add_index idx key ttl now (zset_add key member score ttl now st)
  apply_op now st (kv key value ttl) = kv_set key value ttl now st
  apply_op now st (sadd key member ttl) = set_add n key member ttl none now st

  unfoldable pub pipeline_ops : ℕ → Store F → List Op → Store F
  unfolding apply_op
  pipeline_ops now st [] = st
  pipeline_ops now st (op ∷ ops) = pipeline_ops now (apply_op now st op) ops
