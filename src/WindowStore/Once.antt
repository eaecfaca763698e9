-- ===== src/WindowStore/Once.antt =====
-- shared/store.py: `dedup_seen` against a history of what was emitted, and `kv_set_once`.
use mathlib.Core.Bool.{true≢false}
use cernityndr.Base.{
  ℕ, String, ◌≡◌, refl, sym, ap, ◌∙◌, subst, inl, inr, Bool, true, false, not, ◌&&◌, ◌||◌, Option,
  none, some, List, [], ◌∷◌, ◌+◌, arith, eq_iff, ltb, leb, if◌then◌else◌, ◌==◌, string_eq, all,
  lookup, insert, lookup-insert, Bool-cases, same_refl,
}
use cernityndr.WindowStore.{Num, Store}
use cernityndr.WindowStore.Windows.{is_muted, dedup_seen, is_held, kv_set_once, kv_get}

-- A call of `dedup_seen`.
pub record Seen : Type 0 where
  pub key : String
  pub ttl : ℕ
  pub now : ℕ

-- No emission of the same key has its ttl still running.
unfoldable pub is_due : List Seen → String → ℕ → Bool
is_due past key now = all (λ (e : Seen). not (e.key == key) || leb (e.now + e.ttl) now) past

-- The answers that the history of emissions gives.
unfoldable pub expected : List Seen → List Seen → List Bool
unfolding is_due
expected past [] = []
expected past (c ∷ calls) =
    is_due past c.key c.now ∷ expected (if is_due past c.key c.now then c ∷ past else past) calls

abbrev bound : Option ℕ → ℕ
bound none = 0
bound (some e) = e

muted-bound : (o : Option ℕ) (now : ℕ) → not (is_muted now o) ≡ leb (bound o) now
muted-bound none now = ground arith
muted-bound (some e) now = ground arith

-- The last emission of a key ends after the ones before.
longer :
    (start ttl now last : ℕ) (rest : Bool)
    → rest ≡ leb last now
    → leb last start ≡ true
    → (leb (start + ttl) now && rest) ≡ leb (start + ttl) now
longer start ttl now last rest p q = ground arith

-- A call of `kv_set_once`.
pub record Put : Type 0 where
  pub key : String
  pub value : String
  pub ttl : ℕ
  pub now : ℕ

module _ {F : Type 0} (n : Num F) where
  unfoldable pub answers : Store F → List Seen → List Bool
  unfolding dedup_seen
  answers st [] = []
  answers st (c ∷ calls) =
      (dedup_seen n c.key c.ttl c.now st).0 ∷ answers (dedup_seen n c.key c.ttl c.now st).1 calls

  -- The table holds what the history says.
  unfoldable IsKept : List Seen → Store F → Type 0
  IsKept past st =
      (key : String) (now : ℕ) → is_due past key now ≡ leb (bound (lookup key st.dedup)) now

  emitted-IsKept :
      (past : List Seen) (c : Seen) (st : Store F)
      → IsKept past st
      → leb (bound (lookup c.key st.dedup)) c.now ≡ true
      → IsKept (c ∷ past) (record st { dedup = insert c.key (c.now + c.ttl) st.dedup })
  unfolding IsKept is_due
  emitted-IsKept past c st k due key now = elim (Bool-cases (c.key == key)) [
    | inl q ↦
        let e = (eq_iff c.key key).0 q in
        let before = k key now in
        let soon = subst (λ x. leb (bound (lookup x st.dedup)) c.now ≡ true) e due in
        rw (lookup-insert c.key key (c.now + c.ttl) st.dedup)
          (rw q (longer c.now c.ttl now (bound (lookup key st.dedup)) _ before soon))
    | inr q ↦
        let before = k key now in
        rw (lookup-insert c.key key (c.now + c.ttl) st.dedup) (rw q before)
  ]

  answers-expected :
      (past : List Seen) (st : Store F) (calls : List Seen)
      → IsKept past st
      → answers st calls ≡ expected past calls
  unfolding answers expected dedup_seen
  answers-expected past st [] k = refl
  answers-expected past st (c ∷ calls) k =
      let e : is_due past c.key c.now ≡ leb (bound (lookup c.key st.dedup)) c.now =
        unfold IsKept in k c.key c.now in
      let m = muted-bound (lookup c.key st.dedup) c.now in
      elim (Bool-cases (leb (bound (lookup c.key st.dedup)) c.now)) [
        | inl b ↦
            let quiet : is_muted c.now (lookup c.key st.dedup) ≡ false = ground (arith, m, b) in
            rw e (
              rw b (
                rw quiet (
                  ap (◌∷◌ true)
                    (answers-expected (c ∷ past) _ calls (emitted-IsKept past c st k b)))))
        | inr b ↦
            let loud : is_muted c.now (lookup c.key st.dedup) ≡ true = ground (arith, m, b) in
            rw e (rw b (rw loud (ap (◌∷◌ false) (answers-expected past st calls k))))
      ]

  unfoldable pub put_all : Store F → List Put → Store F
  unfolding kv_set_once
  put_all st [] = st
  put_all st (c ∷ calls) = put_all (kv_set_once n c.key c.value c.ttl c.now st).1 calls

  put_all-held :
      (key value : String) (e : ℕ) (st : Store F) (calls : List Put)
      → lookup key st.kv ≡ some (value, e)
      → all (λ (c : Put). ltb c.now e) calls ≡ true
      → lookup key (put_all st calls).kv ≡ some (value, e)
  unfolding put_all
  put_all-held key value e st [] h t = h
  put_all-held key value e st (c ∷ calls) h t =
      put_all-held key value e (kv_set_once n c.key c.value c.ttl c.now st).1 calls
        (step (ground arith)) (ground arith)
    where
      step :
          ltb c.now e ≡ true
          → lookup key (kv_set_once n c.key c.value c.ttl c.now st).1.kv ≡ some (value, e)
      step young = elim (Bool-cases (leb c.ttl 0)) [
        | inl a ↦ unfold kv_set_once in rw a h
        | inr a ↦ elim (Bool-cases (is_held c.now (lookup c.key st.kv))) [
          | inl b ↦ unfold kv_set_once in rw a (rw b h)
          | inr b ↦
              unfold kv_set_once in
              rw a (
                rw b (elim (Bool-cases (c.key == key)) [
                  | inl q ↦
                      let held_now =
                        ap (λ x. is_held c.now (lookup x st.kv)) ((eq_iff c.key key).0 q)
                        ∙ ap (is_held c.now) h in
                      absurd (true≢false (sym young ∙ sym held_now ∙ b))
                  | inr q ↦ lookup-insert c.key key (c.value, c.now + c.ttl) st.kv ∙ rw q h
                ]))
        ]
      ]

  -- The first writer wins: once a value is put for a key, no later call before the end of its
  -- ttl, on this key or another, replaces it or lets it live longer. Within that time the key
  -- reads as the value, and from then on as nothing.
  pub kv_get-put_all :
      (c : Put) (calls : List Put) (st : Store F) (now : ℕ)
      → (kv_set_once n c.key c.value c.ttl c.now st).0 ≡ true
      → all (λ (d : Put). ltb d.now (c.now + c.ttl)) calls ≡ true
      → (kv_get n c.key now (put_all (kv_set_once n c.key c.value c.ttl c.now st).1 calls)).0
        ≡ (if ltb now (c.now + c.ttl) then some c.value else none)
  unfolding kv_get
  kv_get-put_all c calls st now won soon =
      rw
        (put_all-held c.key c.value (c.now + c.ttl) (kv_set_once n c.key c.value c.ttl c.now st).1
          calls (stored won) soon)
        refl
    where
      stored :
          (kv_set_once n c.key c.value c.ttl c.now st).0 ≡ true
          → lookup c.key (kv_set_once n c.key c.value c.ttl c.now st).1.kv
            ≡ some (c.value, c.now + c.ttl)
      stored won = elim (Bool-cases (leb c.ttl 0)) [
        | inl a ↦ absurd (true≢false (sym won ∙ unfold kv_set_once in rw a refl))
        | inr a ↦ elim (Bool-cases (is_held c.now (lookup c.key st.kv))) [
          | inl b ↦ absurd (true≢false (sym won ∙ unfold kv_set_once in rw a (rw b refl)))
          | inr b ↦
              unfold kv_set_once in
              rw a (
                rw b (
                  lookup-insert c.key c.key (c.value, c.now + c.ttl) st.kv
                  ∙ rw (same_refl c.key) refl))
        ]
      ]

  -- Each call of `dedup_seen`, on a store where nothing was emitted, answers as the full history of
  -- emissions says: true if and only if no emission of the same key is still within its ttl.
  pub answers-expected_new :
      (st : Store F) (calls : List Seen) → st.dedup ≡ [] → answers st calls ≡ expected [] calls
  answers-expected_new st calls h =
      answers-expected [] st calls
        (unfold IsKept in λ key now. rw h (unfold is_due lookup in ground arith))
