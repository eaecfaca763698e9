-- ===== src/Pipeline/Sweep.antt =====
-- services/finding-service/app.py: the sweep of timeouts leaves nothing overdue.
use cernityndr.Base.{
  ℕ, inl, inr, ◌≡◌, refl, sym, ap, ◌∙◌, Bool, true, false, ◌||◌, Option, none, some, List, [], ◌∷◌,
  arith, leb, if◌then◌else◌, ◌==◌, contains, any, Bool-cases, Dict, find, drop_key, find-drop_key,
}
use cernityndr.Pipeline.{
  Key, key_eq, Entry, Service, Config, time_out, remember_finalized, status_for, due_keys,
  sweep_keys, sweep_timeouts,
}
use cernityndr.Pipeline.Keys.{Keyed, inj_some}
use cernityndr.Pipeline.Obligations.{delivers, is_served, Safe, sweep_keys-Safe}

module _ {F : Type 0} where
  status_for-find :
      (cfg : Config F) (s : Service F) (key other : Key) (o : Option (Entry F))
      → find key s.waiting ≡ o
      → find other (status_for cfg (o, drop_key key s.waiting) s).waiting
        ≡ (if key == other then none else find other s.waiting)
  unfolding status_for
  status_for-find cfg s key other none p = elim (Bool-cases (key == other)) [
    | inl q ↦ rw q (ap (λ k. find k s.waiting) (sym ((key_eq.same_iff key other).0 q)) ∙ p)
    | inr q ↦ rw q refl
  ]
  status_for-find cfg s key other (some e) p =
      unfold time_out in unfold remember_finalized in find-drop_key key other s.waiting

  sweep_keys-find :
      (cfg : Config F) (keys : List Key) (s : Service F) (key : Key)
      → find key (sweep_keys cfg keys s).waiting
        ≡ (if contains keys key then none else find key s.waiting)
  unfolding sweep_keys contains
  sweep_keys-find cfg [] s key = refl
  sweep_keys-find cfg (k ∷ keys) s key =
      sweep_keys-find cfg keys (status_for cfg (find k s.waiting, drop_key k s.waiting) s) key
      ∙ merge (k == key) (key == k) (contains keys key) _ _
          (ground (arith, key_eq.same_iff k key, key_eq.same_iff key k))
          (status_for-find cfg s k key (find k s.waiting) refl)
    where
      merge :
          (a b c : Bool) (o p : Option (Entry F))
          → a ≡ b
          → p ≡ (if a then none else o)
          → (if c then none else p) ≡ (if b || c then none else o)
      merge a b c o p h q = ground arith

  due_keys-contains :
      (now : ℕ) (d : Dict Key (Entry F)) (key : Key) (e : Entry F)
      → find key d ≡ some e
      → leb e.deadline now ≡ true
      → contains (due_keys now d) key ≡ true
  unfolding find due_keys contains
  due_keys-contains now [] key e p h = absurd cc
  due_keys-contains now (row ∷ rest) key e p h = elim (Bool-cases (row.0 == key)) [
    | inl q ↦
        let same : row.1 ≡ e = inj_some (sym (rw q refl) ∙ p) in
        listed (leb row.1.deadline now) (due_keys now rest)
          (ap (λ (x : Entry F). leb x.deadline now) same ∙ h)
          (ground (arith, key_eq.same_iff row.0 key, key_eq.same_iff key row.0))
    | inr q ↦
        kept (leb row.1.deadline now) (due_keys now rest)
          (due_keys-contains now rest key e (sym (rw q refl) ∙ p) h)
  ]
    where
      listed :
          (b : Bool) (keys : List Key)
          → b ≡ true
          → (key == row.0) ≡ true
          → contains (if b then row.0 ∷ keys else keys) key ≡ true
      listed true keys h k = ground arith
      listed false keys h k = absurd cc

      kept :
          (b : Bool) (keys : List Key)
          → contains keys key ≡ true
          → contains (if b then row.0 ∷ keys else keys) key ≡ true
      kept true keys h = ground arith
      kept false keys h = h

  -- A sweep takes every finding whose deadline has come out of the table, and one with its tenant
  -- and id has been sent to the final topic.
  pub sweep_timeouts_due :
      (cfg : Config F) (now : ℕ) (s : Service F) (key : Key) (e : Entry F)
      → Keyed s.waiting
      → find key s.waiting ≡ some e
      → leb e.deadline now ≡ true
      → (find key (sweep_timeouts cfg now s).waiting ≡ none)
        × (any (delivers key) (sweep_timeouts cfg now s).effects ≡ true)
  unfolding sweep_timeouts Safe is_served
  sweep_timeouts_due cfg now s key e k p h =
      let gone =
        sweep_keys-find cfg (due_keys now s.waiting) s key
        ∙ rw (due_keys-contains now s.waiting key e p h) refl in
      let served = (sweep_keys-Safe cfg (due_keys now s.waiting) s k).1 key (rw p refl) in
      (gone, rw gone at served)
