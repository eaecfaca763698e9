-- ===== src/Assets/Extend.antt =====
-- services/asset-service/resolution.py: what one boundary of `ownership_intervals` adds to the intervals.
use cernityndr.Base.{
  ℕ, String, ◌≡◌, refl, sym, ap, ◌∙◌, inl, inr, Bool, true, false, ◌&&◌, ◌||◌, Option, none, some,
  List, [], ◌∷◌, arith, eq_iff, ltb, leb, ◌==◌, string_eq, any, all, Bool-cases,
}
use cernityndr.Assets.{Lease, Interval, is_before, ends_at, extend}
use cernityndr.Assets.Plot.{holds, is_owner}

unfoldable pub starts_by : Option ℕ → Interval → Bool
starts_by none iv = true
starts_by (some limit) iv = leb iv.valid_from limit

starts_by-later :
    (b : ℕ) (next : Option ℕ) (done : List Interval)
    → is_before b next ≡ true
    → all (starts_by (some b)) done ≡ true
    → all (starts_by next) done ≡ true
unfolding starts_by
starts_by-later b next [] h k = refl
starts_by-later b none (iv ∷ done) h k = starts_by-later b none done h (ground arith)
starts_by-later b (some n) (iv ∷ done) h k = ground (arith, starts_by-later b (some n) done)

-- At one instant: what is drawn before `b`, and what is added from `b` on.
point_none :
    (b t : ℕ) (next : Option ℕ) (old w : Bool)
    → is_before b next ≡ true
    → old ≡ (ltb t b && w)
    → (leb b t ≡ true → is_before t next ≡ true → w ≡ false)
    → old ≡ (is_before t next && w)
point_none b t none old w h p q = ground (arith, q)
point_none b t (some n) old w h p q = ground (arith, q)

point_new :
    (b t : ℕ) (next : Option ℕ) (s old w : Bool)
    → is_before b next ≡ true
    → old ≡ (ltb t b && w)
    → (leb b t ≡ true → is_before t next ≡ true → w ≡ s)
    → ((s && leb b t && is_before t next) || old) ≡ (is_before t next && w)
point_new b t none s old w h p q = ground (arith, q)
point_new b t (some n) s old w h p q = ground (arith, q)

point_joined :
    (f b t : ℕ) (next : Option ℕ) (s old w : Bool)
    → leb f b ≡ true
    → is_before b next ≡ true
    → ((s && leb f t && ltb t b) || old) ≡ (ltb t b && w)
    → (leb b t ≡ true → is_before t next ≡ true → w ≡ s)
    → ((s && leb f t && is_before t next) || old) ≡ (is_before t next && w)
point_joined f b t none s old w k h p q = ground (arith, q)
point_joined f b t (some n) s old w k h p q = ground (arith, q)

ends_at-path : (o : Option ℕ) (b : ℕ) → ends_at o b ≡ true → o ≡ some b
ends_at-path none b h = absurd cc
ends_at-path (some e) b h = ground arith

module _ (owner : ℕ → Option String) where
  -- The intervals are right before `limit`, and none goes on after it.
  unfoldable pub Plotted : List Interval → Option ℕ → Type 0
  Plotted done limit =
      ((mac : String) (t : ℕ)
        → any (holds mac t) done ≡ (is_before t limit && is_owner mac (owner t)))
      × (all (starts_by limit) done ≡ true)

  Plotted-new :
      (ip mac : String) (b : ℕ) (next : Option ℕ) (e : Option Lease) (done : List Interval)
      → is_before b next ≡ true
      → ((t : ℕ) → leb b t ≡ true → is_before t next ≡ true → owner t ≡ some mac)
      → Plotted done (some b)
      → Plotted
          (record { mac = mac; value = ip; valid_from = b; valid_to = next; evidence = e } ∷ done)
          next
  unfolding Plotted starts_by
  Plotted-new ip mac b next e done h same (right, early) = (
    λ m t.
        point_new b t next (mac == m) (any (holds m t) done) (is_owner m (owner t)) h (right m t)
          (λ p q. ap (is_owner m) (same t p q)),
    first next h (starts_by-later b next done h early),
  )
    where
      first :
          (next : Option ℕ)
          → is_before b next ≡ true
          → all (starts_by next) done ≡ true
          → (starts_by next
                (record { mac = mac; value = ip; valid_from = b; valid_to = next; evidence = e })
              && all (starts_by next) done)
            ≡ true
      first none h k = k
      first (some n) h k = ground arith

  Plotted-joined :
      (last : Interval) (b : ℕ) (next : Option ℕ) (done : List Interval)
      → is_before b next ≡ true
      → ((t : ℕ) → leb b t ≡ true → is_before t next ≡ true → owner t ≡ some last.mac)
      → last.valid_to ≡ some b
      → Plotted (last ∷ done) (some b)
      → Plotted (record last { valid_to = next } ∷ done) next
  unfolding Plotted starts_by
  Plotted-joined last b next done h same ended (right, early) = (
    λ m t.
        point_joined last.valid_from b t next (last.mac == m) (any (holds m t) done)
          (is_owner m (owner t)) (ground arith) h
          (ap
              (λ o.
                (last.mac == m && leb last.valid_from t && is_before t o) || any (holds m t) done)
              (sym ended)
            ∙ right m t)
          (λ p q. ap (is_owner m) (same t p q)),
    first next (starts_by-later b next (last ∷ done) h early),
  )
    where
      first :
          (next : Option ℕ)
          → all (starts_by next) (last ∷ done) ≡ true
          → all (starts_by next) (record last { valid_to = next } ∷ done) ≡ true
      first none k = k
      first (some n) k = k

  pub Plotted-extend :
      (ip : String) (win : List Lease) (b : ℕ) (next : Option ℕ) (o : Option String)
      (done : List Interval)
      → is_before b next ≡ true
      → ((t : ℕ) → leb b t ≡ true → is_before t next ≡ true → owner t ≡ o)
      → Plotted done (some b)
      → Plotted (extend ip win b next o done) next
  unfolding extend Plotted
  Plotted-extend ip win b next none done h same (right, early) = (
    λ m t.
        point_none b t next (any (holds m t) done) (is_owner m (owner t)) h (right m t)
          (λ p q. ap (is_owner m) (same t p q)),
    starts_by-later b next done h early,
  )
  Plotted-extend ip win b next (some mac) [] h same k = Plotted-new ip mac b next _ [] h same k
  Plotted-extend ip win b next (some mac) (last ∷ done) h same k =
      elim (Bool-cases (last.mac == mac && ends_at last.valid_to b)) [
        | inr q ↦ rw q (Plotted-new ip mac b next _ (last ∷ done) h same k)
        | inl q ↦ rw q (
            Plotted-joined last b next done h
              (λ t x y. same t x y ∙ ap some (sym ((eq_iff last.mac mac).0 (ground arith))))
              (ends_at-path last.valid_to b (ground arith)) k)
      ]
