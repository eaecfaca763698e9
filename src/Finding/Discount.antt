-- ===== src/Finding/Discount.antt =====
-- The bounds of `quality_adjust`, over any floats.
use cernityndr.Base.{
  String, ◌≡◌, ◌⊎◌, refl, Bool, true, false, ◌&&◌, ◌||◌, arith, sym, ◌∙◌, ◌↔◌, if◌then◌else◌,
  Bool-cases, inl, inr, ok, err, OnOk, OnOk-at, ◌==◌, string_eq,
}
use mathlib.Core.Bool.{false≢true}
use cernityndr.Finding.Quality.{
  value_error, Floats, Factors, min, max, clamp, in_unit, discount, quality_adjust,
}

abbrev pub is_discounted : String → Bool
is_discounted q = q == "degraded" || q == "blind"

module _ {F : Type 0} (fl : Floats F) where
  open fl use {zero, one, lt}

  -- At most: not above.
  abbrev pub AtMost : F → F → Type 0
  AtMost a b = lt b a ≡ false

  min-AtMost : (a b : F) → AtMost (min fl a b) a
  unfolding min
  min-AtMost a b = elim (Bool-cases (lt b a)) [
    | inl h ↦ rw h (fl.lt_asymm b a h)
    | inr h ↦ rw h (fl.lt_irrefl a)
  ]

  max-AtMost : (a b : F) → AtMost a (max fl a b)
  unfolding max
  max-AtMost a b = elim (Bool-cases (lt a b)) [
    | inl h ↦ rw h (fl.lt_asymm a b h)
    | inr h ↦ rw h (fl.lt_irrefl a)
  ]

  clamp-AtMost : (c : F) → AtMost zero (clamp fl c) × AtMost (clamp fl c) one
  unfolding clamp
  clamp-AtMost c = elim (Bool-cases (lt zero (min fl one c))) [
    | inl h ↦ rw (max, h) (fl.lt_asymm _ _ h, min-AtMost one c)
    | inr h ↦ rw (max, h) (fl.lt_irrefl zero, fl.lt_asymm _ _ fl.zero-lt-one)
  ]

  min-cases : (a b : F) → (min fl a b ≡ a) ⊎ (min fl a b ≡ b)
  unfolding min
  min-cases a b = elim (Bool-cases (lt b a)) [ inl h ↦ rw h (inr refl) | inr h ↦ rw h (inl refl) ]

  discount-cases :
      (base factor floor : F)
      → (discount fl base factor floor ≡ base) ⊎ AtMost floor (discount fl base factor floor)
  unfolding discount
  discount-cases base factor floor =
      let m = max fl floor (fl.mul base factor) in
      elim (min-cases base m) [
        | inl kept ↦ inl kept
        | inr lowered ↦ inr (rw lowered (max-AtMost floor (fl.mul base factor)))
      ]

  -- What the result owes to the confidence `c` and the quality `q`.
  abbrev pub Discounted : F → String → Factors F → F × F → Type 0
  Discounted c q k (a, factor) =
      (is_discounted q ≡ false → (a ≡ c) × (factor ≡ one))
      × (is_discounted q ≡ true
          → AtMost zero (clamp fl c)
            × AtMost (clamp fl c) one
            × AtMost a (clamp fl c)
            × ((a ≡ clamp fl c) ⊎ AtMost k.floor a))

  adjust_from :
      (c : F) (q : String) (k : Factors F) → OnOk (Discounted c q k) (quality_adjust fl c q k)
  unfolding quality_adjust
  adjust_from c q k = elim (Bool-cases (is_discounted q)) [
    | inr plain ↦ rw plain (λ h. (refl, refl), λ h. absurd (false≢true (sym plain ∙ h)))
    | inl low ↦
        rw low
          (elim (Bool-cases (in_unit fl k.floor && in_unit fl k.degraded && in_unit fl k.blind)) [
            | inr bad ↦ rw bad tt
            | inl good ↦ rw good (
              λ h. absurd (false≢true (sym h ∙ low)),
              λ h. (
                (clamp-AtMost c).0,
                (clamp-AtMost c).1,
                unfold discount in min-AtMost (clamp fl c) _,
                discount-cases (clamp fl c) (if q == "blind" then k.blind else k.degraded) k.floor,
              ),
            )
          ])
  ]

  -- The discount of a confidence. A quality other than degraded and blind leaves it alone, with
  -- multiplier one. For those two it is read as clamped to the unit interval; the result is never
  -- above that, and it is below the floor only where it is left as it was.
  pub quality_adjust_bounds :
      (c : F) (q : String) (k : Factors F) {r : F × F}
      → quality_adjust fl c q k ≡ ok r
      → Discounted c q k r
  quality_adjust_bounds c q k h =
      OnOk-at (Discounted c q k) (quality_adjust fl c q k) (adjust_from c q k) h

  -- Factors outside (0, 1] are refused, but only where they would be used.
  pub quality_adjust_error :
      (c : F) (q : String) (k : Factors F)
      → (quality_adjust fl c q k ≡ err value_error) ↔ (
          (is_discounted q ≡ true)
          × ((in_unit fl k.floor && in_unit fl k.degraded && in_unit fl k.blind) ≡ false))
  unfolding quality_adjust
  quality_adjust_error c q k = (λ h. ground arith, λ h. rw (h.0, h.1))
