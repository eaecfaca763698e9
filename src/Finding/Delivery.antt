-- ===== src/Finding/Delivery.antt =====
-- Which findings reach the analyst: `suppress_delivery`, and the state after the enrichment of a
-- finding has ended, once or more often (a late result re-opens it as a new revision).
use cernityndr.Base.{
  ℕ, suc, ◌+◌, ◌≤◌, ◌<◌, String, ◌≡◌, ◌↔◌, ◌∙◌, refl, true, false, Option, none, some, arith, leb,
  if◌then◌else◌, Bool-cases, inl, inr, List, [], ◌∷◌, length, Table, ap,
}
use mathlib.Core.Bool.{false≢true}
use cernityndr.Finding.{
  State, suppressed, final, Finding, Settings, EnrichmentResult, is_confirmed, is_text,
  ndpi_deliver_exempt, severity_of, suppress_delivery, is_final, finalized, merge_result,
  apply_enrichment_result, finalize_timeout, with_summary, with_iocs,
}

-- How the enrichment of a finding ends.
pub data Outcome : Type 0 where
  result : EnrichmentResult → Outcome
  timed_out : Outcome

severity_of-low :
    (o : Option ℕ) {m : ℕ}
    → leb (severity_of o) m ≡ true
    → m < 10
    → (n : ℕ) × (o ≡ some n) × (0 < n) × (n ≤ m)
unfolding severity_of
severity_of-low none h k = absurd (ground arith)
severity_of-low (some n) h k = (n, refl, ground arith, ground arith)

module _ {F : Type 0} (cfg : Settings) where
  suppress-parts :
      (f : Finding F)
      → suppress_delivery cfg f ≡ true
      → (is_confirmed f ≡ false)
        × (ndpi_deliver_exempt cfg f ≡ false)
        × (leb (severity_of f.severity) cfg.suppress_max_severity ≡ true)
  unfolding suppress_delivery
  suppress-parts f s = elim (Bool-cases (is_confirmed f)) [
    | inl c ↦ absurd (false≢true (rw c at s))
    | inr c ↦ elim (Bool-cases (ndpi_deliver_exempt cfg f)) [
      | inl e ↦ absurd (false≢true (rw (c, e) at s))
      | inr e ↦ (c, e, rw (c, e) at s)
    ]
  ]

  suppress-of_parts :
      (f : Finding F) (n : ℕ)
      → is_confirmed f ≡ false
      → ndpi_deliver_exempt cfg f ≡ false
      → f.severity ≡ some n
      → 0 < n
      → n ≤ cfg.suppress_max_severity
      → suppress_delivery cfg f ≡ true
  unfolding suppress_delivery
  suppress-of_parts f n c e v pos low = rw (c, e) (ground (arith, v))

  -- Where the ceiling is below 10, a finding is held back exactly when it is of no
  -- confirmed-threat source, is not exempt as structured nDPI, and has a severity that is at least
  -- 1 and at most the ceiling.
  pub suppress_delivery_iff :
      (f : Finding F)
      → cfg.suppress_max_severity < 10
      → (suppress_delivery cfg f ≡ true) ↔ (
          (is_confirmed f ≡ false)
          × (ndpi_deliver_exempt cfg f ≡ false)
          × ((n : ℕ) × (f.severity ≡ some n) × (0 < n) × (n ≤ cfg.suppress_max_severity)))
  suppress_delivery_iff f h = (held, holds)
    where
      held :
          suppress_delivery cfg f ≡ true
          → (is_confirmed f ≡ false)
            × (ndpi_deliver_exempt cfg f ≡ false)
            × ((n : ℕ) × (f.severity ≡ some n) × (0 < n) × (n ≤ cfg.suppress_max_severity))
      held s = let (c, e, l) = suppress-parts f s in (c, e, severity_of-low f.severity l h)

      holds :
          (is_confirmed f ≡ false)
            × (ndpi_deliver_exempt cfg f ≡ false)
            × ((n : ℕ) × (f.severity ≡ some n) × (0 < n) × (n ≤ cfg.suppress_max_severity))
          → suppress_delivery cfg f ≡ true
      holds (c, e, (n, v, pos, low)) = suppress-of_parts f n c e v pos low

  unfoldable pub finish : Finding F → Outcome → Finding F
  unfolding apply_enrichment_result finalize_timeout
  finish f (result r) = apply_enrichment_result cfg f r
  finish f timed_out = finalize_timeout cfg f

  unfoldable pub finish_all : Finding F → List Outcome → Finding F
  unfolding finish
  finish_all f [] = f
  finish_all f (o ∷ os) = finish_all (finish f o) os

  with_iocs-suppress :
      (t : Option (Table (List String))) (f : Finding F)
      → suppress_delivery cfg (with_iocs t f) ≡ suppress_delivery cfg f
  unfolding suppress_delivery
  with_iocs-suppress none f = refl
  with_iocs-suppress (some t) f = refl

  with_summary-suppress :
      (s : Option String) (f : Finding F)
      → suppress_delivery cfg (with_summary s f) ≡ suppress_delivery cfg f
  unfolding suppress_delivery
  with_summary-suppress none f = refl
  with_summary-suppress (some s) f = refl

  merge-suppress :
      (f : Finding F) (r : EnrichmentResult)
      → suppress_delivery cfg (merge_result f r) ≡ suppress_delivery cfg f
  unfolding merge_result
  merge-suppress f r = elim (Bool-cases (is_text r.status "ok")) [
    | inl good ↦ rw good (
        with_iocs-suppress r.iocs _
        ∙ with_summary-suppress r.summary _
        ∙ unfold suppress_delivery in refl)
    | inr bad ↦ rw bad (unfold suppress_delivery in refl)
  ]

  finalized-suppress :
      (f g : Finding F) → suppress_delivery cfg (finalized cfg f g) ≡ suppress_delivery cfg g
  unfolding suppress_delivery finalized
  finalized-suppress f g = refl

  finish-suppress :
      (f : Finding F) (o : Outcome) → suppress_delivery cfg (finish f o) ≡ suppress_delivery cfg f
  unfolding finish
  finish-suppress f (result r) = finalized-suppress f (merge_result f r) ∙ merge-suppress f r
  finish-suppress f timed_out = unfold suppress_delivery in refl

  -- The state that the policy gives a finding: once final, final for good.
  abbrev pub due : Finding F → State
  due f = if is_final f.state then final else if suppress_delivery cfg f then suppressed else final

  finish-state : (f : Finding F) (o : Outcome) → (finish f o).state ≡ some (due f)
  unfolding finish
  finish-state f (result r) = ground arith
  finish-state f timed_out = ground arith

  finish-due : (f : Finding F) (o : Outcome) → due (finish f o) ≡ due f
  finish-due f o = rw (finish-suppress f o, finish-state f o) (ground arith)

  finish-revision :
      (f : Finding F) (o : Outcome) (n : ℕ)
      → f.revision ≡ some (suc n)
      → (finish f o).revision ≡ some (suc (suc n))
  unfolding finish
  finish-revision f (result r) n h = rw h (ground arith)
  finish-revision f timed_out n h = rw h (ground arith)

  -- However the enrichment of a finding ends, by results good or bad or by timeouts, once or more
  -- often and in any order, its state is the one that the delivery policy alone gives: final if it
  -- was delivered already, or else held back exactly when the policy holds it back. Each ending is
  -- one more revision.
  pub finish_all-due :
      (f : Finding F) (o : Outcome) (os : List Outcome) (n : ℕ)
      → f.revision ≡ some (suc n)
      → ((finish_all f (o ∷ os)).state ≡ some (due f))
        × ((finish_all f (o ∷ os)).revision ≡ some (suc n + length (o ∷ os)))
  unfolding finish_all
  finish_all-due f o [] n h = (finish-state f o, finish-revision f o n h ∙ ap some (omega arith))
  finish_all-due f o (p ∷ ps) n h =
      let (s, r) = finish_all-due (finish f o) p ps (suc n) (finish-revision f o n h) in
      (s ∙ ap some (finish-due f o), r ∙ ap some (omega arith))
