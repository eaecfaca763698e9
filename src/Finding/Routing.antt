-- ===== src/Finding/Routing.antt =====
-- What `build_finding` makes of a candidate: its route, its first state, and that the quality of the
-- observation changes neither.
use cernityndr.Base.{
  ◌≡◌, refl, sym, Bool, true, false, Option, none, some, arith, if◌then◌else◌, Bool-cases, inl, inr,
  Result, ok, err, ◌>>=◌, OnOk, OnOk-at, OnOk-bind, map, subst,
}
use cernityndr.Finding.{
  State, suppressed, capture_requested, not_required, pending, required, Policy,
  metadata_sufficient, packets_needed, Route, capture, final_and_capture, Finding, Settings,
  is_confirmed, decide_enrichment, suppress_delivery, route_by, first_revision, route_finding,
}
use cernityndr.Finding.Quality.{
  Floats, Factors, Lookup, FindingError, sure, apply_quality, confidence_of, quality_adjust,
  quality_sensors, verdict_of, record_of, worst, measure, optional_quality, build_finding,
}

module _ {F : Type 0} (cfg : Settings) (cand : Finding F) where
  -- What a route means for the finding that takes it.
  abbrev pub Routed : Finding F → Route → Type 0
  Routed f Route.final =
      (is_confirmed cand ≡ false)
      × (f.enrichment_state ≡ some not_required)
      × (f.state ≡ some (if suppress_delivery cfg cand then suppressed else State.final))
  Routed f final_and_capture =
      (is_confirmed cand ≡ true)
      × (f.enrichment_state ≡ some pending)
      × (f.state ≡ some State.final)
  Routed f capture =
      (is_confirmed cand ≡ false)
      × (f.enrichment_state ≡ some required)
      × (f.state ≡ some capture_requested)

  decide-unconfirmed :
      (sure' : Option F → Bool)
      → decide_enrichment sure' cand ≡ metadata_sufficient
      → is_confirmed cand ≡ false
  unfolding decide_enrichment
  decide-unconfirmed sure' h = elim (Bool-cases (is_confirmed cand)) [
    | inl c ↦ cc (rw c at h)
    | inr c ↦ c
  ]

  route_by-Routed :
      (f : Finding F) (p : Policy)
      → (p ≡ metadata_sufficient → is_confirmed cand ≡ false)
      → Routed (route_by cfg cand f p).0 (route_by cfg cand f p).1
  unfolding route_by
  route_by-Routed f metadata_sufficient h = elim (Bool-cases (suppress_delivery cfg cand)) [
    | inl s ↦ rw s (h refl, refl, refl)
    | inr s ↦ rw s (h refl, refl, refl)
  ]
  route_by-Routed f packets_needed h = elim (Bool-cases (is_confirmed cand)) [
    | inl c ↦ rw c (c, refl, refl)
    | inr c ↦ rw c (c, refl, refl)
  ]

  result-Routed :
      (sure' : Option F → Bool) (r : Result FindingError (Finding F))
      → OnOk
          (λ out. (out.0.revision ≡ some 1) × Routed out.0 out.1)
          (r >>= λ q. ok (route_finding cfg sure' cand q))
  unfolding route_finding
  result-Routed sure' (err e) = tt
  result-Routed sure' (ok q) = (
    revised (decide_enrichment sure' cand),
    route_by-Routed (first_revision cand q) (decide_enrichment sure' cand)
        (decide-unconfirmed sure'),
  )
    where
      revised : (p : Policy) → (route_by cfg cand (first_revision cand q) p).0.revision ≡ some 1
      revised metadata_sufficient = ground arith
      revised packets_needed = ground arith

  -- Every candidate that is built leaves as revision 1 on one of three routes. A confirmed threat
  -- is final at once and is also captured; any other candidate is either not captured, and then
  -- final or held back by the delivery policy, or is captured first and not yet decided.
  pub build_finding-Routed :
      (fl : Floats F) (k : Factors F) (lookup : Option Lookup) {f : Finding F} {route : Route}
      → build_finding fl k cfg lookup cand ≡ ok (f, route)
      → (f.revision ≡ some 1) × Routed f route
  unfolding build_finding
  build_finding-Routed fl k lookup h =
      OnOk-at (λ (out : Finding F × Route). (out.0.revision ≡ some 1) × Routed out.0 out.1)
        (build_finding fl k cfg lookup cand)
        (result-Routed (sure fl) (optional_quality fl k lookup cand)) h

-- `f`, but for what the quality step sets, which is taken from `q`.
abbrev pub with_quality_of : {F : Type 0} → Finding F → Finding F → Finding F
with_quality_of q f = record f {
  sensor_ids = q.sensor_ids;
  confidence = q.confidence;
  observation_quality = q.observation_quality;
}

adjusted :
    {F : Type 0} (fl : Floats F) (k : Factors F) (lookup : Lookup) (f : Finding F)
    → OnOk (λ q. q ≡ with_quality_of q f) (apply_quality fl k lookup f)
unfolding apply_quality
adjusted fl k lookup f = OnOk-bind _ (confidence_of f.confidence) _ (λ original.
    OnOk-bind _
      (quality_adjust fl original
        (verdict_of (record_of (worst (map (measure lookup f.tenant_id) (quality_sensors f))))) k)
      _ (λ a. refl))

module _ {F : Type 0} (cfg : Settings) (cand : Finding F) where
  -- The same ending, but for what the quality step sets.
  abbrev Same : Finding F × Route → Finding F × Route → Type 0
  Same one two = (one.0 ≡ with_quality_of one.0 two.0) × (one.1 ≡ two.1)

  route_by-Same :
      (d : Finding F) (p : Policy)
      → let q = with_quality_of d cand in
        Same
          (route_by cfg cand (first_revision cand q) p)
          (route_by cfg cand (first_revision cand cand) p)
  unfolding route_by first_revision
  route_by-Same d metadata_sufficient = elim (Bool-cases (suppress_delivery cfg cand)) [
    | inl s ↦ rw s (refl, refl)
    | inr s ↦ rw s (refl, refl)
  ]
  route_by-Same d packets_needed = elim (Bool-cases (is_confirmed cand)) [
    | inl c ↦ rw c (refl, refl)
    | inr c ↦ rw c (refl, refl)
  ]

  result-Same :
      (sure' : Option F → Bool) (r : Result FindingError (Finding F))
      → OnOk (λ q. q ≡ with_quality_of q cand) r
      → OnOk
          (λ out. Same out (route_finding cfg sure' cand cand))
          (r >>= λ q. ok (route_finding cfg sure' cand q))
  unfolding route_finding
  result-Same sure' (err e) h = tt
  result-Same sure' (ok q) h =
      subst
        (λ x.
          Same (route_by cfg cand (first_revision cand x) (decide_enrichment sure' cand))
            (route_by cfg cand (first_revision cand cand) (decide_enrichment sure' cand)))
        (sym h) (route_by-Same q (decide_enrichment sure' cand))

  -- The quality of the observation moves no finding: with a quality lookup a candidate takes the
  -- route that it takes without one, and the finding differs at most in its confidence, its sensor
  -- ids and the quality recorded on it.
  pub build_finding-quality :
      (fl : Floats F) (k : Factors F) (lookup : Lookup) {f g : Finding F} {route route' : Route}
      → build_finding fl k cfg (some lookup) cand ≡ ok (f, route)
      → build_finding fl k cfg none cand ≡ ok (g, route')
      → (f ≡ with_quality_of f g) × (route ≡ route')
  unfolding build_finding
  build_finding-quality fl k lookup {f} {g} {route} {route'} h h' =
      let plain = route_finding cfg (sure fl) cand cand in
      let e : plain ≡ (g, route') = cc h' in
      subst (λ two. Same (f, route) two) e
        (OnOk-at (λ (out : Finding F × Route). Same out plain)
          (build_finding fl k cfg (some lookup) cand)
          (result-Same (sure fl) (apply_quality fl k lookup cand) (adjusted fl k lookup cand)) h)
