-- ===== src/Finding/Lifecycle.antt =====
-- The operations of state_machine.py on one finding.
use cernityndr.Base.{
  Bool, false, ◌&&◌, Option, none, some, List, [], String, Table, leb, if◌then◌else◌,
}
use cernityndr.Finding.Types.{
  State, suppressed, capture_requested, EnrichmentState, not_required, pending, required, timeout,
  Reason, no_reason, low_severity, Policy, metadata_sufficient, packets_needed, Route,
  final_and_capture, capture, Finding, Settings, confirmed_threat_sources, is_among, is_text,
  has_text, category_mitre, structural_categories, severity_of, is_final, or_list, mitre_of,
  next_revision, union, merge_iocs, EnrichmentResult,
}

module _ {F : Type 0} where
  unfoldable pub is_confirmed : Finding F → Bool
  unfolding is_among
  is_confirmed cand = is_among cand.detector_id confirmed_threat_sources

  unfoldable pub ndpi_deliver_exempt : Settings → Finding F → Bool
  unfolding is_text has_text
  ndpi_deliver_exempt cfg cand =
      cfg.ndpi_deliver_all
      && is_text cand.detector_id "ndpi_risk"
      && is_text cand.detector_version "2.0"
      && has_text cand.category

  -- `float(x or 0) >= 0.9` is the argument `sure`, computed by the caller's floats.
  unfoldable pub decide_enrichment : (Option F → Bool) → Finding F → Policy
  unfolding is_confirmed is_among is_text
  decide_enrichment sure cand =
      if is_confirmed cand
      then packets_needed
      else if is_among cand.category structural_categories
      then metadata_sufficient
      else if is_text cand.detector_id "low_slow_exfil"
      then metadata_sufficient
      else if is_text cand.detector_id "ndpi_risk"
      then metadata_sufficient
      else if sure cand.confidence
      then metadata_sufficient
      else packets_needed

  unfoldable pub suppress_delivery : Settings → Finding F → Bool
  unfolding is_confirmed ndpi_deliver_exempt severity_of
  suppress_delivery cfg cand =
      if is_confirmed cand
      then false
      else if ndpi_deliver_exempt cfg cand
      then false
      else leb (severity_of cand.severity) cfg.suppress_max_severity

  unfoldable pub terminal_state : Settings → Finding F → State × Reason
  unfolding suppress_delivery
  terminal_state cfg f =
      if is_final f.state
      then (State.final, f.suppression_reason)
      else if suppress_delivery cfg f
      then (suppressed, low_severity f.severity)
      else (State.final, no_reason)

  -- The two endings of `build_finding`.
  unfoldable pub route_by : Settings → Finding F → Finding F → Policy → Finding F × Route
  unfolding suppress_delivery is_confirmed
  route_by cfg cand f metadata_sufficient = (
    if suppress_delivery cfg cand
        then record f {
          enrichment_state = some not_required;
          state = some suppressed;
          suppression_reason = low_severity f.severity;
        }
        else record f { enrichment_state = some not_required; state = some State.final },
    Route.final,
  )
  route_by cfg cand f packets_needed =
      if is_confirmed cand
      then (
        record f { state = some State.final; enrichment_state = some pending },
        final_and_capture,
      )
      else (record f { enrichment_state = some required; state = some capture_requested }, capture)

  -- What `build_finding` sets before it looks at the policy.
  unfoldable pub first_revision : Finding F → Finding F → Finding F
  unfolding category_mitre
  first_revision cand q = record q {
    revision = some 1;
    mitre = or_list cand.mitre (mitre_of cand.category);
    capture_job_ids = [];
    suppression_reason = no_reason;
  }

  -- The rest of `build_finding`, after the quality step gave `q`.
  unfoldable pub route_finding :
      Settings → (Option F → Bool) → Finding F → Finding F → Finding F × Route
  unfolding decide_enrichment route_by first_revision
  route_finding cfg sure cand q =
      route_by cfg cand (first_revision cand q) (decide_enrichment sure cand)

  abbrev pub with_summary : Option String → Finding F → Finding F
  with_summary none f = f
  with_summary (some s) f = record f { summary = some s }

  abbrev pub with_iocs : Option (Table (List String)) → Finding F → Finding F
  with_iocs none f = f
  with_iocs (some t) f = record f { iocs = merge_iocs f.iocs t }

  -- The state, reason and revision that a terminal step sets, from the finding as it was.
  unfoldable pub finalized : Settings → Finding F → Finding F → Finding F
  unfolding terminal_state next_revision
  finalized cfg finding f =
      let (st, reason) = terminal_state cfg finding in
      record f {
        state = some st;
        suppression_reason = reason;
        revision = some (next_revision finding.revision);
      }

  unfoldable pub merge_result : Finding F → EnrichmentResult → Finding F
  unfolding is_text union merge_iocs
  merge_result f result =
      if is_text result.status "ok"
      then with_iocs result.iocs (
          with_summary result.summary (record f {
            enrichment_state = some EnrichmentState.enriched;
            evidence_refs = union f.evidence_refs result.evidence_refs;
          }))
      else record f { enrichment_state = some EnrichmentState.enrichment_failed }

  unfoldable pub apply_enrichment_result : Settings → Finding F → EnrichmentResult → Finding F
  unfolding finalized merge_result
  apply_enrichment_result cfg finding result = finalized cfg finding (merge_result finding result)

  unfoldable pub finalize_timeout : Settings → Finding F → Finding F
  unfolding finalized
  finalize_timeout cfg finding =
      finalized cfg finding (record finding { enrichment_state = some timeout })
