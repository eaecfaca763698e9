-- ===== src/Case/Examples.antt =====
-- A case worked by two analysts.
use cernityndr.Base.{◌≡◌, refl, true, false, none, some, List, [], ◌∷◌, ok, contains, length}
use cernityndr.Case.{
  Entity, entity_eq, CaseDoc, new_case, to_assign, to_unassign, to_note, to_status, to_link_finding,
  to_link_entity, to_owner, change, transition, assign, unassign, case_statuses,
  valid_case_transition, touch, link_finding,
}
use cernityndr.Case.Requests.{Request, serve}
use cernityndr.Case.Audit.{replay, view, Recorded, change-Recorded, replay-serve}
use cernityndr.Case.Workflow.{walks_to, walks_to-serve}
use cernityndr.Case.Shape.{IsShaped, serve-IsShaped}
use cernityndr.Case.Disposition.{
  Verdict, DispositionRecord, Shaped, AllAttributed, is_resolution, case_dispositions,
  case_dispositions_sound, case_dispositions_complete,
}

abbrev pub host : Entity
host = record { kind = "ip"; value = "10.0.0.5" }

abbrev pub fresh : CaseDoc
fresh = new_case "c-1" "acme" "beacon" none "ana" "t0"

abbrev requests : List Request
requests =
    (to_assign "bo", "ana", "t1")
    ∷ (to_status "resolved", "ana", "t2")
    ∷ (to_status "investigating", "bo", "t3")
    ∷ (to_link_finding "f-1", "bo", "t4")
    ∷ (to_link_finding "f-1", "bo", "t5")
    ∷ (to_link_entity host, "bo", "t6")
    ∷ (to_status "resolved", "bo", "t7")
    ∷ []

-- The refused jump to `resolved` and the second link leave no trace.
trail_length : length (serve fresh requests).audit ≡ 6
unfolding serve change transition valid_case_transition new_case contains
trail_length = refl

replay-serve_example : replay (serve fresh requests).audit ≡ view (serve fresh requests)
replay-serve_example = replay-serve "c-1" "acme" "beacon" none "ana" "t0" requests

walks_to-serve_example : walks_to (serve fresh requests).audit ≡ some (serve fresh requests).status
walks_to-serve_example = walks_to-serve "c-1" "acme" "beacon" none "ana" "t0" requests

serve-IsShaped_example : IsShaped fresh (serve fresh requests)
serve-IsShaped_example = serve-IsShaped "c-1" "acme" "beacon" none "ana" "t0" requests

abbrev pub resolved_doc : CaseDoc
resolved_doc = record {
  case_id = "c-1";
  tenant = "acme";
  title = "beacon";
  owner = some "ana";
  assignees = "bo" ∷ [];
  status = "resolved";
  notes = [];
  linked_findings = "f-1" ∷ "f-2" ∷ [];
  linked_entities = host ∷ [];
  created_at = "t0";
  updated = "t7";
  audit = [];
}

abbrev closed_doc : CaseDoc
closed_doc = record resolved_doc {
  status = "closed";
  updated = "t8";
  audit =
      record {
        event = cernityndr.Case.status_changed "resolved" "closed";
        actor = "ana";
        ts = "t8";
      }
      ∷ [];
}

change-Recorded_example : Recorded resolved_doc closed_doc
unfolding change transition valid_case_transition contains
change-Recorded_example = change-Recorded resolved_doc (to_status "closed") "ana" "t8" refl

abbrev pub verdict : Verdict
verdict = record {
  finding_id = "f-1";
  entity = host;
  verdict = "allowlist";
  reason = "scanner";
  analyst = "ana";
  ts = "t9";
}

abbrev pub disposition : DispositionRecord
disposition = record {
  finding_id = "f-1";
  entity = host;
  verdict = "allowlist";
  reason = "scanner";
  analyst = "ana";
  tenant = "acme";
  ts = "t9";
  scope = "entity";
}

case_dispositions_sound_example :
    (is_resolution "resolved" ≡ true → Shaped resolved_doc (verdict ∷ []) (disposition ∷ []))
    × (is_resolution "resolved" ≡ false → disposition ∷ [] ≡ [])
unfolding case_dispositions contains
case_dispositions_sound_example =
    case_dispositions_sound resolved_doc (verdict ∷ []) {rs = disposition ∷ []} refl

attributed : AllAttributed resolved_doc (verdict ∷ [])
unfolding contains
attributed = (record { supported = refl; finding = refl; entity = refl }, tt)

case_dispositions_complete_example :
    (rs : List DispositionRecord) × (case_dispositions resolved_doc (verdict ∷ []) ≡ ok rs)
    × Shaped resolved_doc (verdict ∷ []) rs
case_dispositions_complete_example =
    case_dispositions_complete resolved_doc (verdict ∷ []) refl attributed
