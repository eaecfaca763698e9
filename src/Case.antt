-- ===== src/Case.antt =====
-- services/finding-service/cases.py and the case part of state_machine.py: the analyst case, its
-- status workflow and its operations. A case dict is a record with a field for each key, an audit
-- event's name and detail are one constructor, and a ValueError is an `err`.
pub mod Requests
pub mod Workflow
pub mod Audit
pub mod Disposition
pub mod Shape
pub mod Examples
use cernityndr.Base.{
  String, Option, some, none, Bool, true, false, ◌≡◌, ◌↔◌, ◌&&◌, List, [], ◌∷◌, ◌++◌, arith, Result,
  ok, err, if◌then◌else◌, Testable, ◌==◌, string_eq, eq_iff, contains, without,
}

pub record Entity : Type 0 where
  pub kind : String  -- the key `type`
  pub value : String

abbrev same_entity : Entity → Entity → Bool
same_entity a b = a.kind == b.kind && a.value == b.value

pub same_entity_iff : (a b : Entity) → (same_entity a b ≡ true) ↔ (a ≡ b)
same_entity_iff a b = ground (arith, eq_iff a.kind b.kind, eq_iff a.value b.value)

instance abbrev pub entity_eq : Testable Entity
entity_eq = record {
  same = λ a b. a.kind == b.kind && a.value == b.value;
  same_iff = same_entity_iff;
}

pub data Event : Type 0 where
  created : Option String → String → Event
  owner_changed : Option String → Option String → Event
  assignee_added : String → Event
  assignee_removed : String → Event
  note_added : Event
  status_changed : String → String → Event
  finding_linked : String → Event
  finding_unlinked : String → Event
  entity_linked : Entity → Event
  entity_unlinked : Entity → Event

pub record AuditEvent : Type 0 where
  pub event : Event
  pub actor : String
  pub ts : String

pub record Note : Type 0 where
  pub author : String
  pub text : String
  pub ts : String

pub record CaseDoc : Type 0 where
  pub case_id : String
  pub tenant : String
  pub title : String
  pub owner : Option String
  pub assignees : List String
  pub status : String
  pub notes : List Note
  pub linked_findings : List String
  pub linked_entities : List Entity
  pub created_at : String  -- the key `created`
  pub updated : String
  pub audit : List AuditEvent

pub data CaseError : Type 0 where
  illegal_transition : String → String → CaseError
  unsupported_verdict : String → CaseError
  finding_not_linked : String → CaseError
  entity_not_linked : Entity → CaseError
  tenant_immutable : CaseError

-- `CASE_TRANSITIONS.get(current, set())`
unfoldable pub case_transitions : String → List String
case_transitions current =
    if current == "new"
    then "investigating" ∷ "closed" ∷ []
    else if current == "investigating"
    then "resolved" ∷ "closed" ∷ []
    else if current == "resolved"
    then "closed" ∷ "investigating" ∷ []
    else if current == "closed"
    then "investigating" ∷ []
    else []

unfoldable pub case_statuses : List String
case_statuses = "new" ∷ "investigating" ∷ "resolved" ∷ "closed" ∷ []

unfoldable pub valid_case_transition : String → String → Bool
unfolding case_transitions contains
valid_case_transition current nxt = contains (case_transitions current) nxt

unfoldable pub touch : CaseDoc → AuditEvent → CaseDoc
touch c ev = record c { audit = c.audit ++ ev ∷ []; updated = ev.ts }

unfoldable pub new_case : String → String → String → Option String → String → String → CaseDoc
new_case case_id tenant title owner actor ts = record {
  case_id = case_id;
  tenant = tenant;
  title = title;
  owner = owner;
  assignees = [];
  status = "new";
  notes = [];
  linked_findings = [];
  linked_entities = [];
  created_at = ts;
  updated = ts;
  audit = record { event = created owner title; actor = actor; ts = ts } ∷ [];
}

unfoldable pub change_owner : CaseDoc → Option String → String → String → CaseDoc
unfolding touch
change_owner c owner actor ts =
    record (touch c (record { event = owner_changed c.owner owner; actor = actor; ts = ts })) {
      owner = owner;
    }

unfoldable pub assign : CaseDoc → String → String → String → CaseDoc
unfolding touch
assign c assignee actor ts =
    if contains c.assignees assignee
    then c
    else record (touch c (record { event = assignee_added assignee; actor = actor; ts = ts })) {
      assignees = c.assignees ++ assignee ∷ [];
    }

unfoldable pub unassign : CaseDoc → String → String → String → CaseDoc
unfolding touch
unassign c assignee actor ts =
    if contains c.assignees assignee
    then record (touch c (record { event = assignee_removed assignee; actor = actor; ts = ts })) {
      assignees = without assignee c.assignees;
    }
    else c

unfoldable pub add_note : CaseDoc → String → String → String → CaseDoc
unfolding touch
add_note c author text ts =
    record (touch c (record { event = note_added; actor = author; ts = ts })) {
      notes = c.notes ++ record { author = author; text = text; ts = ts } ∷ [];
    }

unfoldable pub transition : CaseDoc → String → String → String → Result CaseError CaseDoc
unfolding touch
transition c status actor ts =
    if valid_case_transition c.status status
    then ok
        (record (touch c
          (record { event = status_changed c.status status; actor = actor; ts = ts })) {
            status = status;
          })
    else err (illegal_transition c.status status)

unfoldable pub link_finding : CaseDoc → String → String → String → CaseDoc
unfolding touch
link_finding c finding_id actor ts =
    if contains c.linked_findings finding_id
    then c
    else record (touch c (record { event = finding_linked finding_id; actor = actor; ts = ts })) {
      linked_findings = c.linked_findings ++ finding_id ∷ [];
    }

unfoldable pub unlink_finding : CaseDoc → String → String → String → CaseDoc
unfolding touch
unlink_finding c finding_id actor ts =
    if contains c.linked_findings finding_id
    then record (touch c (record { event = finding_unlinked finding_id; actor = actor; ts = ts })) {
      linked_findings = without finding_id c.linked_findings;
    }
    else c

unfoldable pub link_entity : CaseDoc → Entity → String → String → CaseDoc
unfolding touch
link_entity c entity actor ts =
    if contains c.linked_entities entity
    then c
    else record (touch c (record { event = entity_linked entity; actor = actor; ts = ts })) {
      linked_entities = c.linked_entities ++ entity ∷ [];
    }

unfoldable pub unlink_entity : CaseDoc → Entity → String → String → CaseDoc
unfolding touch
unlink_entity c entity actor ts =
    if contains c.linked_entities entity
    then record (touch c (record { event = entity_unlinked entity; actor = actor; ts = ts })) {
      linked_entities = without entity c.linked_entities;
    }
    else c

-- One request to change a case, with its arguments.
pub data Change : Type 0 where
  to_owner : Option String → Change
  to_assign : String → Change
  to_unassign : String → Change
  to_note : String → Change
  to_status : String → Change
  to_link_finding : String → Change
  to_unlink_finding : String → Change
  to_link_entity : Entity → Change
  to_unlink_entity : Entity → Change

unfoldable pub change : CaseDoc → Change → String → String → Result CaseError CaseDoc
unfolding change_owner assign unassign add_note transition link_finding unlink_finding link_entity
    unlink_entity
change c (to_owner owner) actor ts = ok (change_owner c owner actor ts)
change c (to_assign who) actor ts = ok (assign c who actor ts)
change c (to_unassign who) actor ts = ok (unassign c who actor ts)
change c (to_note text) actor ts = ok (add_note c actor text ts)
change c (to_status status) actor ts = transition c status actor ts
change c (to_link_finding f) actor ts = ok (link_finding c f actor ts)
change c (to_unlink_finding f) actor ts = ok (unlink_finding c f actor ts)
change c (to_link_entity e) actor ts = ok (link_entity c e actor ts)
change c (to_unlink_entity e) actor ts = ok (unlink_entity c e actor ts)
