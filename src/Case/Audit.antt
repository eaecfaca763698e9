-- ===== src/Case/Audit.antt =====
-- The audit trail of cases.py: `_touch` appends one event for each change, so the trail tells the
-- whole story of a case. `replay` reads a trail back; the program has no such function.
use mathlib.Core.List.{foldl, foldl-append}
use cernityndr.Base.{
  String, ◌≡◌, refl, ◌⊎◌, inl, inr, Option, none, List, [], ◌∷◌, ◌++◌, Result, ok, err,
  if◌then◌else◌, string_eq, contains, without, Testable, OnOk, OnOk-at, Bool-cases,
}
use cernityndr.Case.{
  Entity, entity_eq, Event, created, owner_changed, assignee_added, assignee_removed, note_added,
  status_changed, finding_linked, finding_unlinked, entity_linked, entity_unlinked, AuditEvent,
  CaseDoc, CaseError, valid_case_transition, new_case, transition, Change, to_owner, to_assign,
  to_unassign, to_note, to_status, to_link_finding, to_unlink_finding, to_link_entity,
  to_unlink_entity, change,
}
use cernityndr.Case.Requests.{Request, serve, serve_induction}

-- What a reader sees of a case besides its notes.
pub record View : Type 0 where
  pub owner : Option String
  pub assignees : List String
  pub status : String
  pub findings : List String
  pub entities : List Entity

abbrev pub view : CaseDoc → View
view c = record {
  owner = c.owner;
  assignees = c.assignees;
  status = c.status;
  findings = c.linked_findings;
  entities = c.linked_entities;
}

abbrev pub see : View → AuditEvent → View
see v a = elim a.event [
  | created o t ↦ record v { owner = o; status = "new" }
  | owner_changed f t ↦ record v { owner = t }
  | assignee_added w ↦ record v { assignees = v.assignees ++ w ∷ [] }
  | assignee_removed w ↦ record v { assignees = without w v.assignees }
  | note_added ↦ v
  | status_changed f t ↦ record v { status = t }
  | finding_linked x ↦ record v { findings = v.findings ++ x ∷ [] }
  | finding_unlinked x ↦ record v { findings = without x v.findings }
  | entity_linked x ↦ record v { entities = v.entities ++ x ∷ [] }
  | entity_unlinked x ↦ record v { entities = without x v.entities }
]

abbrev unseen : View
unseen = record { owner = none; assignees = []; status = ""; findings = []; entities = [] }

unfoldable pub replay : List AuditEvent → View
replay = foldl see unseen

-- Either nothing changed, or one event was appended and `updated` is its time.
abbrev pub Recorded : CaseDoc → CaseDoc → Type 0
Recorded c c' =
    (c' ≡ c)
    ⊎ ((e : AuditEvent) × (c'.audit ≡ c.audit ++ e ∷ [])
        × (c'.updated ≡ e.ts)
        × (view c' ≡ see (view c) e))

event-Recorded :
    (c c' : CaseDoc) (ev : Event) (actor ts : String)
    → c'.audit ≡ c.audit ++ record { event = ev; actor = actor; ts = ts } ∷ []
    → c'.updated ≡ ts
    → view c' ≡ see (view c) (record { event = ev; actor = actor; ts = ts })
    → Recorded c c'
event-Recorded c c' ev actor ts a u v = inr (record { event = ev; actor = actor; ts = ts }, a, u, v)

appended :
    {A : Type 0} ⦃e : Testable A⦄ (c : CaseDoc) (xs : List A) (x : A) (c' : CaseDoc)
    → Recorded c c'
    → Recorded c (if contains xs x then c else c')
appended c xs x c' h = elim (Bool-cases (contains xs x)) [
  | inl old ↦ rw old (inl refl)
  | inr new ↦ rw new h
]

removed :
    {A : Type 0} ⦃e : Testable A⦄ (c : CaseDoc) (xs : List A) (x : A) (c' : CaseDoc)
    → Recorded c c'
    → Recorded c (if contains xs x then c' else c)
removed c xs x c' h = elim (Bool-cases (contains xs x)) [
  | inl old ↦ rw old h
  | inr new ↦ rw new (inl refl)
]

change-OnOk :
    (c : CaseDoc) (ch : Change) (actor ts : String) → OnOk (Recorded c) (change c ch actor ts)
unfolding change transition
change-OnOk c (to_owner o) actor ts =
    event-Recorded c _ (owner_changed c.owner o) actor ts refl refl refl
change-OnOk c (to_assign w) actor ts =
    appended c c.assignees w _ (event-Recorded c _ (assignee_added w) actor ts refl refl refl)
change-OnOk c (to_unassign w) actor ts =
    removed c c.assignees w _ (event-Recorded c _ (assignee_removed w) actor ts refl refl refl)
change-OnOk c (to_note text) actor ts = event-Recorded c _ note_added actor ts refl refl refl
change-OnOk c (to_status s) actor ts = elim (Bool-cases (valid_case_transition c.status s)) [
  | inl good ↦ rw good (event-Recorded c _ (status_changed c.status s) actor ts refl refl refl)
  | inr bad ↦ rw bad tt
]
change-OnOk c (to_link_finding f) actor ts =
    appended c c.linked_findings f _ (event-Recorded c _ (finding_linked f) actor ts refl refl refl)
change-OnOk c (to_unlink_finding f) actor ts =
    removed c c.linked_findings f _
      (event-Recorded c _ (finding_unlinked f) actor ts refl refl refl)
change-OnOk c (to_link_entity x) actor ts =
    appended c c.linked_entities x _ (event-Recorded c _ (entity_linked x) actor ts refl refl refl)
change-OnOk c (to_unlink_entity x) actor ts =
    removed c c.linked_entities x _ (event-Recorded c _ (entity_unlinked x) actor ts refl refl refl)

-- Every accepted change either leaves the document exactly as it was, or appends exactly one
-- event, sets `updated` to that event's time and changes owner, assignees, status and links as
-- that event says.
pub change-Recorded :
    (c : CaseDoc) (ch : Change) (actor ts : String) {c' : CaseDoc}
    → change c ch actor ts ≡ ok c'
    → Recorded c c'
change-Recorded c ch actor ts h =
    OnOk-at (Recorded c) (change c ch actor ts) (change-OnOk c ch actor ts) h

abbrev pub IsReplayed : CaseDoc → Type 0
IsReplayed c = replay c.audit ≡ view c

Recorded-IsReplayed : (c c' : CaseDoc) → IsReplayed c → Recorded c c' → IsReplayed c'
unfolding replay
Recorded-IsReplayed c c' h (inl same) = rw same h
Recorded-IsReplayed c c' h (inr (e, a, u, v)) = rw (a, v, foldl-append, h)

step-IsReplayed :
    (c : CaseDoc) (ch : Change) (actor ts : String)
    → IsReplayed c
    → OnOk IsReplayed (change c ch actor ts)
step-IsReplayed c ch actor ts h = kept (change c ch actor ts) (change-OnOk c ch actor ts)
  where
    kept : (r : Result CaseError CaseDoc) → OnOk (Recorded c) r → OnOk IsReplayed r
    kept (ok c') k = Recorded-IsReplayed c c' h k
    kept (err e) k = tt

-- Whatever requests a new case serves, refused ones included, its audit trail alone rebuilds its
-- owner, assignees, status and links: no change is silent.
pub replay-serve :
    (case_id tenant title : String) (owner : Option String) (actor ts : String)
    (reqs : List Request)
    → let c = serve (new_case case_id tenant title owner actor ts) reqs in replay c.audit ≡ view c
replay-serve case_id tenant title owner actor ts reqs =
    serve_induction IsReplayed step-IsReplayed (new_case case_id tenant title owner actor ts) reqs
      (unfold new_case replay in refl)
