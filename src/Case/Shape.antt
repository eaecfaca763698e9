-- ===== src/Case/Shape.antt =====
-- What every case keeps: its identity, and lists without repetitions.
use cernityndr.Base.{
  String, ◌≡◌, refl, Option, true, false, List, [], ◌∷◌, ◌++◌, arith, OnOk, Bool-cases, inl, inr,
  contains, distinct, distinct-append, distinct-without, without-append_self, contains-append,
  same_refl, string_eq, ◌+◌, length, length-append,
}
use cernityndr.Case.{
  entity_eq, CaseDoc, valid_case_transition, new_case, transition, assign, unassign, Change,
  to_assign, to_unassign, to_status, to_link_finding, to_unlink_finding, to_link_entity,
  to_unlink_entity, change,
}
use cernityndr.Case.Requests.{Request, serve, serve_induction}

-- What the schema asks by `uniqueItems`, and the keys that no operation may change.
pub record IsShaped (c₀ c : CaseDoc) : Type 0 where
  pub same_id : c.case_id ≡ c₀.case_id
  pub same_tenant : c.tenant ≡ c₀.tenant
  pub same_title : c.title ≡ c₀.title
  pub same_created : c.created_at ≡ c₀.created_at
  pub assignees_distinct : distinct c.assignees ≡ true
  pub findings_distinct : distinct c.linked_findings ≡ true
  pub entities_distinct : distinct c.linked_entities ≡ true

step-IsShaped :
    (c₀ c : CaseDoc) (ch : Change) (actor ts : String)
    → IsShaped c₀ c
    → OnOk (IsShaped c₀) (change c ch actor ts)
unfolding change transition
step-IsShaped c₀ c (to_assign w) actor ts h = elim (Bool-cases (contains c.assignees w)) [
  | inl old ↦ rw old h
  | inr new ↦ rw new (ground (arith, distinct-append c.assignees w h.assignees_distinct new))
]
step-IsShaped c₀ c (to_unassign w) actor ts h = elim (Bool-cases (contains c.assignees w)) [
  | inl old ↦ rw old (ground (arith, distinct-without c.assignees w h.assignees_distinct))
  | inr new ↦ rw new h
]
step-IsShaped c₀ c (to_link_finding w) actor ts h =
    elim (Bool-cases (contains c.linked_findings w)) [
      | inl old ↦ rw old h
      | inr new ↦
          rw new (ground (arith, distinct-append c.linked_findings w h.findings_distinct new))
    ]
step-IsShaped c₀ c (to_unlink_finding w) actor ts h =
    elim (Bool-cases (contains c.linked_findings w)) [
      | inl old ↦ rw old (ground (arith, distinct-without c.linked_findings w h.findings_distinct))
      | inr new ↦ rw new h
    ]
step-IsShaped c₀ c (to_link_entity w) actor ts h =
    elim (Bool-cases (contains c.linked_entities w)) [
      | inl old ↦ rw old h
      | inr new ↦
          rw new (ground (arith, distinct-append c.linked_entities w h.entities_distinct new))
    ]
step-IsShaped c₀ c (to_unlink_entity w) actor ts h =
    elim (Bool-cases (contains c.linked_entities w)) [
      | inl old ↦ rw old (ground (arith, distinct-without c.linked_entities w h.entities_distinct))
      | inr new ↦ rw new h
    ]
step-IsShaped c₀ c (to_status s) actor ts h = elim (Bool-cases (valid_case_transition c.status s)) [
  | inl good ↦ rw good (ground arith)
  | inr bad ↦ rw bad tt
]
step-IsShaped c₀ c _ actor ts h = ground arith

-- Whatever requests a new case serves, its id, tenant, title and creation time stay, and no
-- assignee, finding or entity is listed twice.
pub serve-IsShaped :
    (case_id tenant title : String) (owner : Option String) (actor ts : String)
    (reqs : List Request)
    → let c = new_case case_id tenant title owner actor ts in IsShaped c (serve c reqs)
serve-IsShaped case_id tenant title owner actor ts reqs =
    let c = new_case case_id tenant title owner actor ts in
    serve_induction (IsShaped c) (step-IsShaped c) c reqs (unfold new_case distinct in ground arith)

-- Assigning someone who is not on the case and then unassigning them restores the assignees, in
-- their order, and leaves two more audit events; assigning twice is the same as once.
pub unassign-assign :
    (c : CaseDoc) (who actor ts actor' ts' : String)
    → contains c.assignees who ≡ false
    → ((unassign (assign c who actor ts) who actor' ts').assignees ≡ c.assignees)
      × (length (unassign (assign c who actor ts) who actor' ts').audit ≡ length c.audit + 2)
      × (assign (assign c who actor ts) who actor' ts' ≡ assign c who actor ts)
unfolding unassign assign contains
unassign-assign c who actor ts actor' ts' h =
    let there : contains (c.assignees ++ who ∷ []) who ≡ true =
      rw (contains-append, h, same_refl who) in
    rw (h, there)
      (without-append_self c.assignees who h, rw (length-append, length-append) (omega arith), refl)
