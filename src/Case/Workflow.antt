-- ===== src/Case/Workflow.antt =====
-- The status workflow of a case: CASE_TRANSITIONS and `transition`.
use mathlib.Core.List.{foldl, foldl-append}
use mathlib.Core.Bool.{false≢true}
use cernityndr.Base.{
  String, ◌≡◌, ◌≢◌, refl, Option, none, some, true, false, ◌&&◌, List, [], ◌∷◌, ◌++◌, arith, ok,
  OnOk, Bool-cases, inl, inr, if◌then◌else◌, ◌==◌, string_eq, eq_iff, contains, contains-cons, not,
}
use cernityndr.Case.{
  entity_eq, created, status_changed, AuditEvent, CaseDoc, case_transitions, case_statuses,
  valid_case_transition, new_case, transition, Change, to_assign, to_unassign, to_status,
  to_link_finding, to_unlink_finding, to_link_entity, to_unlink_entity, change,
}
use cernityndr.Case.Requests.{Request, serve, serve_induction}

-- Walks a trail: `none` once a status event does not start where the case stood, or is not listed.
abbrev pub walk : Option String → AuditEvent → Option String
walk none a = none
walk (some s) a = elim a.event [
  | created o t ↦ some "new"
  | status_changed f t ↦ if f == s && valid_case_transition f t then some t else none
  | _ ↦ some s
]

unfoldable pub walks_to : List AuditEvent → Option String
walks_to = foldl walk (some "new")

abbrev pub IsWalked : CaseDoc → Type 0
IsWalked c = walks_to c.audit ≡ some c.status

quiet :
    (c : CaseDoc) (a : AuditEvent)
    → IsWalked c
    → walk (some c.status) a ≡ some c.status
    → walks_to (c.audit ++ a ∷ []) ≡ some c.status
unfolding walks_to
quiet c a h k = rw (foldl-append, h) k

step-IsWalked :
    (c : CaseDoc) (ch : Change) (actor ts : String)
    → IsWalked c
    → OnOk IsWalked (change c ch actor ts)
unfolding change walks_to transition
step-IsWalked c (to_status s) actor ts h = elim (Bool-cases (valid_case_transition c.status s)) [
  | inl good ↦ rw good (rw (foldl-append, h) (ground (arith, eq_iff c.status c.status, good)))
  | inr bad ↦ rw bad tt
]
step-IsWalked c (to_assign w) actor ts h = elim (Bool-cases (contains c.assignees w)) [
  | inl old ↦ rw old h
  | inr new ↦ rw new (quiet c _ h refl)
]
step-IsWalked c (to_unassign w) actor ts h = elim (Bool-cases (contains c.assignees w)) [
  | inl old ↦ rw old (quiet c _ h refl)
  | inr new ↦ rw new h
]
step-IsWalked c (to_link_finding w) actor ts h = elim (Bool-cases (contains c.linked_findings w)) [
  | inl old ↦ rw old h
  | inr new ↦ rw new (quiet c _ h refl)
]
step-IsWalked c (to_unlink_finding w) actor ts h =
    elim (Bool-cases (contains c.linked_findings w)) [
      | inl old ↦ rw old (quiet c _ h refl)
      | inr new ↦ rw new h
    ]
step-IsWalked c (to_link_entity w) actor ts h = elim (Bool-cases (contains c.linked_entities w)) [
  | inl old ↦ rw old h
  | inr new ↦ rw new (quiet c _ h refl)
]
step-IsWalked c (to_unlink_entity w) actor ts h = elim (Bool-cases (contains c.linked_entities w)) [
  | inl old ↦ rw old (quiet c _ h refl)
  | inr new ↦ rw new h
]
step-IsWalked c _ actor ts h = quiet c _ h refl

-- The status events that a case's trail holds, after any requests, form a chain: each starts where
-- the one before it ended, the first at `new`, each is a listed transition, and the last ends at
-- the case's status.
pub walks_to-serve :
    (case_id tenant title : String) (owner : Option String) (actor ts : String)
    (reqs : List Request)
    → let c = serve (new_case case_id tenant title owner actor ts) reqs in
      walks_to c.audit ≡ some c.status
walks_to-serve case_id tenant title owner actor ts reqs =
    serve_induction IsWalked step-IsWalked (new_case case_id tenant title owner actor ts) reqs
      (unfold new_case walks_to in refl)

abbrev pub Listed : String → String → Type 0
Listed s t =
    (t ≢ s)
    × (t ≢ "new")
    × (t ≡ "resolved" → s ≡ "investigating")
    × (contains case_statuses t ≡ true)

Listed-by :
    (s t : String)
    → (t == s) ≡ false
    → (t == "new") ≡ false
    → (t == "resolved" && not (s == "investigating")) ≡ false
    → contains case_statuses t ≡ true
    → Listed s t
Listed-by s t h n r k =
    ground (arith, eq_iff t s, eq_iff t "new", eq_iff t "resolved", eq_iff s "investigating")

abbrev AllListed : String → List String → Type 0
AllListed s [] = Unit
AllListed s (t ∷ ts) = Listed s t × AllListed s ts

AllListed-at :
    (s t : String) (ts : List String) → AllListed s ts → contains ts t ≡ true → Listed s t
unfolding contains
AllListed-at s t [] h k = absurd (false≢true k)
AllListed-at s t (x ∷ xs) h k = elim (contains-cons x xs t k) [
  | inl e ↦ rw e h.0
  | inr more ↦ AllListed-at s t xs h.1 more
]

-- Each row of the table.
all_listed : (s : String) → AllListed s (case_transitions s)
unfolding case_transitions case_statuses contains
all_listed s = elim (Bool-cases (s == "new")) [
  | inl n ↦
      rw ((eq_iff s "new").0 n)
        (Listed-by _ _ refl refl refl refl, (Listed-by _ _ refl refl refl refl, tt))
  | inr n ↦ elim (Bool-cases (s == "investigating")) [
    | inl i ↦
        rw ((eq_iff s "investigating").0 i)
          (Listed-by _ _ refl refl refl refl, (Listed-by _ _ refl refl refl refl, tt))
    | inr i ↦ elim (Bool-cases (s == "resolved")) [
      | inl r ↦
          rw ((eq_iff s "resolved").0 r)
            (Listed-by _ _ refl refl refl refl, (Listed-by _ _ refl refl refl refl, tt))
      | inr r ↦ elim (Bool-cases (s == "closed")) [
        | inl c ↦ rw ((eq_iff s "closed").0 c) (Listed-by _ _ refl refl refl refl, tt)
        | inr c ↦ rw (n, i, r, c) tt
      ]
    ]
  ]
]

listed : (s t : String) → valid_case_transition s t ≡ true → Listed s t
unfolding valid_case_transition
listed s t h = AllListed-at s t (case_transitions s) (all_listed s) h

-- A transition that is not refused moves to the status asked for, which is one of the four and
-- neither the present one nor `new`; `resolved` is reached from `investigating` only.
pub transition_lem :
    (c : CaseDoc) (s actor ts : String) {c' : CaseDoc}
    → transition c s actor ts ≡ ok c'
    → (c'.status ≡ s) × Listed c.status s
unfolding transition
transition_lem c s actor ts {c'} h = elim (Bool-cases (valid_case_transition c.status s)) [
  | inl good ↦ (cc (rw good at h), listed c.status s good)
  | inr bad ↦ cc (rw bad at h)
]
