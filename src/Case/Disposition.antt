-- ===== src/Case/Disposition.antt =====
-- `case_dispositions` of cases.py: verdicts on a resolved case, shaped for the feedback loop.
use cernityndr.Base.{
  String, ◌≡◌, ◌≢◌, refl, Bool, true, false, not, ◌||◌, List, [], ◌∷◌, arith, Result, ok, err,
  ◌>>=◌, if◌then◌else◌, ◌==◌, string_eq, eq_iff, contains, OnOk, OnOk-at, Bool-cases, inl, inr,
}
use cernityndr.Case.{
  Entity, entity_eq, CaseDoc, CaseError, unsupported_verdict, finding_not_linked, entity_not_linked,
}

pub record Verdict : Type 0 where
  pub finding_id : String
  pub entity : Entity
  pub verdict : String
  pub reason : String
  pub analyst : String
  pub ts : String

pub record DispositionRecord : Type 0 where
  pub finding_id : String
  pub entity : Entity
  pub verdict : String
  pub reason : String
  pub analyst : String
  pub tenant : String
  pub ts : String
  pub scope : String

abbrev pub disposition_verdicts : List String
disposition_verdicts = "true_positive" ∷ "false_positive" ∷ "benign" ∷ "allowlist" ∷ []

unfoldable pub shape : CaseDoc → Verdict → DispositionRecord
shape c v = record {
  finding_id = v.finding_id;
  entity = v.entity;
  verdict = v.verdict;
  reason = v.reason;
  analyst = v.analyst;
  tenant = c.tenant;
  ts = v.ts;
  scope = if v.verdict == "allowlist" then "entity" else "finding";
}

-- The checks of one verdict, in the order of the loop's body.
unfoldable pub shape_verdict : CaseDoc → Verdict → Result CaseError DispositionRecord
unfolding shape
shape_verdict c v =
    if not (contains disposition_verdicts v.verdict)
    then err (unsupported_verdict v.verdict)
    else if not (contains c.linked_findings v.finding_id)
    then err (finding_not_linked v.finding_id)
    else if not (contains c.linked_entities v.entity)
    then err (entity_not_linked v.entity)
    else ok (shape c v)

-- The loop over the verdicts: the first that is refused ends it, with no record.
unfoldable pub shape_verdicts : CaseDoc → List Verdict → Result CaseError (List DispositionRecord)
unfolding shape_verdict
shape_verdicts c [] = ok []
shape_verdicts c (v ∷ vs) =
    let rest = shape_verdicts c vs in do r ← shape_verdict c v; rs ← rest; ok (r ∷ rs)

unfoldable pub case_dispositions :
    CaseDoc → List Verdict → Result CaseError (List DispositionRecord)
unfolding shape_verdicts
case_dispositions c verdicts =
    if c.status == "resolved" || c.status == "closed" then shape_verdicts c verdicts else ok []

-- What a verdict must meet to be shaped.
pub record IsAttributed (c : CaseDoc) (v : Verdict) : Type 0 where
  pub supported : contains disposition_verdicts v.verdict ≡ true
  pub finding : contains c.linked_findings v.finding_id ≡ true
  pub entity : contains c.linked_entities v.entity ≡ true

-- A record that carries its verdict's content under the case's tenant, and suppresses the entity
-- exactly when the verdict is `allowlist`.
pub record IsRecordOf (c : CaseDoc) (v : Verdict) (r : DispositionRecord) : Type 0 where
  pub same_finding : r.finding_id ≡ v.finding_id
  pub same_entity : r.entity ≡ v.entity
  pub same_verdict : r.verdict ≡ v.verdict
  pub same_reason : r.reason ≡ v.reason
  pub same_analyst : r.analyst ≡ v.analyst
  pub same_ts : r.ts ≡ v.ts
  pub of_tenant : r.tenant ≡ c.tenant
  pub entity_scope : v.verdict ≡ "allowlist" → r.scope ≡ "entity"
  pub finding_scope : v.verdict ≢ "allowlist" → r.scope ≡ "finding"

-- One record for each verdict, in order, each verdict attributed.
abbrev pub Shaped : CaseDoc → List Verdict → List DispositionRecord → Type 0
Shaped c [] [] = Unit
Shaped c [] (r ∷ rs) = ⊥
Shaped c (v ∷ vs) [] = ⊥
Shaped c (v ∷ vs) (r ∷ rs) = IsAttributed c v × IsRecordOf c v r × Shaped c vs rs

abbrev pub AllAttributed : CaseDoc → List Verdict → Type 0
AllAttributed c [] = Unit
AllAttributed c (v ∷ vs) = IsAttributed c v × AllAttributed c vs

shape-IsRecordOf : (c : CaseDoc) (v : Verdict) → IsRecordOf c v (shape c v)
unfolding shape
shape-IsRecordOf c v = ground (arith, eq_iff v.verdict "allowlist")

shape_verdict_lem :
    (c : CaseDoc) (v : Verdict)
    → OnOk (λ r. IsAttributed c v × IsRecordOf c v r) (shape_verdict c v)
unfolding shape_verdict
shape_verdict_lem c v = elim (Bool-cases (contains disposition_verdicts v.verdict)) [
  | inr a ↦ rw a tt
  | inl a ↦ rw a (elim (Bool-cases (contains c.linked_findings v.finding_id)) [
    | inr b ↦ rw b tt
    | inl b ↦ rw b (elim (Bool-cases (contains c.linked_entities v.entity)) [
      | inr d ↦ rw d tt
      | inl d ↦ rw d (record { supported = a; finding = b; entity = d }, shape-IsRecordOf c v)
    ])
  ])
]

bind-Shaped :
    (c : CaseDoc) (v : Verdict) (vs : List Verdict) (m : Result CaseError DispositionRecord)
    (rest : Result CaseError (List DispositionRecord))
    → OnOk (λ r. IsAttributed c v × IsRecordOf c v r) m
    → OnOk (Shaped c vs) rest
    → OnOk (Shaped c (v ∷ vs)) (m >>= λ r. rest >>= λ rs. ok (r ∷ rs))
bind-Shaped c v vs (err e) rest h k = tt
bind-Shaped c v vs (ok r) (err e) h k = tt
bind-Shaped c v vs (ok r) (ok rs) h k = (h.0, h.1, k)

shape_verdicts-Shaped : (c : CaseDoc) (vs : List Verdict) → OnOk (Shaped c vs) (shape_verdicts c vs)
unfolding shape_verdicts
shape_verdicts-Shaped c [] = tt
shape_verdicts-Shaped c (v ∷ vs) =
    bind-Shaped c v vs (shape_verdict c v) (shape_verdicts c vs) (shape_verdict_lem c v)
      (shape_verdicts-Shaped c vs)

shape_verdicts_total :
    (c : CaseDoc) (vs : List Verdict)
    → AllAttributed c vs
    → (rs : List DispositionRecord) × (shape_verdicts c vs ≡ ok rs)
unfolding shape_verdicts shape_verdict
shape_verdicts_total c [] h = ([], refl)
shape_verdicts_total c (v ∷ vs) h =
    let (rs, e) = shape_verdicts_total c vs h.1 in
    (shape c v ∷ rs, rw (h.0.supported, h.0.finding, h.0.entity, e))

abbrev pub is_resolution : String → Bool
is_resolution s = s == "resolved" || s == "closed"

-- On a case that is resolved or closed, records are shaped only if every verdict is supported and
-- names a linked finding and a linked entity, and then there is one for each verdict, in order,
-- with its finding, entity, verdict, reason, analyst and time, the tenant of the case, and the
-- scope `entity` for an allowlisting and `finding` otherwise; on any other case there are none.
pub case_dispositions_sound :
    (c : CaseDoc) (vs : List Verdict) {rs : List DispositionRecord}
    → case_dispositions c vs ≡ ok rs
    → (is_resolution c.status ≡ true → Shaped c vs rs) × (is_resolution c.status ≡ false → rs ≡ [])
unfolding case_dispositions
case_dispositions_sound c vs h = (
  λ r. OnOk-at (Shaped c vs) (shape_verdicts c vs) (shape_verdicts-Shaped c vs) (rw r at h),
  λ r. cc (rw r at h),
)

-- The other way round: on a resolved or closed case, verdicts that are all attributed are all
-- shaped, and none is refused.
pub case_dispositions_complete :
    (c : CaseDoc) (vs : List Verdict)
    → is_resolution c.status ≡ true
    → AllAttributed c vs
    → (rs : List DispositionRecord) × (case_dispositions c vs ≡ ok rs) × Shaped c vs rs
unfolding case_dispositions
case_dispositions_complete c vs r h =
    let (rs, e) = shape_verdicts_total c vs h in
    (rs, rw r e, OnOk-at (Shaped c vs) (shape_verdicts c vs) (shape_verdicts-Shaped c vs) e)
