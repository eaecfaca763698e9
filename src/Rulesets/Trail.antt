-- ===== src/Rulesets/Trail.antt =====
-- services/file-yara/registry.py: every call keeps the trail and the status together.
use cernityndr.Base.{
  String, ◌≡◌, refl, sym, ap, ◌∙◌, subst, inl, inr, true, false, ◌&&◌, Option, none, some, List, [],
  ◌∷◌, ◌++◌, if◌then◌else◌, ◌==◌, string_eq, same_refl, contains, lookup, insert, lookup-insert,
  Bool-cases, contains-cons,
}
use mathlib.Core.Bool.{false≢true}
use cernityndr.Rulesets.{
  Ruleset, Registry, Patterns, Registration, Promotion, Authorize, statuses, transitions,
  served_statuses, validate_registration, req_str, draft, registered_row, add_draft, register_draft,
  promoted, audit_row, promote_row, promote, audit, Call, registration, promotion, execute,
  execute_all, empty_registry,
}
use cernityndr.Rulesets.Audit.{is_from, is_move, follow, replay, status_of, IsTold, append-IsTold}

none-some_absurd : {A : Type 0} {x : A} → none ≡ some x → ⊥
none-some_absurd h = cc

some-path : {A : Type 0} {x y : A} → some x ≡ some y → x ≡ y
some-path h = cc

-- The event of a move.
abbrev event_of : String → String
event_of to = if contains served_statuses to then "promoted" else to

-- It is not that of a denial.
event_of_move :
    (to : String) → contains statuses to ≡ true → (event_of to == "promotion_denied") ≡ false
unfolding contains
event_of_move to h = elim (contains-cons "draft" ("shadow" ∷ "active" ∷ "retired" ∷ []) to h) [
  | inl e ↦ told e refl
  | inr h1 ↦ elim (contains-cons "shadow" ("active" ∷ "retired" ∷ []) to h1) [
    | inl e ↦ told e refl
    | inr h2 ↦ elim (contains-cons "active" ("retired" ∷ []) to h2) [
      | inl e ↦ told e refl
      | inr h3 ↦ elim (contains-cons "retired" [] to h3) [
        | inl e ↦ told e refl
        | inr h4 ↦ absurd (false≢true h4)
      ]
    ]
  ]
]
  where
    told :
        {status : String}
        → to ≡ status
        → (event_of status == "promotion_denied") ≡ false
        → (event_of to == "promotion_denied") ≡ false
    told e q = subst (λ t. (event_of t == "promotion_denied") ≡ false) (sym e) q

module _ (authorize : Authorize) (k : Patterns) where
  add_draft-IsTold :
      (r : Registration) (o : Option Ruleset) (s : Registry)
      → lookup r.ruleset_id s.rulesets ≡ o
      → IsTold authorize s
      → IsTold authorize (add_draft k r o s).1
  unfolding add_draft follow
  add_draft-IsTold r (some old) s p told = told
  add_draft-IsTold r none s p told =
      append-IsTold authorize s _ _ _ r.ruleset_id told refl
        (λ id q. lookup-insert r.ruleset_id id (draft k r) s.rulesets ∙ rw q refl)
        (λ tenant t. (
          λ row q. absurd (none-some_absurd (sym p ∙ q)),
          ap (λ o. follow authorize tenant (status_of o) (registered_row r)) p
              ∙ ap (λ o. some (status_of o)) (sym here),
        ))
    where
      here : lookup r.ruleset_id (insert r.ruleset_id (draft k r) s.rulesets) ≡ some (draft k r)
      here =
          lookup-insert r.ruleset_id r.ruleset_id (draft k r) s.rulesets
          ∙ rw (same_refl r.ruleset_id) refl

  denied-IsTold :
      (p : Promotion) (row : Ruleset) (s : Registry)
      → lookup p.ruleset_id s.rulesets ≡ some row
      → IsTold authorize s
      → IsTold authorize (record s { log = s.log ++ audit_row p row "promotion_denied" ∷ [] })
  unfolding follow is_from
  denied-IsTold p row s q told =
      append-IsTold authorize s s.rulesets s.blobs (audit_row p row "promotion_denied") p.ruleset_id
        told refl (λ id e. refl) (λ tenant t. (t, rw q (rw (same_refl row.status) refl)))

  moved-IsTold :
      (p : Promotion) (row : Ruleset) (s : Registry)
      → lookup p.ruleset_id s.rulesets ≡ some row
      → contains statuses p.to_status ≡ true
      → contains (transitions row.status) p.to_status ≡ true
      → authorize p.actor row.tenant p.to_status ≡ true
      → IsTold authorize s
      → IsTold authorize (record s {
        rulesets = insert p.ruleset_id (promoted p row) s.rulesets;
        log = s.log ++ audit_row p row (event_of p.to_status) ∷ [];
      })
  unfolding follow is_from is_move
  moved-IsTold p row s q a b c told =
      append-IsTold authorize s (insert p.ruleset_id (promoted p row) s.rulesets) s.blobs
        (audit_row p row (event_of p.to_status)) p.ruleset_id told refl
        (λ id e. lookup-insert p.ruleset_id id (promoted p row) s.rulesets ∙ rw e refl)
        (λ tenant t.
          let owned : row.tenant ≡ tenant = t (promoted p row) here in
          (
            λ old e. subst (λ (r : Ruleset). r.tenant ≡ tenant) (some-path (sym q ∙ e)) owned,
            rw q (
                  rw (same_refl row.status)
                    (rw (event_of_move p.to_status a) (rw b (rw (sym owned) (rw c refl)))))
                ∙ ap (λ o. some (status_of o)) (sym here),
          ))
    where
      here :
          lookup p.ruleset_id (insert p.ruleset_id (promoted p row) s.rulesets)
          ≡ some (promoted p row)
      here =
          lookup-insert p.ruleset_id p.ruleset_id (promoted p row) s.rulesets
          ∙ rw (same_refl p.ruleset_id) refl

  promote_row-IsTold :
      (p : Promotion) (o : Option Ruleset) (s : Registry)
      → lookup p.ruleset_id s.rulesets ≡ o
      → IsTold authorize s
      → IsTold authorize (promote_row authorize p o s).1
  unfolding promote_row
  promote_row-IsTold p none s q told = told
  promote_row-IsTold p (some row) s q told = elim (Bool-cases (contains statuses p.to_status)) [
    | inr a ↦ rw a told
    | inl a ↦ rw a (elim (Bool-cases (contains (transitions row.status) p.to_status)) [
      | inr b ↦ rw b told
      | inl b ↦ rw b (elim (Bool-cases (authorize p.actor row.tenant p.to_status)) [
        | inr c ↦ rw c (denied-IsTold p row s q told)
        | inl c ↦ rw c (moved-IsTold p row s q a b c told)
      ])
    ])
  ]

  register_draft-IsTold :
      (r : Registration) (s : Registry)
      → IsTold authorize s
      → IsTold authorize (register_draft k r s).1
  unfolding register_draft
  register_draft-IsTold r s told =
      elim (Bool-cases (
        validate_registration k r
        && req_str r.ruleset_id 256 true
        && k.is_safe_id r.ruleset_id
        && k.is_datetime r.ts)) [
          | inl v ↦ rw v (add_draft-IsTold r (lookup r.ruleset_id s.rulesets) s refl told)
          | inr v ↦ rw v told
        ]

  promote-IsTold :
      (p : Promotion) (s : Registry)
      → IsTold authorize s
      → IsTold authorize (promote k authorize p s).1
  unfolding promote
  promote-IsTold p s told = elim (Bool-cases (req_str p.actor 256 true && k.is_datetime p.ts)) [
    | inl v ↦ rw v (promote_row-IsTold p (lookup p.ruleset_id s.rulesets) s refl told)
    | inr v ↦ rw v told
  ]

  execute_all-IsTold :
      (s : Registry) (calls : List Call)
      → IsTold authorize s
      → IsTold authorize (execute_all k authorize s calls)
  unfolding execute_all execute
  execute_all-IsTold s [] told = told
  execute_all-IsTold s (registration r ∷ calls) told =
      execute_all-IsTold (register_draft k r s).1 calls (register_draft-IsTold r s told)
  execute_all-IsTold s (promotion p ∷ calls) told =
      execute_all-IsTold (promote k authorize p s).1 calls (promote-IsTold p s told)

  -- After any calls on an empty registry the audit rows of a ruleset alone, read from its
  -- registration on, tell exactly its status: each row starts from the status that the rows
  -- before it led to, a denial leaves it, and any other row is a move that the table of
  -- transitions lists and that the policy allows its actor for the ruleset's tenant. For a
  -- registered ruleset `tenant` is its tenant; where none is registered there are no rows that
  -- tell of one.
  pub audit-execute_all :
      (calls : List Call) (id tenant : String)
      → ((row : Ruleset)
          → lookup id (execute_all k authorize empty_registry calls).rulesets ≡ some row
          → row.tenant ≡ tenant)
      → replay authorize tenant
          (some none)
          (audit (execute_all k authorize empty_registry calls) id)
        ≡ some (status_of (lookup id (execute_all k authorize empty_registry calls).rulesets))
  unfolding IsTold audit replay lookup
  audit-execute_all calls id tenant t =
      execute_all-IsTold empty_registry calls (λ id tenant t. refl) id tenant t
