-- ===== src/Rulesets/Audit.antt =====
-- services/file-yara/registry.py: the audit trail of a ruleset against its status.
use cernityndr.Base.{
  String, ◌≡◌, refl, sym, ap, ◌∙◌, subst, inl, inr, Bool, true, false, not, ◌&&◌, Option, none,
  some, List, [], ◌∷◌, ◌++◌, eq_iff, if◌then◌else◌, ◌==◌, string_eq, contains, keep, Table, lookup,
  Bool-cases,
}
use cernityndr.Rulesets.{Ruleset, AuditRow, Registry, Authorize, transitions, audit}

unfoldable pub is_from : Option String → Option String → Bool
is_from none none = true
is_from (some a) (some b) = a == b
is_from _ _ = false

-- A move that the table lists, by an actor that the policy allows; a registration needs neither.
unfoldable pub is_move : Authorize → String → Option String → Option String → String → Bool
is_move authorize tenant none actor to = to == "draft"
is_move authorize tenant (some current) none to = false
is_move authorize tenant (some current) (some actor) to =
    contains (transitions current) to && authorize actor tenant to

-- The status after a row of the trail, from the status before; `none` if the row does not fit.
unfoldable pub follow : Authorize → String → Option String → AuditRow → Option (Option String)
unfolding is_from is_move
follow authorize tenant st a =
    if not (is_from a.from_status st)
    then none
    else if a.event == "promotion_denied"
    then some st
    else if is_move authorize tenant st a.actor a.to_status
    then some (some a.to_status)
    else none

abbrev pub follow_on :
    Authorize → String → Option (Option String) → AuditRow → Option (Option String)
follow_on authorize tenant none a = none
follow_on authorize tenant (some st) a = follow authorize tenant st a

-- The status that a trail tells, from no ruleset at all.
unfoldable pub replay :
    Authorize → String → Option (Option String) → List AuditRow → Option (Option String)
unfolding follow
replay authorize tenant st [] = st
replay authorize tenant st (a ∷ rows) =
    replay authorize tenant (follow_on authorize tenant st a) rows

abbrev pub status_of : Option Ruleset → Option String
status_of none = none
status_of (some row) = some row.status

replay-append :
    (authorize : Authorize) (tenant : String) (st : Option (Option String)) (rows : List AuditRow)
    (a : AuditRow)
    → replay authorize tenant st (rows ++ a ∷ [])
      ≡ follow_on authorize tenant (replay authorize tenant st rows) a
unfolding replay
replay-append authorize tenant st [] a = refl
replay-append authorize tenant st (x ∷ rows) a =
    replay-append authorize tenant (follow_on authorize tenant st x) rows a

keep-append_last :
    {A : Type 0} (p : A → Bool) (xs : List A) (a : A)
    → keep p (xs ++ a ∷ []) ≡ (if p a then keep p xs ++ a ∷ [] else keep p xs)
keep-append_last p [] a = refl
keep-append_last p (x ∷ xs) a = go (p x) (p a) (keep-append_last p xs a)
  where
    go :
        (b c : Bool)
        → keep p (xs ++ a ∷ []) ≡ (if c then keep p xs ++ a ∷ [] else keep p xs)
        → (if b then x ∷ keep p (xs ++ a ∷ []) else keep p (xs ++ a ∷ [])) ≡ (
            if c
            then (if b then x ∷ keep p xs else keep p xs) ++ a ∷ []
            else (if b then x ∷ keep p xs else keep p xs))
    go true true h = ap (◌∷◌ x) h
    go true false h = ap (◌∷◌ x) h
    go false true h = h
    go false false h = h

module _ (authorize : Authorize) where
  -- The trail of every id tells the status of its ruleset, or that there is none.
  unfoldable pub IsTold : Registry → Type 0
  IsTold s =
      (id tenant : String)
      → ((row : Ruleset) → lookup id s.rulesets ≡ some row → row.tenant ≡ tenant)
      → replay authorize tenant (some none) (audit s id) ≡ some (status_of (lookup id s.rulesets))

  -- One more row, for `key`, and at most the ruleset under `key` changed.
  pub append-IsTold :
      (s : Registry) (rulesets : Table Ruleset) (blobs : Table String) (a : AuditRow) (key : String)
      → IsTold s
      → a.ruleset_id ≡ key
      → ((id : String) → (key == id) ≡ false → lookup id rulesets ≡ lookup id s.rulesets)
      → ((tenant : String)
          → ((row : Ruleset) → lookup key rulesets ≡ some row → row.tenant ≡ tenant)
          → ((row : Ruleset) → lookup key s.rulesets ≡ some row → row.tenant ≡ tenant)
            × (follow authorize tenant (status_of (lookup key s.rulesets)) a
                ≡ some (status_of (lookup key rulesets))))
      → IsTold (record s { rulesets = rulesets; blobs = blobs; log = s.log ++ a ∷ [] })
  unfolding IsTold audit
  append-IsTold s rulesets blobs a key told same_id others here id tenant t =
      let kept = keep-append_last (λ (x : AuditRow). x.ruleset_id == id) s.log a in
      elim (Bool-cases (key == id)) [
        | inl q ↦
            let e = (eq_iff key id).0 q in
            let (before, fits) = here tenant (
              subst (λ k. (row : Ruleset) → lookup k rulesets ≡ some row → row.tenant ≡ tenant)
                (sym e) t) in
            ap (replay authorize tenant (some none)) (kept ∙ rw same_id (rw q refl))
            ∙ replay-append authorize tenant (some none) (audit s id) a
            ∙ ap (λ o. follow_on authorize tenant o a)
                (ap (λ k. replay authorize tenant (some none) (audit s k)) (sym e)
                  ∙ told key tenant before)
            ∙ fits
            ∙ ap (λ k. some (status_of (lookup k rulesets))) e
        | inr q ↦
            ap (replay authorize tenant (some none)) (kept ∙ rw same_id (rw q refl))
            ∙ told id tenant (λ row p. t row (others id q ∙ p))
            ∙ ap (λ o. some (status_of o)) (sym (others id q))
      ]
