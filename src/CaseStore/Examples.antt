-- ===== src/CaseStore/Examples.antt =====
-- A store with two tenants, and receivers that accept or refuse.
use cernityndr.Base.{
  ℕ, zero, suc, String, ◌≡◌, refl, Bool, true, false, some, List, [], ◌∷◌, ok, err, contains,
  distinct, lookup, arith, inl, inr, ◌⊎◌,
}
use cernityndr.Case.{CaseDoc, illegal_transition}
use cernityndr.Case.Disposition.{DispositionRecord}
use cernityndr.Case.Examples.{resolved_doc, disposition}
use cernityndr.CaseStore.{
  CaseRow, OutboxRow, Store, Digest, Mutation, init, create, mutate, pending_rows, attempt,
  drain_dispositions,
}
use cernityndr.CaseStore.Isolation.{
  Agrees, IsConsistent, Granted, mutate-Granted, create-mutate-IsConsistent,
}
use cernityndr.CaseStore.Outbox.{mutate_replay}
use cernityndr.CaseStore.Delivery.{Drained, drain-Drained}
use cernityndr.CaseStore.Settled.{AllGot, drain-Settled}

-- Not SHA-1: the finding's id alone keeps this one record apart.
abbrev plain_digest : Digest
plain_digest case_id seq finding_id entity verdict = finding_id

abbrev row : CaseRow
row = record { tenant = "acme"; doc = resolved_doc }

abbrev waiting_row : OutboxRow
waiting_row = record {
  id = "d-1";
  case_id = "c-1";
  tenant = "acme";
  body = disposition;
  delivered = false;
}

abbrev store : Store
store = record { cases = ("c-1", row) ∷ []; dispositions = waiting_row ∷ []; claimed = [] }

abbrev keep_doc : Mutation
keep_doc doc = ok (doc, disposition ∷ [])

abbrev refuse : Mutation
refuse doc = err (illegal_transition "new" "resolved")

mutate-Granted_example :
    (r : CaseRow) × Granted store
      (mutate plain_digest store "c-1" ("acme" ∷ []) keep_doc).1
      "c-1"
      ("acme" ∷ [])
      resolved_doc
      r
unfolding mutate lookup contains
mutate-Granted_example =
    mutate-Granted plain_digest store "c-1" ("acme" ∷ []) keep_doc {new = resolved_doc} refl

nothing-Agrees : Agrees []
unfolding lookup
nothing-Agrees k r h = absurd (ground (arith, h))

create-mutate-IsConsistent_example :
    ((doc : CaseDoc) → IsConsistent (create init doc).1)
    × ((k : String) (tenants : List String) (fn : Mutation)
        → IsConsistent (mutate plain_digest init k tenants fn).1)
create-mutate-IsConsistent_example = create-mutate-IsConsistent plain_digest init nothing-Agrees

abbrev fed : Store
fed = (mutate plain_digest store "c-1" ("acme" ∷ []) keep_doc).1

mutate_replay_example :
    ((mutate plain_digest fed "c-1" ("acme" ∷ []) keep_doc).0 ≡ ok (some resolved_doc))
    × ((mutate plain_digest fed "c-1" ("acme" ∷ []) keep_doc).1.dispositions ≡ fed.dispositions)
unfolding lookup contains
mutate_replay_example =
    mutate_replay plain_digest store "c-1" ("acme" ∷ []) keep_doc keep_doc row {new = resolved_doc}
      {new' = resolved_doc} {records = disposition ∷ []} refl refl refl refl refl refl refl

-- Counts the calls, and accepts the second of each pair.
abbrev picky : ℕ → DispositionRecord → Bool × ℕ
picky zero body = (false, 1)
picky (suc n) body = (true, 0)

-- Keeps what it is given, the last record first.
abbrev eager : List DispositionRecord → DispositionRecord → Bool × List DispositionRecord
eager log body = (true, body ∷ log)

abbrev deaf : ℕ → DispositionRecord → Bool × ℕ
deaf n body = (false, n)

eager_accepts :
    (q : List DispositionRecord) (b : DispositionRecord) → (attempt eager 3 q b).0 ≡ true
unfolding attempt
eager_accepts q b = refl

-- The record is in the log.
abbrev IsLogged : List DispositionRecord → DispositionRecord → Type 0
IsLogged [] b = ⊥
IsLogged (x ∷ xs) b = (x ≡ b) ⊎ IsLogged xs b

deaf_refuses : (q : ℕ) (b : DispositionRecord) → (attempt deaf 3 q b).0 ≡ false
unfolding attempt
deaf_refuses q b = refl

drain-Drained_example :
    Drained store
      (drain_dispositions picky 3 "acme" ("acme" ∷ []) store 0).0
      0
      (drain_dispositions picky 3 "acme" ("acme" ∷ []) store 0).2
unfolding distinct contains
drain-Drained_example = drain-Drained picky 3 "acme" ("acme" ∷ []) store 0 refl

-- The first try fails, the second is accepted.
picky_count : (drain_dispositions picky 3 "acme" ("acme" ∷ []) store 0).2 ≡ 1
unfolding drain_dispositions contains
picky_count = refl

drain-Settled_example :
    AllGot eager 3 IsLogged
      (λ r b h. inl refl)
      (λ r b c h. inr h)
      (pending_rows store "acme")
      (drain_dispositions eager 3 "acme" ("acme" ∷ []) store []).0
      (drain_dispositions eager 3 "acme" ("acme" ∷ []) store []).1
unfolding contains distinct
drain-Settled_example =
    drain-Settled eager 3 IsLogged (λ r b h. inl refl) (λ r b c h. inr h) "acme" ("acme" ∷ []) store
      [] refl eager_accepts refl refl
