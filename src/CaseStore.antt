-- ===== src/CaseStore.antt =====
-- services/finding-service/store.py: cases and the outbox of dispositions in SQLite. The state is
-- the two tables and the set of claims; each method runs under the store's lock, so a method is one
-- step. json.loads after json.dumps gives the document back, so rows hold documents. A database
-- fault, on which SQLite rolls the transaction back, is not modelled. SHA-1 of the joined key is
-- the parameter `digest`; what is delivered to is a function `deliver` on a receiver's state, and
-- an exception that it raises is a refusal.
pub mod Isolation
pub mod Outbox
pub mod Delivery
pub mod Pending
pub mod Settled
pub mod Examples
use cernityndr.Base.{
  ℕ, zero, suc, ◌+◌, String, Bool, true, false, not, ◌&&◌, Option, none, some, List, [], ◌∷◌, ◌++◌,
  map, Result, ok, err, if◌then◌else◌, ◌==◌, string_eq, contains, without, length, keep, any, Table,
  lookup, insert, order_by, insert_by, text_le,
}
use cernityndr.Case.{Entity, CaseDoc, CaseError, tenant_immutable}
use cernityndr.Case.Disposition.{DispositionRecord}

pub record CaseRow : Type 0 where
  pub tenant : String
  pub doc : CaseDoc

pub record OutboxRow : Type 0 where
  pub id : String
  pub case_id : String
  pub tenant : String
  pub body : DispositionRecord  -- the column `record`
  pub delivered : Bool

pub record Store : Type 0 where
  pub cases : Table CaseRow
  pub dispositions : List OutboxRow
  pub claimed : List String

abbrev pub init : Store
init = record { cases = []; dispositions = []; claimed = [] }

-- SHA-1 of case id, audit sequence, finding, entity and verdict, joined by NUL.
abbrev pub Digest : Type 0
Digest = String → ℕ → String → Entity → String → String

unfoldable pub disp_id : Digest → String → ℕ → DispositionRecord → String
disp_id digest case_id seq r = digest case_id seq r.finding_id r.entity r.verdict

-- INSERT INTO cases: an IntegrityError if the primary key is taken.
unfoldable pub insert_case : Store → CaseDoc → Option CaseRow → Bool × Store
insert_case s doc (some row) = (false, s)
insert_case s doc none = (
  true,
  record s { cases = insert doc.case_id (record { tenant = doc.tenant; doc = doc }) s.cases },
)

unfoldable pub create : Store → CaseDoc → Bool × Store
unfolding insert_case
create s doc = insert_case s doc (lookup doc.case_id s.cases)

visible : List String → Option CaseRow → Option CaseDoc
visible tenants none = none
visible tenants (some row) = if contains tenants row.tenant then some row.doc else none

unfoldable pub get : Store → String → List String → Option CaseDoc
unfolding visible
get s case_id tenants = visible tenants (lookup case_id s.cases)

-- INSERT OR IGNORE: the id is the primary key.
unfoldable pub insert_or_ignore : OutboxRow → List OutboxRow → List OutboxRow
insert_or_ignore row rows =
    if contains (map (λ (r : OutboxRow). r.id) rows) row.id then rows else rows ++ row ∷ []

abbrev pub new_row : Digest → String → ℕ → String → DispositionRecord → OutboxRow
new_row digest case_id seq tenant r = record {
  id = disp_id digest case_id seq r;
  case_id = case_id;
  tenant = tenant;
  body = r;
  delivered = false;
}

unfoldable pub enqueue :
    Digest → String → ℕ → String → List DispositionRecord → List OutboxRow → List OutboxRow
unfolding insert_or_ignore
enqueue digest case_id seq tenant [] rows = rows
enqueue digest case_id seq tenant (r ∷ rs) rows =
    enqueue digest case_id seq tenant rs
      (insert_or_ignore (new_row digest case_id seq tenant r) rows)

-- What `fn` may return: the new document, with records for the outbox.
abbrev pub Mutation : Type 0
Mutation = CaseDoc → Result CaseError (CaseDoc × List DispositionRecord)

unfoldable pub commit :
    Digest
    → Store
    → String
    → CaseRow
    → Result CaseError (CaseDoc × List DispositionRecord)
    → Result CaseError (Option CaseDoc) × Store
unfolding enqueue
commit digest s case_id row (err e) = (err e, s)
commit digest s case_id row (ok (new, records)) =
    if new.tenant == row.tenant
    then (
      ok (some new),
      record s {
        cases = insert case_id (record row { doc = new }) s.cases;
        dispositions = enqueue digest case_id (length new.audit) new.tenant records s.dispositions;
      },
    )
    else (err tenant_immutable, s)

-- From the row that the SELECT found.
unfoldable pub mutate_row :
    Digest
    → Store
    → String
    → List String
    → Mutation
    → Option CaseRow
    → Result CaseError (Option CaseDoc) × Store
unfolding commit
mutate_row digest s case_id tenants fn none = (ok none, s)
mutate_row digest s case_id tenants fn (some row) =
    if contains tenants row.tenant then commit digest s case_id row (fn row.doc) else (ok none, s)

unfoldable pub mutate :
    Digest → Store → String → List String → Mutation → Result CaseError (Option CaseDoc) × Store
unfolding mutate_row
mutate digest s case_id tenants fn = mutate_row digest s case_id tenants fn (lookup case_id s.cases)

unfoldable pub list_cases : Store → String → List String → List CaseDoc
unfolding order_by
list_cases s tenant tenants =
    if contains tenants tenant
    then map (λ (r : String × CaseRow). r.1.doc)
        (order_by (λ (r : String × CaseRow). r.0)
          (keep (λ (r : String × CaseRow). r.1.tenant == tenant) s.cases))
    else []

abbrev pub is_pending : String → OutboxRow → Bool
is_pending tenant row = row.tenant == tenant && not row.delivered

-- The rows that both `pending_dispositions` and a drain select.
unfoldable pub pending_rows : Store → String → List OutboxRow
unfolding order_by
pending_rows s tenant = order_by (λ (r : OutboxRow). r.id) (keep (is_pending tenant) s.dispositions)

unfoldable pub pending_dispositions : Store → String → List String → List DispositionRecord
unfolding pending_rows
pending_dispositions s tenant tenants =
    if contains tenants tenant then map (λ (r : OutboxRow). r.body) (pending_rows s tenant) else []

-- `SELECT delivered ... WHERE id=?`
unfoldable pub delivered_of : String → List OutboxRow → Option Bool
delivered_of id [] = none
delivered_of id (r ∷ rows) = if r.id == id then some r.delivered else delivered_of id rows

-- `UPDATE ... SET delivered=1 WHERE id=?`
unfoldable pub mark_delivered : String → List OutboxRow → List OutboxRow
mark_delivered id [] = []
mark_delivered id (r ∷ rows) =
    (if r.id == id then record r { delivered = true } else r) ∷ mark_delivered id rows

abbrev pub is_waiting : Option Bool → Bool
is_waiting none = false
is_waiting (some d) = not d

-- A row that may be claimed: neither claimed by a drain nor delivered since the snapshot.
unfoldable pub claimable : Store → String → Bool
unfolding delivered_of
claimable s id = not (contains s.claimed id) && is_waiting (delivered_of id s.dispositions)

module _ {R : Type 0} (deliver : R → DispositionRecord → Bool × R) where
  -- At most `max_attempts` tries, until one is accepted.
  unfoldable pub attempt : ℕ → R → DispositionRecord → Bool × R
  attempt zero r body = (false, r)
  attempt (suc n) r body =
      let rest = attempt n (deliver r body).1 body in
      if (deliver r body).0 then (true, (deliver r body).1) else rest

  unfoldable pub drain_row : ℕ → OutboxRow → Store → R → ℕ → Store × R × ℕ
  unfolding attempt claimable mark_delivered
  drain_row max_attempts row s r accepted =
      if claimable s row.id
      then (let claim = record s { claimed = s.claimed ++ row.id ∷ [] } in
          let (good, r') = attempt max_attempts r row.body in
          let marked : List OutboxRow =
            if good then mark_delivered row.id claim.dispositions else claim.dispositions in
          (
            record claim { dispositions = marked; claimed = without row.id claim.claimed },
            r',
            if good then accepted + 1 else accepted,
          ))
      else (s, r, accepted)

  unfoldable pub drain_rows : ℕ → List OutboxRow → Store → R → ℕ → Store × R × ℕ
  unfolding drain_row
  drain_rows max_attempts [] s r accepted = (s, r, accepted)
  drain_rows max_attempts (row ∷ rows) s r accepted =
      let (s', r', accepted') = drain_row max_attempts row s r accepted in
      drain_rows max_attempts rows s' r' accepted'

  unfoldable pub drain_dispositions : ℕ → String → List String → Store → R → Store × R × ℕ
  unfolding drain_rows pending_rows
  drain_dispositions max_attempts tenant tenants s r =
      if contains tenants tenant
      then drain_rows max_attempts (pending_rows s tenant) s r 0
      else (s, r, 0)
