-- ===== src/CaseStore/Outbox.antt =====
-- The outbox: what a mutation adds to the dispositions.
use cernityndr.Base.{
  ℕ, String, ◌≡◌, refl, true, Option, none, some, List, [], ◌∷◌, ◌++◌, map, sym, ◌==◌, string_eq,
  eq_iff, contains, contains-append, distinct, distinct-append, Bool-cases, inl, inr, same_refl,
  Result, ok, err, length, lookup, lookup-insert, ap, ◌∙◌,
}
use mathlib.Core.List.{map-append, append_assoc, append-nil}
use cernityndr.Case.{CaseDoc, CaseError}
use cernityndr.Case.Disposition.{DispositionRecord}
use cernityndr.CaseStore.{
  OutboxRow, Store, Digest, disp_id, insert_or_ignore, new_row, enqueue, CaseRow, Mutation, commit,
  mutate, mutate_row,
}

abbrev pub ids : List OutboxRow → List String
ids = map (λ (r : OutboxRow). r.id)

abbrev pub AllIn : Digest → String → ℕ → List DispositionRecord → List OutboxRow → Type 0
AllIn digest k seq [] rows = Unit {0}
AllIn digest k seq (r ∷ rs) rows =
    (contains (ids rows) (disp_id digest k seq r) ≡ true) × AllIn digest k seq rs rows

insert_or_ignore-append :
    (row : OutboxRow) (rows : List OutboxRow)
    → (more : List OutboxRow) × (insert_or_ignore row rows ≡ rows ++ more)
unfolding insert_or_ignore
insert_or_ignore-append row rows = elim (Bool-cases (contains (ids rows) row.id)) [
  | inl old ↦ ([], rw old (sym (append-nil rows)))
  | inr new ↦ (row ∷ [], rw new)
]

insert_or_ignore-distinct :
    (row : OutboxRow) (rows : List OutboxRow)
    → distinct (ids rows) ≡ true
    → distinct (ids (insert_or_ignore row rows)) ≡ true
unfolding insert_or_ignore
insert_or_ignore-distinct row rows h = elim (Bool-cases (contains (ids rows) row.id)) [
  | inl old ↦ rw old h
  | inr new ↦ rw (new, map-append) (distinct-append (ids rows) row.id h new)
]

insert_or_ignore-contains :
    (row : OutboxRow) (rows : List OutboxRow)
    → contains (ids (insert_or_ignore row rows)) row.id ≡ true
unfolding insert_or_ignore
insert_or_ignore-contains row rows = elim (Bool-cases (contains (ids rows) row.id)) [
  | inl old ↦ rw old old
  | inr new ↦ rw (new, map-append, contains-append, new) (unfold contains in rw same_refl)
]

contains-ids :
    (rows more : List OutboxRow) (id : String)
    → contains (ids rows) id ≡ true
    → contains (ids (rows ++ more)) id ≡ true
contains-ids rows more id h = rw (map-append, contains-append, h)

module _ (digest : Digest) (k : String) (seq : ℕ) (tenant : String) where
  -- Enqueueing only appends: the rows that were there stay, in their order and as they are.
  pub enqueue-append :
      (rs : List DispositionRecord) (rows : List OutboxRow)
      → (more : List OutboxRow) × (enqueue digest k seq tenant rs rows ≡ rows ++ more)
  unfolding enqueue
  enqueue-append [] rows = ([], sym (append-nil rows))
  enqueue-append (r ∷ rs) rows =
      let row = new_row digest k seq tenant r in
      let (one, e) = insert_or_ignore-append row rows in
      let (more, f) = enqueue-append rs (insert_or_ignore row rows) in
      (one ++ more, f ∙ ap (λ (x : List OutboxRow). x ++ more) e ∙ append_assoc rows one more)

  pub enqueue-distinct :
      (rs : List DispositionRecord) (rows : List OutboxRow)
      → distinct (ids rows) ≡ true
      → distinct (ids (enqueue digest k seq tenant rs rows)) ≡ true
  unfolding enqueue
  enqueue-distinct [] rows h = h
  enqueue-distinct (r ∷ rs) rows h =
      enqueue-distinct rs (insert_or_ignore (new_row digest k seq tenant r) rows)
        (insert_or_ignore-distinct (new_row digest k seq tenant r) rows h)

  enqueue-AllIn :
      (rs : List DispositionRecord) (rows : List OutboxRow)
      → AllIn digest k seq rs (enqueue digest k seq tenant rs rows)
  unfolding enqueue
  enqueue-AllIn [] rows = tt
  enqueue-AllIn (r ∷ rs) rows =
      let row = new_row digest k seq tenant r in
      let rows' = insert_or_ignore row rows in
      let (more, e) = enqueue-append rs rows' in
      (
        rw e
            (contains-ids rows' more (disp_id digest k seq r) (insert_or_ignore-contains row rows)),
        enqueue-AllIn rs rows',
      )

  enqueue_same :
      (rs : List DispositionRecord) (rows : List OutboxRow)
      → AllIn digest k seq rs rows
      → enqueue digest k seq tenant rs rows ≡ rows
  unfolding enqueue insert_or_ignore
  enqueue_same [] rows h = refl
  enqueue_same (r ∷ rs) rows h = rw h.0 (enqueue_same rs rows h.1)

  -- The same records at the same audit sequence, enqueued again, add nothing.
  pub enqueue_idem :
      (rs : List DispositionRecord) (rows : List OutboxRow)
      → enqueue digest k seq tenant rs (enqueue digest k seq tenant rs rows)
        ≡ enqueue digest k seq tenant rs rows
  enqueue_idem rs rows =
      enqueue_same rs (enqueue digest k seq tenant rs rows) (enqueue-AllIn rs rows)

pub record Grown (s s' : Store) : Type 0 where
  pub more : List OutboxRow
  pub appended : s'.dispositions ≡ s.dispositions ++ more
  pub unique : distinct (ids s'.dispositions) ≡ true

module _ (digest : Digest) (s : Store) where
  commit-Grown :
      (k : String) (row : CaseRow) (r : Result CaseError (CaseDoc × List DispositionRecord))
      → distinct (ids s.dispositions) ≡ true
      → Grown s (commit digest s k row r).1
  unfolding commit
  commit-Grown k row (err e) h = record {
    more = [];
    appended = sym (append-nil s.dispositions);
    unique = h;
  }
  commit-Grown k row (ok (doc, records)) h = elim (Bool-cases (doc.tenant == row.tenant)) [
    | inr bad ↦
        rw bad (record { more = []; appended = sym (append-nil s.dispositions); unique = h })
    | inl same ↦
        let (more, e) =
          enqueue-append digest k (length doc.audit) doc.tenant records s.dispositions in
        rw same (record {
          more = more;
          appended = e;
          unique = enqueue-distinct digest k (length doc.audit) doc.tenant records s.dispositions h;
        })
  ]

  mutate_row-Grown :
      (k : String) (tenants : List String) (fn : Mutation) (o : Option CaseRow)
      → distinct (ids s.dispositions) ≡ true
      → Grown s (mutate_row digest s k tenants fn o).1
  unfolding mutate_row
  mutate_row-Grown k tenants fn none h = record {
    more = [];
    appended = sym (append-nil s.dispositions);
    unique = h;
  }
  mutate_row-Grown k tenants fn (some row) h = elim (Bool-cases (contains tenants row.tenant)) [
    | inl g ↦ rw g (commit-Grown k row (fn row.doc) h)
    | inr n ↦ rw n (record { more = []; appended = sym (append-nil s.dispositions); unique = h })
  ]

-- A mutation, refused or not, only appends to the outbox: the rows that were there stay, in their
-- order and as they are. Where ids were unique they stay so.
pub mutate-Grown :
    (digest : Digest) (s : Store) (k : String) (tenants : List String) (fn : Mutation)
    → distinct (ids s.dispositions) ≡ true
    → Grown s (mutate digest s k tenants fn).1
unfolding mutate
mutate-Grown digest s k tenants fn h = mutate_row-Grown digest s k tenants fn (lookup k s.cases) h

-- A replay feeds nothing twice: after a mutation that gave `new` with some records, one that gives
-- a document with as many audit events and the same records leaves the outbox as it is.
pub mutate_replay :
    (digest : Digest) (s : Store) (k : String) (tenants : List String) (fn fn' : Mutation)
    (row : CaseRow) {new new' : CaseDoc} {records : List DispositionRecord}
    → lookup k s.cases ≡ some row
    → contains tenants row.tenant ≡ true
    → fn row.doc ≡ ok (new, records)
    → new.tenant ≡ row.tenant
    → fn' new ≡ ok (new', records)
    → new'.tenant ≡ row.tenant
    → length new'.audit ≡ length new.audit
    → let s' = (mutate digest s k tenants fn).1 in
      ((mutate digest s' k tenants fn').0 ≡ ok (some new'))
      × ((mutate digest s' k tenants fn').1.dispositions ≡ s'.dispositions)
unfolding mutate mutate_row commit
mutate_replay digest s k tenants fn fn' row {new} {new'} {records} l g e t e' t' n =
    rw (l, g, e, (eq_iff new.tenant row.tenant).1 t)
      (rw (lookup-insert, same_refl k, g, e', (eq_iff new'.tenant row.tenant).1 t')
        (
          refl,
          rw (n, t', t)
              (enqueue_idem digest k (length new.audit) row.tenant records s.dispositions),
        ))
