-- ===== src/CaseStore/Isolation.antt =====
-- Tenant isolation and atomicity of the case table.
use cernityndr.Base.{
  String, ◌≡◌, ◌≢◌, refl, true, false, Option, none, some, List, arith, Result, ok, err, ◌==◌,
  string_eq, eq_iff, contains, lookup, insert, lookup-insert, Bool-cases, inl, inr, same_refl, ap,
  sym, Table,
}
use cernityndr.Case.{CaseDoc, CaseError}
use cernityndr.Case.Disposition.{DispositionRecord}
use cernityndr.CaseStore.{
  CaseRow, Store, Digest, create, get, Mutation, commit, insert_case, mutate, mutate_row,
}

-- The tenant column agrees with the document.
abbrev pub Agrees : Table CaseRow → Type 0
Agrees rows = (k : String) (row : CaseRow) → lookup k rows ≡ some row → row.tenant ≡ row.doc.tenant

abbrev pub IsConsistent : Store → Type 0
IsConsistent s = Agrees s.cases

-- A caller with no grant for a case's tenant neither sees the case nor changes anything: `get` and
-- `mutate` answer as if it were absent.
pub mutate_denied :
    (digest : Digest) (s : Store) (k : String) (tenants : List String) (fn : Mutation)
    (row : CaseRow)
    → lookup k s.cases ≡ some row
    → contains tenants row.tenant ≡ false
    → (get s k tenants ≡ none) × (mutate digest s k tenants fn ≡ (ok none, s))
unfolding get mutate
mutate_denied digest s k tenants fn row h d = (rw (h, d), rw (h, d))

atomic_row :
    (digest : Digest) (s : Store) (k : String) (tenants : List String) (fn : Mutation)
    (o : Option CaseRow) {e : CaseError}
    → (mutate_row digest s k tenants fn o).0 ≡ err e
    → (mutate_row digest s k tenants fn o).1 ≡ s
unfolding mutate_row
atomic_row digest s k tenants fn none h = refl
atomic_row digest s k tenants fn (some row) h = ground (arith, eq_iff row.tenant row.tenant)

-- A mutation that raises, whether in `fn` or by moving the case to another tenant, changes nothing.
pub mutate_atomic :
    (digest : Digest) (s : Store) (k : String) (tenants : List String) (fn : Mutation)
    {e : CaseError}
    → (mutate digest s k tenants fn).0 ≡ err e
    → (mutate digest s k tenants fn).1 ≡ s
unfolding mutate
mutate_atomic digest s k tenants fn h = atomic_row digest s k tenants fn (lookup k s.cases) h

-- What a caller may see of the store after a mutation of `k` that gave `new`.
pub record Granted (s s' : Store) (k : String) (tenants : List String) (new : CaseDoc)
    (row : CaseRow) : Type 0 where
  pub found : lookup k s.cases ≡ some row
  pub granted : contains tenants row.tenant ≡ true
  pub same_tenant : new.tenant ≡ row.tenant
  pub shown : get s' k tenants ≡ some new
  pub others : (j : String) → j ≢ k → lookup j s'.cases ≡ lookup j s.cases

commit-Granted :
    (digest : Digest) (s : Store) (k : String) (tenants : List String) (row : CaseRow)
    (r : Result CaseError (CaseDoc × List DispositionRecord)) {new : CaseDoc}
    → lookup k s.cases ≡ some row
    → contains tenants row.tenant ≡ true
    → (commit digest s k row r).0 ≡ ok (some new)
    → Granted s (commit digest s k row r).1 k tenants new row
unfolding commit get
commit-Granted digest s k tenants row (err e) l g h = cc
commit-Granted digest s k tenants row (ok (doc, records)) {new} l g h =
    elim (Bool-cases (doc.tenant == row.tenant)) [
      | inr bad ↦ cc (rw bad at h)
      | inl same ↦
          let e : doc ≡ new = cc (rw same at h) in
          rw same (record {
            found = l;
            granted = g;
            same_tenant = rw (← e) ((eq_iff doc.tenant row.tenant).0 same);
            shown = rw (lookup-insert, same_refl k, g) (ap some e);
            others =
                λ j ne. rw lookup-insert (ground (arith, eq_iff k j, λ (p : k ≡ j). ne (sym p)));
          })
    ]

mutate_row-Granted :
    (digest : Digest) (s : Store) (k : String) (tenants : List String) (fn : Mutation)
    (o : Option CaseRow) {new : CaseDoc}
    → lookup k s.cases ≡ o
    → (mutate_row digest s k tenants fn o).0 ≡ ok (some new)
    → (row : CaseRow) × Granted s (mutate_row digest s k tenants fn o).1 k tenants new row
unfolding mutate_row
mutate_row-Granted digest s k tenants fn none l h = cc
mutate_row-Granted digest s k tenants fn (some row) l h =
    elim (Bool-cases (contains tenants row.tenant)) [
      | inr no_grant ↦ cc (rw no_grant at h)
      | inl g ↦ (row, rw g (commit-Granted digest s k tenants row (fn row.doc) l g (rw g at h)))
    ]

-- A mutation that gives a document was asked for by a caller granted the case's tenant. The
-- document has that tenant and is what the caller's next `get` shows, and every other case is
-- untouched.
pub mutate-Granted :
    (digest : Digest) (s : Store) (k : String) (tenants : List String) (fn : Mutation)
    {new : CaseDoc}
    → (mutate digest s k tenants fn).0 ≡ ok (some new)
    → (row : CaseRow) × Granted s (mutate digest s k tenants fn).1 k tenants new row
unfolding mutate
mutate-Granted digest s k tenants fn h =
    mutate_row-Granted digest s k tenants fn (lookup k s.cases) refl h

insert-Agrees :
    (rows : Table CaseRow) (k : String) (row : CaseRow)
    → row.tenant ≡ row.doc.tenant
    → Agrees rows
    → Agrees (insert k row rows)
insert-Agrees rows k row t h j r l = elim (Bool-cases (k == j)) [
  | inl same ↦ let p : row ≡ r = cc (rw (lookup-insert, same) at l) in rw (← p) t
  | inr other ↦ h j r (rw (lookup-insert, other) at l)
]

create_row-IsConsistent :
    (s : Store) (doc : CaseDoc) (o : Option CaseRow)
    → IsConsistent s
    → IsConsistent (insert_case s doc o).1
unfolding insert_case
create_row-IsConsistent s doc (some row) h = h
create_row-IsConsistent s doc none h =
    insert-Agrees s.cases doc.case_id (record { tenant = doc.tenant; doc = doc }) refl h

commit-IsConsistent :
    (digest : Digest) (s : Store) (k : String) (row : CaseRow)
    (r : Result CaseError (CaseDoc × List DispositionRecord))
    → IsConsistent s
    → IsConsistent (commit digest s k row r).1
unfolding commit
commit-IsConsistent digest s k row (err e) h = h
commit-IsConsistent digest s k row (ok (doc, records)) h =
    elim (Bool-cases (doc.tenant == row.tenant)) [
      | inr bad ↦ rw bad h
      | inl same ↦ rw same (
          insert-Agrees s.cases k (record row { doc = doc })
            (sym ((eq_iff doc.tenant row.tenant).0 same)) h)
    ]

mutate_row-IsConsistent :
    (digest : Digest) (s : Store) (k : String) (tenants : List String) (fn : Mutation)
    (o : Option CaseRow)
    → IsConsistent s
    → IsConsistent (mutate_row digest s k tenants fn o).1
unfolding mutate_row
mutate_row-IsConsistent digest s k tenants fn none h = h
mutate_row-IsConsistent digest s k tenants fn (some row) h =
    elim (Bool-cases (contains tenants row.tenant)) [
      | inl g ↦ rw g (commit-IsConsistent digest s k row (fn row.doc) h)
      | inr no_grant ↦ rw no_grant h
    ]

-- The tenant column, by which every read is filtered, stays the tenant of the stored document,
-- through every creation and every mutation, refused ones included.
pub create-mutate-IsConsistent :
    (digest : Digest) (s : Store)
    → IsConsistent s
    → ((doc : CaseDoc) → IsConsistent (create s doc).1)
      × ((k : String) (tenants : List String) (fn : Mutation)
          → IsConsistent (mutate digest s k tenants fn).1)
unfolding create mutate
create-mutate-IsConsistent digest s h = (
  λ doc. create_row-IsConsistent s doc (lookup doc.case_id s.cases) h,
  λ k tenants fn. mutate_row-IsConsistent digest s k tenants fn (lookup k s.cases) h,
)
