-- ===== src/CaseStore/Pending.antt =====
-- services/finding-service/store.py: the rows that a drain selects.
use cernityndr.Base.{
  String, ◌≡◌, refl, ap, ◌∙◌, inl, inr, Bool, true, false, ◌||◌, List, [], ◌∷◌, arith, ◌==◌,
  string_eq, eq_iff, contains, distinct, Bool-cases, same_refl, all, keep, order_by, insert_by,
  text_le,
}
use cernityndr.CaseStore.{OutboxRow, Store, delivered_of, is_waiting, is_pending, pending_rows}
use cernityndr.CaseStore.Outbox.{ids}

-- `ORDER BY id` keeps which rows there are.
contains-insert_by :
    (row : OutboxRow) (rows : List OutboxRow) (id : String)
    → contains (ids (insert_by (λ (r : OutboxRow). r.id) row rows)) id
      ≡ (id == row.id || contains (ids rows) id)
unfolding insert_by contains
contains-insert_by row [] id = refl
contains-insert_by row (x ∷ xs) id = elim (Bool-cases (text_le row.id x.id)) [
  | inl q ↦ rw q refl
  | inr q ↦
      rw q (
        rw (contains-insert_by row xs id) (swap (id == x.id) (id == row.id) (contains (ids xs) id)))
]
  where
    swap : (a b c : Bool) → (a || (b || c)) ≡ (b || (a || c))
    swap a b c = ground arith

distinct-insert_by :
    (row : OutboxRow) (rows : List OutboxRow)
    → contains (ids rows) row.id ≡ false
    → distinct (ids rows) ≡ true
    → distinct (ids (insert_by (λ (r : OutboxRow). r.id) row rows)) ≡ true
unfolding insert_by contains distinct
distinct-insert_by row [] h k = refl
distinct-insert_by row (x ∷ xs) h k = elim (Bool-cases (text_le row.id x.id)) [
  | inl q ↦ rw q (ground (arith, h, k))
  | inr q ↦ rw q (
      rw (contains-insert_by row xs x.id)
        (ground (arith, distinct-insert_by row xs, h, k, eq_iff row.id x.id, eq_iff x.id row.id)))
]

contains-order_by :
    (rows : List OutboxRow) (id : String)
    → contains (ids (order_by (λ (r : OutboxRow). r.id) rows)) id ≡ contains (ids rows) id
unfolding order_by contains
contains-order_by [] id = refl
contains-order_by (row ∷ rows) id =
    contains-insert_by row (order_by (λ (r : OutboxRow). r.id) rows) id
    ∙ ap (λ b. id == row.id || b) (contains-order_by rows id)

distinct-order_by :
    (rows : List OutboxRow)
    → distinct (ids rows) ≡ true
    → distinct (ids (order_by (λ (r : OutboxRow). r.id) rows)) ≡ true
unfolding order_by distinct
distinct-order_by [] h = refl
distinct-order_by (row ∷ rows) h =
    distinct-insert_by row (order_by (λ (r : OutboxRow). r.id) rows)
      (contains-order_by rows row.id ∙ ground (arith, h))
      (distinct-order_by rows (ground (arith, h)))

contains-keep :
    (p : OutboxRow → Bool) (rows : List OutboxRow) (id : String)
    → contains (ids rows) id ≡ false
    → contains (ids (keep p rows)) id ≡ false
unfolding contains
contains-keep p [] id h = refl
contains-keep p (row ∷ rows) id h =
    let rest : contains (ids (keep p rows)) id ≡ false =
      contains-keep p rows id (ground (arith, h)) in
    elim (Bool-cases (p row)) [ inl q ↦ rw q (ground (arith, h, rest)) | inr q ↦ rw q rest ]

distinct-keep :
    (p : OutboxRow → Bool) (rows : List OutboxRow)
    → distinct (ids rows) ≡ true
    → distinct (ids (keep p rows)) ≡ true
unfolding distinct
distinct-keep p [] h = refl
distinct-keep p (row ∷ rows) h =
    let rest : distinct (ids (keep p rows)) ≡ true = distinct-keep p rows (ground (arith, h)) in
    let new : contains (ids (keep p rows)) row.id ≡ false =
      contains-keep p rows row.id (ground (arith, h)) in
    elim (Bool-cases (p row)) [ inl q ↦ rw q (ground (arith, new, rest)) | inr q ↦ rw q rest ]

-- The rows await delivery in the table.
abbrev pub all_waiting : List OutboxRow → List OutboxRow → Bool
all_waiting table rows = all (λ (r : OutboxRow). is_waiting (delivered_of r.id table)) rows

all_waiting-cons :
    (row : OutboxRow) (table rows : List OutboxRow)
    → contains (ids rows) row.id ≡ false
    → all_waiting table rows ≡ true
    → all_waiting (row ∷ table) rows ≡ true
unfolding delivered_of contains
all_waiting-cons row table [] h k = refl
all_waiting-cons row table (r ∷ rows) h k =
    ground (arith, h, k, all_waiting-cons row table rows, eq_iff row.id r.id)

all_waiting-keep :
    (tenant : String) (rows : List OutboxRow)
    → distinct (ids rows) ≡ true
    → all_waiting rows (keep (is_pending tenant) rows) ≡ true
unfolding distinct delivered_of
all_waiting-keep tenant [] h = refl
all_waiting-keep tenant (row ∷ rows) h =
    let new : contains (ids (keep (is_pending tenant) rows)) row.id ≡ false =
      contains-keep (is_pending tenant) rows row.id (ground (arith, h)) in
    let rest : all_waiting (row ∷ rows) (keep (is_pending tenant) rows) ≡ true =
      all_waiting-cons row rows (keep (is_pending tenant) rows) new
        (all_waiting-keep tenant rows (ground (arith, h))) in
    elim (Bool-cases (is_pending tenant row)) [
      | inl q ↦
          let first : is_waiting (delivered_of row.id (row ∷ rows)) ≡ true =
            rw (same_refl row.id) (ground (arith, q)) in
          rw q (rw first rest)
      | inr q ↦ rw q rest
    ]

all_waiting-insert_by :
    (table : List OutboxRow) (row : OutboxRow) (rows : List OutboxRow)
    → is_waiting (delivered_of row.id table) ≡ true
    → all_waiting table rows ≡ true
    → all_waiting table (insert_by (λ (r : OutboxRow). r.id) row rows) ≡ true
unfolding insert_by
all_waiting-insert_by table row [] h k = rw h refl
all_waiting-insert_by table row (x ∷ xs) h k =
    let rest : all_waiting table (insert_by (λ (r : OutboxRow). r.id) row xs) ≡ true =
      all_waiting-insert_by table row xs h (ground (arith, k)) in
    elim (Bool-cases (text_le row.id x.id)) [
      | inl q ↦ rw q (rw h k)
      | inr q ↦ rw q (ground (arith, k, rest))
    ]

all_waiting-order_by :
    (table rows : List OutboxRow)
    → all_waiting table rows ≡ true
    → all_waiting table (order_by (λ (r : OutboxRow). r.id) rows) ≡ true
unfolding order_by
all_waiting-order_by table [] h = refl
all_waiting-order_by table (row ∷ rows) h =
    all_waiting-insert_by table row (order_by (λ (r : OutboxRow). r.id) rows) (ground (arith, h))
      (all_waiting-order_by table rows (ground (arith, h)))

-- The rows that a drain selects await delivery.
pub all_waiting-pending_rows :
    (tenant : String) (s : Store)
    → distinct (ids s.dispositions) ≡ true
    → all_waiting s.dispositions (pending_rows s tenant) ≡ true
unfolding pending_rows
all_waiting-pending_rows tenant s u =
    all_waiting-order_by s.dispositions (keep (is_pending tenant) s.dispositions)
      (all_waiting-keep tenant s.dispositions u)

pub distinct-pending_rows :
    (tenant : String) (s : Store)
    → distinct (ids s.dispositions) ≡ true
    → distinct (ids (pending_rows s tenant)) ≡ true
unfolding pending_rows
distinct-pending_rows tenant s u =
    distinct-order_by (keep (is_pending tenant) s.dispositions)
      (distinct-keep (is_pending tenant) s.dispositions u)
