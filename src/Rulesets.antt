-- ===== src/Rulesets.antt =====
-- services/file-yara/registry.py: versioned YARA rulesets with a guarded lifecycle. A call is one
-- transaction: on an error other than a denial the database is as before. The digest and the
-- patterns of the module `re` are parameters; an id and a time that the caller leaves out are
-- arguments as well.
pub mod Audit
pub mod Trail
pub mod Bytes
pub mod Examples
use Prim.Native.String.{count}
use cernityndr.Base.{
  ℕ, String, Bool, true, false, not, ◌&&◌, ◌||◌, Option, none, some, List, [], ◌∷◌, ◌++◌, map,
  Result, ok, err, ltb, leb, if◌then◌else◌, ◌==◌, string_eq, all, contains, keep, Table, lookup,
  insert, order_by,
}
use cernityndr.Finding.Quality.{is_blank}

pub record Ruleset : Type 0 where
  pub id : String
  pub name : String
  pub version : String
  pub sha256 : String
  pub source : String
  pub created_at : String
  pub promoted_by : Option String
  pub promoted_at : Option String
  pub status : String
  pub target_mime_types : List String
  pub max_file_size : ℕ
  pub release_notes : Option String
  pub test_corpus_ref : Option String
  pub tenant : String

-- A row of `ruleset_audit`; rows stand in the order of their ids.
pub record AuditRow : Type 0 where
  pub ruleset_id : String
  pub ts : String
  pub actor : Option String
  pub event : String
  pub from_status : Option String
  pub to_status : String

pub record Registry : Type 0 where
  pub rulesets : Table Ruleset
  pub blobs : Table String  -- `ruleset_bytes`
  pub log : List AuditRow

pub data RegistryError : Type 0 where
  value_error : RegistryError
  duplicate_id : RegistryError  -- sqlite3.IntegrityError
  key_error : RegistryError
  illegal_transition : RegistryError
  unauthorized : RegistryError
  integrity_error : RegistryError

-- hashlib.sha256, and full matches of `_DATETIME_RE` with the calendar check, `_SAFE_ID_RE` with the
-- test for two dots, and `_MIME_RE`.
pub record Patterns : Type 0 where
  pub sha256 : String → String
  pub is_datetime : String → Bool
  pub is_safe_id : String → Bool
  pub is_mime : String → Bool

abbrev pub statuses : List String
statuses = "draft" ∷ "shadow" ∷ "active" ∷ "retired" ∷ []

-- TRANSITIONS
unfoldable pub transitions : String → List String
transitions status =
    if status == "draft"
    then "shadow" ∷ "retired" ∷ []
    else if status == "shadow"
    then "active" ∷ "retired" ∷ []
    else if status == "active"
    then "shadow" ∷ "retired" ∷ []
    else []

abbrev pub served_statuses : List String
served_statuses = "active" ∷ "shadow" ∷ []

-- `_req_str`, for a text
unfoldable pub req_str : String → ℕ → Bool → Bool
unfolding is_blank
req_str val max_len nonblank =
    leb 1 (count val) && leb (count val) max_len && not (nonblank && is_blank val)

abbrev pub opt_holds : (String → Bool) → Option String → Bool
opt_holds p none = true
opt_holds p (some s) = p s

pub record Registration : Type 0 where
  pub name : String
  pub version : String
  pub bytes : String
  pub source : String
  pub target_mime_types : List String
  pub max_file_size : ℕ
  pub release_notes : Option String
  pub test_corpus_ref : Option String
  pub tenant : String
  pub ruleset_id : String
  pub ts : String

unfoldable pub validate_registration : Patterns → Registration → Bool
unfolding req_str
validate_registration k r =
    req_str r.name 256 true
    && req_str r.version 128 true
    && req_str r.source 256 false
    && leb 1 r.max_file_size
    && leb r.max_file_size 4294967296
    && all (λ m. req_str m 256 true && k.is_mime m) r.target_mime_types
    && opt_holds (λ n. leb (count n) 8192) r.release_notes
    && opt_holds (λ c. req_str c 512 true) r.test_corpus_ref

abbrev pub draft : Patterns → Registration → Ruleset
draft k r = record {
  id = r.ruleset_id;
  name = r.name;
  version = r.version;
  sha256 = k.sha256 r.bytes;
  source = r.source;
  created_at = r.ts;
  promoted_by = none;
  promoted_at = none;
  status = "draft";
  target_mime_types = r.target_mime_types;
  max_file_size = r.max_file_size;
  release_notes = r.release_notes;
  test_corpus_ref = r.test_corpus_ref;
  tenant = r.tenant;
}

abbrev pub registered_row : Registration → AuditRow
registered_row r = record {
  ruleset_id = r.ruleset_id;
  ts = r.ts;
  actor = none;
  event = "registered";
  from_status = none;
  to_status = "draft";
}

-- INSERT OR IGNORE INTO ruleset_bytes
unfoldable pub keep_blob : String → String → Option String → Table String → Table String
unfolding insert
keep_blob sha bytes none blobs = insert sha bytes blobs
keep_blob sha bytes (some old) blobs = blobs

unfoldable pub add_draft :
    Patterns → Registration → Option Ruleset → Registry → Result RegistryError Ruleset × Registry
unfolding keep_blob insert lookup
add_draft k r (some old) s = (err duplicate_id, s)
add_draft k r none s = (
  ok (draft k r),
  record s {
    rulesets = insert r.ruleset_id (draft k r) s.rulesets;
    blobs = keep_blob (k.sha256 r.bytes) r.bytes (lookup (k.sha256 r.bytes) s.blobs) s.blobs;
    log = s.log ++ registered_row r ∷ [];
  },
)

unfoldable pub register_draft :
    Patterns → Registration → Registry → Result RegistryError Ruleset × Registry
unfolding validate_registration add_draft lookup req_str
register_draft k r s =
    if not (
      validate_registration k r
      && req_str r.ruleset_id 256 true
      && k.is_safe_id r.ruleset_id
      && k.is_datetime r.ts)
    then (err value_error, s)
    else add_draft k r (lookup r.ruleset_id s.rulesets) s

pub record Promotion : Type 0 where
  pub ruleset_id : String
  pub to_status : String
  pub actor : String
  pub ts : String

abbrev pub Authorize : Type 0
Authorize = String → String → String → Bool

abbrev pub promoted : Promotion → Ruleset → Ruleset
promoted p row = record row {
  status = p.to_status;
  promoted_by = some p.actor;
  promoted_at = some p.ts;
}

abbrev pub audit_row : Promotion → Ruleset → String → AuditRow
audit_row p row event = record {
  ruleset_id = p.ruleset_id;
  ts = p.ts;
  actor = some p.actor;
  event = event;
  from_status = some row.status;
  to_status = p.to_status;
}

-- The read, the checks and the write of `promote`, in its transaction; a denial commits its row.
unfoldable pub promote_row :
    Authorize → Promotion → Option Ruleset → Registry → Result RegistryError Ruleset × Registry
unfolding transitions contains insert
promote_row authorize p none s = (err key_error, s)
promote_row authorize p (some row) s =
    if not (contains statuses p.to_status)
    then (err illegal_transition, s)
    else if not (contains (transitions row.status) p.to_status)
    then (err illegal_transition, s)
    else if not (authorize p.actor row.tenant p.to_status)
    then (err unauthorized, record s { log = s.log ++ audit_row p row "promotion_denied" ∷ [] })
    else (
      ok (promoted p row),
      record s {
        rulesets = insert p.ruleset_id (promoted p row) s.rulesets;
        log =
            s.log
            ++ audit_row p row
                (if contains served_statuses p.to_status then "promoted" else p.to_status)
              ∷ [];
      },
    )

unfoldable pub promote :
    Patterns → Authorize → Promotion → Registry → Result RegistryError Ruleset × Registry
unfolding promote_row req_str lookup
promote k authorize p s =
    if not (req_str p.actor 256 true && k.is_datetime p.ts)
    then (err value_error, s)
    else promote_row authorize p (lookup p.ruleset_id s.rulesets) s

unfoldable pub get : Registry → String → Option Ruleset
unfolding lookup
get s ruleset_id = lookup ruleset_id s.rulesets

unfoldable pub list_rulesets : Registry → Option String → List Ruleset
unfolding order_by
list_rulesets s status =
    map (λ (r : String × Ruleset). r.1)
      (order_by (λ (r : String × Ruleset). r.0)
        (keep (λ (r : String × Ruleset). opt_holds (λ t. r.1.status == t) status) s.rulesets))

abbrev pub has_none : List String → Bool
has_none [] = true
has_none (m ∷ ms) = false

unfoldable pub active_for_scan : Registry → Option String → List Ruleset
unfolding order_by contains
active_for_scan s mime =
    keep
      (λ (r : Ruleset).
        has_none r.target_mime_types || opt_holds (contains r.target_mime_types) mime)
      (map (λ (r : String × Ruleset). r.1)
        (order_by (λ (r : String × Ruleset). r.0)
          (keep (λ (r : String × Ruleset). contains served_statuses r.1.status) s.rulesets)))

-- The blob against the digest that the row recorded.
unfoldable pub verified : Patterns → String → Option String → Result RegistryError String
verified k sha none = err key_error
verified k sha (some bytes) = if k.sha256 bytes == sha then ok bytes else err integrity_error

unfoldable pub bytes_of : Patterns → Registry → Option Ruleset → Result RegistryError String
unfolding verified lookup
bytes_of k s none = err key_error
bytes_of k s (some row) = verified k row.sha256 (lookup row.sha256 s.blobs)

unfoldable pub load_bytes : Patterns → Registry → String → Result RegistryError String
unfolding bytes_of lookup
load_bytes k s ruleset_id = bytes_of k s (lookup ruleset_id s.rulesets)

unfoldable pub audit : Registry → String → List AuditRow
audit s ruleset_id = keep (λ (a : AuditRow). a.ruleset_id == ruleset_id) s.log

-- The tables that `__init__` creates.
abbrev pub empty_registry : Registry
empty_registry = record { rulesets = []; blobs = []; log = [] }

-- A call that may write.
pub data Call : Type 0 where
  registration : Registration → Call
  promotion : Promotion → Call

unfoldable pub execute : Patterns → Authorize → Registry → Call → Registry
unfolding register_draft promote
execute k authorize s (registration r) = (register_draft k r s).1
execute k authorize s (promotion p) = (promote k authorize p s).1

unfoldable pub execute_all : Patterns → Authorize → Registry → List Call → Registry
unfolding execute
execute_all k authorize s [] = s
execute_all k authorize s (call ∷ calls) =
    execute_all k authorize (execute k authorize s call) calls
