-- ===== src/DetectionRegistry.antt =====
-- services/detection-registry: store.py, lifecycle.py and authz.py. The registry is a table from
-- detection ids to entries. The JSON schema and the file system are parameters: `valid` accepts an
-- entry, `resolves` a manifest reference. The entry's content that this code does not read is text.
pub mod History
pub mod Promotion
pub mod Examples
use Prim.Native.String.{count}
use cernityndr.Base.{
  ℕ, String, ◌≡◌, ◌↔◌, Bool, true, false, not, ◌&&◌, ◌||◌, Option, none, some, List, [], ◌∷◌, ◌++◌,
  map, Result, ok, err, ◌>>=◌, arith, eq_iff, if◌then◌else◌, ltb, Testable, ◌==◌, string_eq,
  contains, Table, lookup, insert, remove, take, length, same_list, order_by,
}
use cernityndr.Finding.Quality.{is_blank}

pub record HistoryRecord : Type 0 where
  pub ts : String
  pub actor : String
  pub was : String  -- the key `from`
  pub now : String  -- the key `to`

abbrev same_record : HistoryRecord → HistoryRecord → Bool
same_record a b = a.ts == b.ts && a.actor == b.actor && a.was == b.was && a.now == b.now

pub same_record_iff : (a b : HistoryRecord) → (same_record a b ≡ true) ↔ (a ≡ b)
same_record_iff a b =
    ground (arith, eq_iff a.ts b.ts, eq_iff a.actor b.actor, eq_iff a.was b.was, eq_iff a.now b.now)

instance abbrev pub record_eq : Testable HistoryRecord
record_eq = record {
  same = λ a b. a.ts == b.ts && a.actor == b.actor && a.was == b.was && a.now == b.now;
  same_iff = same_record_iff;
}

pub record Entry : Type 0 where
  pub detection_id : String
  pub manifest_ref : String
  pub status : String
  pub change_history : List HistoryRecord
  pub content : String

pub data RegistryError : Type 0 where
  schema_invalid : RegistryError
  dangling_manifest : String → RegistryError
  duplicate_id : String → RegistryError
  unknown_id : String → RegistryError
  history_rewritten : RegistryError
  unauthorized : RegistryError
  illegal_transition : String → String → RegistryError

abbrev pub Registry : Type 0
Registry = Table Entry

pub record Checks : Type 0 where
  pub valid : Entry → Bool
  pub resolves : String → Bool

-- Returns the registry after the call, with what the call returns or raises.
abbrev pub Answer : Type 0 → Type 0
Answer A = Result RegistryError A × Registry

unfoldable pub validate : Checks → Entry → Result RegistryError (Unit {0})
validate k entry =
    if not (k.valid entry)
    then err schema_invalid
    else if not (k.resolves entry.manifest_ref)
    then err (dangling_manifest entry.manifest_ref)
    else ok tt

abbrev pub is_present : Option Entry → Bool
is_present none = false
is_present (some e) = true

abbrev pub after : Registry → Result RegistryError (Unit {0}) → Answer Entry → Answer Entry
after s (err e) next = (err e, s)
after s (ok u) next = next

-- A new entry, unless one is there.
unfoldable pub place : Registry → Entry → Option Entry → Answer Entry
place s entry (some old) = (err (duplicate_id entry.detection_id), s)
place s entry none = (ok entry, insert entry.detection_id entry s)

unfoldable pub create : Checks → Registry → Entry → Answer Entry
unfolding validate place
create k s entry = after s (validate k entry) (place s entry (lookup entry.detection_id s))

unfoldable pub get : Registry → String → Option Entry
get s detection_id = lookup detection_id s

unfoldable pub list_entries : Registry → List Entry
unfolding order_by
list_entries s = map (λ (r : String × Entry). r.1) (order_by (λ (r : String × Entry). r.0) s)

-- Against the stored entry, if there is one.
unfoldable pub replace : Registry → Entry → Option Entry → Answer Entry
unfolding same_list
replace s entry none = (err (unknown_id entry.detection_id), s)
replace s entry (some prior) =
    if same_list (take (length prior.change_history) entry.change_history) prior.change_history
    then (ok entry, insert entry.detection_id entry s)
    else (err history_rewritten, s)

unfoldable pub update : Checks → Registry → Entry → Answer Entry
unfolding validate replace
update k s entry = after s (validate k entry) (replace s entry (lookup entry.detection_id s))

unfoldable pub delete : Registry → String → Bool × Registry
delete s detection_id = (is_present (lookup detection_id s), remove detection_id s)

-- TRANSITIONS
unfoldable pub transitions : String → List String
transitions status =
    if status == "draft"
    then "shadow" ∷ "retired" ∷ []
    else if status == "shadow"
    then "active" ∷ "retired" ∷ []
    else if status == "active"
    then "retired" ∷ []
    else []

-- `allow_actors(*actors)`
unfoldable pub allow_actors : List String → String → Bool
unfolding contains
allow_actors actors actor = contains actors actor

unfoldable pub is_actor : String → Bool
unfolding is_blank
is_actor actor = not (is_blank actor || ltb 256 (count actor))

abbrev pub moved : Entry → String → String → String → Entry
moved entry to actor ts = record entry {
  status = to;
  change_history =
      entry.change_history ++ record { ts = ts; actor = actor; was = entry.status; now = to } ∷ [];
}

unfoldable pub promote_entry :
    Checks → Registry → String → String → String → String → Option Entry → Answer Entry
unfolding transitions contains update
promote_entry k s detection_id to actor ts none = (err (unknown_id detection_id), s)
promote_entry k s detection_id to actor ts (some entry) =
    if contains (transitions entry.status) to
    then update k s (moved entry to actor ts)
    else (err (illegal_transition entry.status to), s)

unfoldable pub promote :
    Checks → (String → Bool) → Registry → String → String → String → String → Answer Entry
unfolding is_actor promote_entry
promote k authorize s detection_id to actor ts =
    if not (is_actor actor)
    then (err unauthorized, s)
    else if not (authorize actor)
    then (err unauthorized, s)
    else promote_entry k s detection_id to actor ts (lookup detection_id s)
