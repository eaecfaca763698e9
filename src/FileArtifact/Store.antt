-- ===== src/FileArtifact/Store.antt =====
-- services/file-artifact/store.py: `store`, `verify_retention` and `retrieve`. The object store, the
-- fetch of a source, the digest and `str.lower` are parameters; a time is a number of seconds. The
-- audit line is kept as the outcome and the id it names, and writing it does not fail.
use text.Mathlib.Text.{starts_with}
use cernityndr.Base.{
  any, ℕ, String, Bool, true, false, not, ◌&&◌, ◌||◌, Option, none, some, List, [], ◌∷◌, ◌++◌, zero,
  suc, Result, ok, err, ltb, leb, nat_eq, ◌-◌, ◌*◌, if◌then◌else◌, ◌==◌, string_eq, take, length,
  Table, lookup,
}
use cernityndr.FileArtifact.Keys.{
  tenant_segment, accepted_key, in_accepted_namespace, key_tenant_segment, valid_key, after_slash,
  last_segment,
}
use cernityndr.FileArtifact.Archive.{Bytes, Zipfile, PolicyError, validate_archive}

pub record Object : Type 0 where
  pub last_modified : Option ℕ
  pub content_length : ℕ
  pub body : Bytes

-- The bucket as the client sees it: a put or a get may raise.
pub record ObjectStore (B : Type 0) : Type 0 where
  pub head : B → String → Bool
  pub put : B → String → Bytes → Option B
  pub get : B → String → Option Object

pub record Platform (B : Type 0) : Type 0 where
  pub s3 : ObjectStore B
  pub zipfile : Zipfile
  pub sha256 : Bytes → String
  pub sha256_text : String → String
  pub lower : String → String  -- of the stripped text
  pub bucket_name : String
  pub max_file_size : ℕ
  pub max_archive_depth : ℕ
  pub retention_days : ℕ

-- An event; a key that is missing is none.
pub record Event : Type 0 where
  pub object_ref : Option String
  pub state : Option String
  pub sha256 : Option String
  pub mime : Option String
  pub sensor_id : Option String

pub data Outcome : Type 0 where
  skipped : Outcome
  rejected : Outcome
  attempt : Outcome
  idempotent : Outcome
  stored : Outcome
  failed : Outcome
  denied : Outcome
  success : Outcome

pub record Line : Type 0 where
  pub outcome : Outcome
  pub resource : String
  pub actor : Option String

pub record World (B : Type 0) : Type 0 where
  pub bucket : B
  pub log : List Line

pub data StoreError : Type 0 where
  policy : PolicyError → StoreError
  infra : StoreError
  access_denied : StoreError
  expired_object : StoreError
  over_budget : StoreError
  bad_length : StoreError
  digest_mismatch : StoreError

pub record Artifact : Type 0 where
  pub artifact_id : String
  pub object_ref : String
  pub size : ℕ
  pub mime : Option String
  pub tenant_segment : String
  pub sensor_id : Option String

abbrev pub text_or_empty : Option String → String
text_or_empty none = ""
text_or_empty (some s) = s

abbrev pub is_available : Option String → Bool
is_available none = true
is_available (some state) = state == "bytes_available"

unfoldable pub creates_object : Event → Bool
creates_object ev = not (text_or_empty ev.object_ref == "") && is_available ev.state

-- `ev.get("mime") or None`
abbrev pub text_or_none : Option String → Option String
text_or_none none = none
text_or_none (some s) = if s == "" then none else some s

-- A token of the server's configuration; an empty text is no tenant and no actor.
pub record Grant : Type 0 where
  pub actor : String
  pub tenant_id : String
  pub file_read : Bool

-- s[n:]
unfoldable pub drop_chars : ℕ → String → String
drop_chars zero s = s
drop_chars (suc n) String.[] = String.[]
drop_chars (suc n) (String.◌∷◌ c s) = drop_chars n s

unfoldable pub grant_of : Table Grant → Option String → Option Grant
unfolding lookup drop_chars
grant_of tokens none = none
grant_of tokens (some header) =
    if starts_with header "Bearer " then lookup (drop_chars 7 header) tokens else none

abbrev pub kept : {E A : Type 0} → Result E A → Result E (Option A)
kept (ok a) = ok (some a)
kept (err e) = err e

module _ {B : Type 0} (p : Platform B) where
  unfoldable pub say : Outcome → String → Option String → World B → World B
  say outcome resource actor w = record w {
    log = w.log ++ record { outcome = outcome; resource = resource; actor = actor } ∷ [];
  }

  abbrev pub artifact_of : Event → String → Bytes → String → Artifact
  artifact_of ev tseg bytes key = record {
    artifact_id = p.sha256 bytes;
    object_ref = key;
    size = length bytes;
    mime = text_or_none ev.mime;
    tenant_segment = tseg;
    sensor_id = ev.sensor_id;
  }

  -- The digest that the event announces, after the checks of the archive.
  unfoldable pub announced : Bytes → String → Result PolicyError Unit → Result PolicyError Unit
  announced bytes digest (err e) = err e
  announced bytes digest (ok u) =
      if not (digest == "") && not (digest == p.sha256 bytes)
      then err PolicyError.wrong_digest
      else ok tt

  -- The checks between the fetch and the first read of the bucket.
  unfoldable pub vet : Event → Bytes → Result PolicyError Unit
  unfolding validate_archive announced
  vet ev bytes =
      if ltb p.max_file_size (length bytes)
      then err PolicyError.too_large
      else announced bytes (p.lower (text_or_empty ev.sha256))
          (validate_archive p.zipfile p.max_file_size p.max_archive_depth bytes)

  unfoldable pub put_new :
      String → Artifact → Option B → World B → Result StoreError Artifact × World B
  unfolding say
  put_new src a none w = (err infra, say failed src none w)
  put_new src a (some bucket) w =
      (ok a, say stored a.object_ref none (record w { bucket = bucket }))

  unfoldable pub promote :
      String → Artifact → Bytes → World B → Result StoreError Artifact × World B
  unfolding put_new say
  promote src a bytes w =
      let key = after_slash a.object_ref in
      if p.s3.head w.bucket key
      then (ok a, say idempotent a.object_ref none w)
      else put_new src a (p.s3.put w.bucket key bytes) w

  unfoldable pub accept :
      Event
      → String
      → Bytes
      → Result PolicyError Unit
      → World B
      → Result StoreError Artifact × World B
  unfolding promote say
  accept ev tseg bytes (err e) w = (err (policy e), say failed (text_or_empty ev.object_ref) none w)
  accept ev tseg bytes (ok u) w =
      promote (text_or_empty ev.object_ref)
        (artifact_of ev tseg bytes (accepted_key tseg (p.sha256 bytes) p.bucket_name)) bytes w

  unfoldable pub store_fetched :
      Event → String → Option Bytes → World B → Result StoreError Artifact × World B
  unfolding accept vet say
  store_fetched ev tseg none w = (err infra, say failed (text_or_empty ev.object_ref) none w)
  store_fetched ev tseg (some bytes) w = accept ev tseg bytes (vet ev bytes) w

  unfoldable pub store_scoped :
      Event → Option String → Option Bytes → World B → Result StoreError (Option Artifact) × World B
  unfolding store_fetched say
  store_scoped ev none fetched w = (
    err (policy PolicyError.not_tenant_scoped),
    say rejected (text_or_empty ev.object_ref) none w,
  )
  store_scoped ev (some tseg) fetched w =
      let (r, after) =
        store_fetched ev tseg fetched (say attempt (text_or_empty ev.object_ref) none w) in
      (kept r, after)

  -- `fetch` raises where it is none.
  unfoldable pub store :
      (String → Option Bytes) → Event → World B → Result StoreError (Option Artifact) × World B
  unfolding store_scoped creates_object say
  store fetch ev w =
      if not (creates_object ev)
      then (ok none, say skipped (text_or_empty ev.object_ref) none w)
      else store_scoped ev (key_tenant_segment (text_or_empty ev.object_ref) p.bucket_name)
          (fetch (text_or_empty ev.object_ref)) w

  unfoldable pub expired : Option ℕ → ℕ → Bool
  expired none now = true
  expired (some modified) now = ltb (p.retention_days * 86400) (now - modified)

  -- The guards between the read of an object and its bytes.
  unfoldable pub opened : String → ℕ → ℕ → Object → Result StoreError Bytes
  unfolding expired last_segment
  opened key max_size now obj =
      let bytes = take (suc max_size) obj.body in
      if expired obj.last_modified now
      then err expired_object
      else if ltb max_size obj.content_length
      then err over_budget
      else if ltb max_size (length bytes) || not (nat_eq (length bytes) obj.content_length)
      then err bad_length
      else if not (p.sha256 bytes == last_segment key)
      then err digest_mismatch
      else ok bytes

  unfoldable pub read_object : String → ℕ → ℕ → Option Object → Result StoreError Bytes
  unfolding opened
  read_object key max_size now none = err infra
  read_object key max_size now (some obj) = opened key max_size now obj

  unfoldable pub may_read : Grant → String → Bool
  unfolding in_accepted_namespace tenant_segment valid_key
  may_read g ref =
      g.file_read
      && not (g.tenant_id == "")
      && not (g.actor == "")
      && valid_key ref
      && in_accepted_namespace ref (tenant_segment p.sha256_text g.tenant_id) p.bucket_name

  unfoldable pub told :
      String → Option String → Result StoreError Bytes → World B → Result StoreError Bytes × World B
  unfolding say
  told ref actor (ok bytes) w = (ok bytes, say success ref actor w)
  told ref actor (err e) w = (err e, say failed ref actor w)

  unfoldable pub retrieve_as :
      Option Grant → String → ℕ → ℕ → World B → Result StoreError Bytes × World B
  unfolding may_read told read_object say
  retrieve_as none ref max_size now w = (err access_denied, say denied ref none w)
  retrieve_as (some g) ref max_size now w =
      if may_read g ref
      then told ref (some g.actor)
          (read_object (after_slash ref) max_size now (p.s3.get w.bucket (after_slash ref)))
          (say attempt ref (some g.actor) w)
      else (err access_denied, say denied ref (some g.actor) w)

  unfoldable pub retrieve :
      Table Grant → Option String → String → ℕ → ℕ → World B → Result StoreError Bytes × World B
  unfolding retrieve_as grant_of
  retrieve tokens auth_header ref max_size now w =
      retrieve_as (grant_of tokens auth_header) ref max_size now w

-- The filter of a lifecycle rule, with `And` or without.
pub data Filter : Type 0 where
  both : Option String → List String → Filter
  single : Option String → Option String → Filter

pub record Rule : Type 0 where
  pub status : String
  pub days : Option ℕ  -- none where it is not an int
  pub prefix : Option String
  pub filter : Option Filter

abbrev pub or_prefix : Option String → Option String → String
or_prefix none legacy = text_or_empty legacy
or_prefix (some prefix) legacy = prefix

unfoldable pub covers_artifacts : Option Filter → Option String → Bool
covers_artifacts none legacy = text_or_empty legacy == ""
covers_artifacts (some (both prefix [])) legacy = or_prefix prefix legacy == ""
covers_artifacts (some (both prefix (tag ∷ tags))) legacy = false
covers_artifacts (some (single prefix none)) legacy = or_prefix prefix legacy == ""
covers_artifacts (some (single prefix (some tag))) legacy = false

unfoldable pub is_enforced : ℕ → Rule → Bool
unfolding covers_artifacts
is_enforced retention_days r =
    r.status == "Enabled" && within r.days && covers_artifacts r.filter r.prefix
  where
    within : Option ℕ → Bool
    within none = false
    within (some days) = ltb 0 days && leb days retention_days

-- `rules` is none where the configuration cannot be read.
unfoldable pub verify_retention : ℕ → Option (List Rule) → Result PolicyError ℕ
unfolding is_enforced
verify_retention retention_days none = err PolicyError.no_lifecycle
verify_retention retention_days (some rules) =
    if any (is_enforced retention_days) rules
    then ok retention_days
    else err PolicyError.no_lifecycle
