-- ===== src/FileArtifact/Examples.antt =====
-- One bucket over an association list: a stored text file, a nested archive, and what is refused.
use mathlib.Core.List.{Memᴰ}
use cernityndr.Base.{
  leb, String, ◌≡◌, refl, sym, ap, ◌∙◌, subst, ◌⊎◌, inl, inr, true, false, Option, none, some, List,
  [], ◌∷◌, ok, err, length, nat_eq, ltb, eq_iff, if◌then◌else◌, ◌==◌, string_eq, Table, lookup,
  insert, lookup-insert, Bool-cases,
}
use cernityndr.Finding.Quality.{is_blank}
use cernityndr.FileArtifact.Keys.{
  valid_key, key_tenant_segment, accepted_key, tenant_segment, in_accepted_namespace, last_segment,
  after_slash,
}
use cernityndr.FileArtifact.Archive.{
  Bytes, Entry, Zipfile, PolicyError, escapes_root, is_zip, validate_archive,
}
use cernityndr.FileArtifact.Nested.{Nested, IsSafe, validate_archive-IsSafe}
use cernityndr.FileArtifact.Store.{
  Object, Platform, Event, World, Artifact, Grant, store, retrieve, grant_of, expired,
}
use cernityndr.FileArtifact.Isolated.{IsDigest, accepted_key-tenant}
use cernityndr.FileArtifact.Vetted.{
  IsFaithful, IsVetted, IsChecked, Reach, has_slash, retrieve-IsChecked,
}
use cernityndr.FileArtifact.Promoted.{IsPromoted, store-IsPromoted}

up_and_out : escapes_root "../../etc/passwd" ≡ true
unfolding escapes_root
up_and_out = refl

down_and_back : escapes_root "docs/../readme.txt" ≡ false
unfolding escapes_root
down_and_back = refl

-- `$` lets a line feed at the end pass.
newline_passes : valid_key "ndr-files/a\n" ≡ true
unfolding valid_key
newline_passes = refl

abbrev readme : Entry
readme = record {
  filename = "docs/readme.txt";
  is_dir = false;
  file_size = 2;
  content = some (7 ∷ 8 ∷ []);
}

abbrev inner_zip : Bytes
inner_zip = 80 ∷ 75 ∷ 3 ∷ 4 ∷ []

abbrev packed : Entry
packed = record { filename = "inner.zip"; is_dir = false; file_size = 4; content = some inner_zip }

abbrev outer_zip : Bytes
outer_zip = 80 ∷ 75 ∷ 3 ∷ 4 ∷ 9 ∷ []

abbrev zipfile : Zipfile
zipfile = record {
  is_zipfile = λ bytes. false;
  infolist = λ bytes. some (if nat_eq (length bytes) 4 then readme ∷ [] else packed ∷ []);
}

too_deep : validate_archive zipfile 64 1 outer_zip ≡ err PolicyError.too_deep
unfolding validate_archive
too_deep = refl

validate_archive-IsSafe_example :
    (ltb 1 2 ≡ true)
    × (es : List Entry) × (zipfile.infolist inner_zip ≡ some es)
    × ((e : Entry) → Memᴰ e es → IsSafe 64 e)
validate_archive-IsSafe_example =
    validate_archive-IsSafe zipfile 64 {inner = inner_zip} {n = 1} 2 {bytes = outer_zip}
      (unfold validate_archive in refl)
      (Nested.inside {outer = outer_zip} {member = inner_zip} (packed ∷ []) packed
        (unfold is_zip in refl) refl (Memᴰ.head refl) refl refl Nested.itself)
      (unfold is_zip in refl)

put_object : String → Bytes → Table Object → Table Object
unfolding insert
put_object key bytes b =
    insert key (record { last_modified = some 1000; content_length = length bytes; body = bytes }) b

get_object : Table Object → String → Option Object
unfolding lookup
get_object b key = lookup key b

abbrev platform : Platform (Table Object)
platform = record {
  s3 = record {
    head = λ b key. false;
    put = λ b key bytes. some (put_object key bytes b);
    get = get_object;
  };
  zipfile = zipfile;
  sha256 = λ bytes. "d1";
  sha256_text = λ tenant. "aa";
  lower = λ s. s;
  bucket_name = "ndr-files";
  max_file_size = 64;
  max_archive_depth = 4;
  retention_days = 7;
}

some-path : {A : Type 0} {x y : A} → some x ≡ some y → x ≡ y
some-path h = cc

faithful : IsFaithful platform
unfolding IsFaithful put_object get_object
faithful b c key other bytes obj put got =
    let e =
      sym (
        lookup-insert key other
          (record { last_modified = some 1000; content_length = length bytes; body = bytes }) b)
      ∙ subst (λ d. lookup other d ≡ some obj) (sym (some-path put)) got in
    elim (Bool-cases (key == other)) [
      | inl q ↦
          inl ((eq_iff key other).0 q, ap (λ (o : Object). o.body) (sym (some-path (rw q at e))))
      | inr q ↦ inr (rw q at e)
    ]

abbrev extracted : Event
extracted = record {
  object_ref = some "ndr-files/acme-aa/incoming/d1";
  state = none;
  sha256 = some "d1";
  mime = some "";
  sensor_id = some "s1";
}

abbrev fetch : String → Option Bytes
fetch source = some (7 ∷ 8 ∷ [])

abbrev empty_world : World (Table Object)
empty_world = record { bucket = []; log = [] }

abbrev grants : Table Grant
grants = ("t1", record { actor = "ann"; tenant_id = "acme"; file_read = true }) ∷ []

store-IsPromoted_example :
    ((store platform fetch extracted empty_world).1.bucket ≡ [])
    ⊎ (IsPromoted platform fetch extracted [] (store platform fetch extracted empty_world).1.bucket
        × ((a : Artifact) × ((store platform fetch extracted empty_world).0 ≡ ok (some a))))
store-IsPromoted_example = store-IsPromoted platform fetch extracted empty_world

served :
    (retrieve platform grants
      (some "Bearer t1")
      "ndr-files/acme-aa/artifacts/d1"
      64
      2000
      (store platform fetch extracted empty_world).1).0
    ≡ ok (7 ∷ 8 ∷ [])
unfolding retrieve store put_object get_object key_tenant_segment after_slash accepted_key
served = refl

nothing_yet : IsVetted platform []
unfolding IsVetted get_object
nothing_yet key obj served got = absurd cc

retrieve-IsChecked_example :
    IsChecked platform (7 ∷ 8 ∷ [])
    × ((g : Grant) × (grant_of grants (some "Bearer t1") ≡ some g)
        × (g.file_read ≡ true)
        × (in_accepted_namespace "ndr-files/acme-aa/artifacts/d1"
              (tenant_segment platform.sha256_text g.tenant_id)
              "ndr-files"
            ≡ true))
    × ((obj : Object) × (platform.s3.get
            (store platform fetch extracted empty_world).1.bucket
            (after_slash "ndr-files/acme-aa/artifacts/d1")
          ≡ some obj)
        × ((7 ∷ 8 ∷ []) ≡ obj.body)
        × (expired platform obj.last_modified 2000 ≡ false)
        × (leb 2 64 ≡ true))
    × ("d1" ≡ last_segment (after_slash "ndr-files/acme-aa/artifacts/d1"))
retrieve-IsChecked_example =
    retrieve-IsChecked platform [] (store platform fetch extracted empty_world).1 grants
      (some "Bearer t1") "ndr-files/acme-aa/artifacts/d1" 64 2000 (7 ∷ 8 ∷ []) faithful
      (unfold has_slash in refl) nothing_yet
      (Reach.ingested empty_world fetch extracted Reach.begun) served

abbrev constant : String → String
constant tenant = "aa"

constant-IsDigest : IsDigest constant
constant-IsDigest = record {
  size = 2;
  count_all = λ s. refl;
  plain = λ s. unfold has_slash in refl;
}

accepted_key-tenant_example : Path String "acme" "acme"
accepted_key-tenant_example =
    accepted_key-tenant constant constant-IsDigest "acme" "acme" "d1" "ndr-files"
      (unfold is_blank in refl) (unfold is_blank in refl) (λ e. refl)
      (unfold in_accepted_namespace accepted_key tenant_segment in refl)
