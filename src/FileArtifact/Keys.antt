-- ===== src/FileArtifact/Keys.antt =====
-- shared/object_keys.py. The digest is a parameter; a reference is a text, or none.
use Prim.Native.String.{count, ◌++◌ as ◌+++◌}
use Prim.Native.Char.{Char, code}
use text.Mathlib.Text.{starts_with}
use cernityndr.Base.{
  ℕ, String, Bool, true, false, not, ◌&&◌, ◌||◌, Option, none, some, List, [], ◌∷◌, zero, suc, leb,
  nat_eq, if◌then◌else◌, ◌==◌, string_eq,
}
use cernityndr.Finding.Quality.{is_blank}

-- [A-Za-z0-9._-]
unfoldable pub is_label : ℕ → Bool
is_label c =
    (leb 65 c && leb c 90)
    || (leb 97 c && leb c 122)
    || (leb 48 c && leb c 57)
    || nat_eq c 46
    || nat_eq c 95
    || nat_eq c 45

unfoldable pub all_safe : String → Bool
unfolding is_label
all_safe String.[] = true
all_safe (String.◌∷◌ c s) = (is_label (code c) || nat_eq (code c) 47) && all_safe s

-- `$` matches before a line feed that ends the text.
unfoldable pub without_newline : String → String
without_newline String.[] = String.[]
without_newline (String.◌∷◌ c s) =
    let rest = without_newline s in
    if nat_eq (code c) 10 && s == "" then String.[] else String.◌∷◌ c rest

-- `_SAFE_KEY.match(ref)`
unfoldable pub is_safe_key : String → Bool
unfolding all_safe without_newline
is_safe_key ref =
    let body = without_newline ref in leb 1 (count body) && leb (count body) 256 && all_safe body

-- `".." in ref`
unfoldable pub has_dots : String → Bool
has_dots String.[] = false
has_dots (String.◌∷◌ c s) = (nat_eq (code c) 46 && starts_with s ".") || has_dots s

unfoldable pub valid_key : String → Bool
unfolding is_safe_key has_dots
valid_key ref = is_safe_key ref && not (has_dots ref) && not (starts_with ref "/")

-- The characters of the class, the other ones dropped.
unfoldable pub labels : String → String
unfolding is_label
labels String.[] = String.[]
labels (String.◌∷◌ c s) =
    let rest = labels s in if is_label (code c) then String.◌∷◌ c rest else rest

-- `.replace("..", "")`
unfoldable pub remove_dots : String → String
remove_dots String.[] = String.[]
remove_dots (String.◌∷◌ c String.[]) = String.◌∷◌ c String.[]
remove_dots (String.◌∷◌ c (String.◌∷◌ d s)) =
    let skipped = remove_dots s in
    let kept = remove_dots (String.◌∷◌ d s) in
    if nat_eq (code c) 46 && nat_eq (code d) 46 then skipped else String.◌∷◌ c kept

-- `.strip(".")`
unfoldable pub strip_left : String → String
strip_left String.[] = String.[]
strip_left (String.◌∷◌ c s) =
    let rest = strip_left s in if nat_eq (code c) 46 then rest else String.◌∷◌ c s

unfoldable pub strip_right : String → String
strip_right String.[] = String.[]
strip_right (String.◌∷◌ c s) =
    let rest = strip_right s in
    if nat_eq (code c) 46 && rest == "" then String.[] else String.◌∷◌ c rest

-- s[:n]
unfoldable pub first_chars : ℕ → String → String
first_chars zero s = String.[]
first_chars (suc n) String.[] = String.[]
first_chars (suc n) (String.◌∷◌ c s) = String.◌∷◌ c (first_chars n s)

abbrev pub or_t : String → String
or_t s = if s == "" then "t" else s

unfoldable pub tenant_segment : (String → String) → String → String
unfolding is_blank labels remove_dots strip_left strip_right first_chars
tenant_segment sha256 raw =
    if is_blank raw
    then "_no-tenant"
    else or_t (first_chars 32 (strip_right (strip_left (remove_dots (labels raw)))))
      +++ "-"
      +++ sha256 raw

unfoldable pub segment_key : String → String → String → String
segment_key tseg name bucket = bucket +++ "/" +++ tseg +++ "/" +++ name

unfoldable pub in_tenant_namespace : String → String → String → Bool
in_tenant_namespace ref tseg bucket = starts_with ref (bucket +++ "/" +++ tseg +++ "/")

unfoldable pub file_key : (String → String) → String → String → String → String
unfolding segment_key tenant_segment
file_key sha256 tenant name bucket = segment_key (tenant_segment sha256 tenant) name bucket

unfoldable pub staging_key : (String → String) → String → String → String → String
unfolding tenant_segment
staging_key sha256 tenant name bucket =
    bucket +++ "/" +++ tenant_segment sha256 tenant +++ "/incoming/" +++ name

unfoldable pub accepted_key : String → String → String → String
accepted_key tseg name bucket = bucket +++ "/" +++ tseg +++ "/artifacts/" +++ name

unfoldable pub in_accepted_namespace : String → String → String → Bool
in_accepted_namespace ref tseg bucket = starts_with ref (bucket +++ "/" +++ tseg +++ "/artifacts/")

abbrev pub put_char : Char → List String → List String
put_char c [] = String.◌∷◌ c String.[] ∷ []
put_char c (part ∷ parts) = String.◌∷◌ c part ∷ parts

-- `.split("/")`
unfoldable pub split : String → List String
split String.[] = "" ∷ []
split (String.◌∷◌ c s) =
    let rest = split s in if nat_eq (code c) 47 then "" ∷ rest else put_char c rest

abbrev pub segment_of : List String → String → Option String
segment_of (first ∷ tseg ∷ name ∷ more) bucket =
    if first == bucket && not (tseg == "") then some tseg else none
segment_of _ bucket = none

unfoldable pub key_tenant_segment : String → String → Option String
unfolding valid_key split
key_tenant_segment ref bucket = if not (valid_key ref) then none else segment_of (split ref) bucket

-- [0-9a-f]
unfoldable pub all_hex : String → Bool
all_hex String.[] = true
all_hex (String.◌∷◌ c s) =
    ((leb 48 (code c) && leb (code c) 57) || (leb 97 (code c) && leb (code c) 102)) && all_hex s

unfoldable pub staged_of : List String → String → Option String
unfolding all_hex
staged_of (first ∷ tseg ∷ space ∷ sha ∷ []) bucket =
    if first == bucket
      && not (tseg == "")
      && space == "incoming"
      && nat_eq (count sha) 64
      && all_hex sha
    then some sha
    else none
staged_of _ bucket = none

unfoldable pub staging_sha : String → String → Option String
unfolding valid_key split staged_of
staging_sha ref bucket = if not (valid_key ref) then none else staged_of (split ref) bucket

-- `ref.partition("/")[2]`
unfoldable pub after_slash : String → String
after_slash String.[] = ""
after_slash (String.◌∷◌ c s) = let rest = after_slash s in if nat_eq (code c) 47 then s else rest

-- `key.rsplit("/", 1)[-1]`
unfoldable pub last_segment : String → String
unfolding split
last_segment key = last_of (split key)
  where
    last_of : List String → String
    last_of [] = ""
    last_of (part ∷ []) = part
    last_of (part ∷ next ∷ parts) = last_of (next ∷ parts)
