-- ===== src/FileArtifact/Archive.antt =====
-- services/file-artifact/store.py: `is_zip`, `_escapes_root` and `validate_archive`. Bytes are
-- numbers; the module `zipfile` is a parameter.
use Prim.Native.String.{◌++◌ as ◌+++◌}
use Prim.Native.Char.{code}
use text.Mathlib.Text.{starts_with}
use cernityndr.Base.{
  ℕ, String, Bool, true, false, not, ◌&&◌, ◌||◌, Option, none, some, List, [], ◌∷◌, zero, suc,
  Result, ok, err, ltb, nat_eq, if◌then◌else◌, ◌==◌, string_eq, any, take,
}
use cernityndr.FileArtifact.Keys.{split}

abbrev pub Bytes : Type 0
Bytes = List ℕ

-- A member as `infolist` and `read` show it; `content` is none where `read` raises.
pub record Entry : Type 0 where
  pub filename : String
  pub is_dir : Bool
  pub file_size : ℕ
  pub content : Option Bytes

pub record Zipfile : Type 0 where
  pub is_zipfile : Bytes → Bool
  pub infolist : Bytes → Option (List Entry)  -- none: BadZipFile

pub data PolicyError : Type 0 where
  too_deep : PolicyError
  malformed : PolicyError
  escaping : PolicyError
  member_too_large : PolicyError
  unreadable : PolicyError
  too_large : PolicyError
  wrong_digest : PolicyError
  not_tenant_scoped : PolicyError
  no_lifecycle : PolicyError

abbrev pub same_bytes : Bytes → Bytes → Bool
same_bytes [] [] = true
same_bytes (x ∷ xs) (y ∷ ys) = nat_eq x y && same_bytes xs ys
same_bytes _ _ = false

abbrev pub magics : List Bytes
magics = (80 ∷ 75 ∷ 3 ∷ 4 ∷ []) ∷ (80 ∷ 75 ∷ 5 ∷ 6 ∷ []) ∷ (80 ∷ 75 ∷ 7 ∷ 8 ∷ []) ∷ []

unfoldable pub is_zip : Zipfile → Bytes → Bool
is_zip z bytes = any (same_bytes (take 4 bytes)) magics || z.is_zipfile bytes

-- The loop of os.path.normpath on a relative path; the newest component stands first.
unfoldable pub normalized : List String → List String → List String
normalized done [] = done
normalized done (part ∷ parts) = normalized (step part done) parts
  where
    step : String → List String → List String
    step part [] = if part == "" || part == "." then [] else part ∷ []
    step part (top ∷ below) =
        if part == "" || part == "."
        then top ∷ below
        else if not (part == "..") || top == ".."
        then part ∷ top ∷ below
        else below

-- The components joined by "/", or "." for none.
unfoldable pub joined : List String → String → String
joined [] path = if path == "" then "." else path
joined (part ∷ below) path = joined below (if path == "" then part else part +++ "/" +++ path)

-- os.path.normpath, of a path that is not absolute
unfoldable pub normpath : String → String
unfolding normalized joined split
normpath path = joined (normalized [] (split path)) ""

abbrev pub root : String
root = "artifacts"

-- `"\\" in name`
unfoldable pub has_backslash : String → Bool
has_backslash String.[] = false
has_backslash (String.◌∷◌ c s) = nat_eq (code c) 92 || has_backslash s

unfoldable pub escapes_root : String → Bool
unfolding normpath has_backslash
escapes_root name =
    if name == "" || starts_with name "/" || has_backslash name
    then true
    else not (normpath (root +++ "/" +++ name) == root)
      && not (starts_with (normpath (root +++ "/" +++ name)) (root +++ "/"))

-- One member; `inner` is the check of a nested archive.
unfoldable pub check_content :
    Zipfile → (Bytes → Result PolicyError Unit) → Option Bytes → Result PolicyError Unit
unfolding is_zip
check_content z inner none = err unreadable
check_content z inner (some member) = if is_zip z member then inner member else ok tt

unfoldable pub check_entry :
    Zipfile → ℕ → (Bytes → Result PolicyError Unit) → Entry → Result PolicyError Unit
unfolding escapes_root check_content
check_entry z max_file_size inner e =
    if escapes_root e.filename
    then err escaping
    else if e.is_dir
    then ok tt
    else if ltb max_file_size e.file_size
    then err member_too_large
    else check_content z inner e.content

abbrev pub and_then : Result PolicyError Unit → Result PolicyError Unit → Result PolicyError Unit
and_then (ok u) next = next
and_then (err e) next = err e

unfoldable pub check_entries :
    Zipfile → ℕ → (Bytes → Result PolicyError Unit) → List Entry → Result PolicyError Unit
unfolding check_entry
check_entries z max_file_size inner [] = ok tt
check_entries z max_file_size inner (e ∷ es) =
    and_then (check_entry z max_file_size inner e) (check_entries z max_file_size inner es)

unfoldable pub check_opened :
    Zipfile → ℕ → (Bytes → Result PolicyError Unit) → Option (List Entry) → Result PolicyError Unit
unfolding check_entries
check_opened z max_file_size inner none = err malformed
check_opened z max_file_size inner (some es) = check_entries z max_file_size inner es

-- `left` is max_depth + 1 - _depth: `_depth > max_depth` when it is 0.
unfoldable pub validate_archive : Zipfile → ℕ → ℕ → Bytes → Result PolicyError Unit
unfolding is_zip check_opened
validate_archive z max_file_size zero bytes = if is_zip z bytes then err too_deep else ok tt
validate_archive z max_file_size (suc left) bytes =
    if is_zip z bytes
    then check_opened z max_file_size (λ member. validate_archive z max_file_size left member)
        (z.infolist bytes)
    else ok tt
