-- ===== src/FileArtifact/Nested.antt =====
-- services/file-artifact/store.py: what `validate_archive` lets through, at every depth.
use mathlib.Core.Bool.{true≢false}
use mathlib.Core.List.{Memᴰ}
use mathlib.Core.List.Memᴰ
use cernityndr.Base.{
  ℕ, ◌≡◌, refl, sym, ◌∙◌, subst, inl, inr, true, false, Option, none, some, List, [], ◌∷◌, zero,
  suc, Result, ok, err, ltb, leb, arith, if◌then◌else◌, Bool-cases, err-ok_absurd, guard-ok,
}
use cernityndr.FileArtifact.Archive.{
  Bytes, Entry, Zipfile, PolicyError, is_zip, escapes_root, check_content, check_entry, and_then,
  check_entries, check_opened, validate_archive,
}

-- The bytes `inner` lie n archives deep in other ones.
pub data Nested (z : Zipfile) (inner : Bytes) : ℕ → Bytes → Type 0 where
  itself : Nested z inner zero inner
  inside :
      {n : ℕ} {outer member : Bytes} (es : List Entry) (e : Entry)
      → is_zip z outer ≡ true
      → z.infolist outer ≡ some es
      → Memᴰ e es
      → e.is_dir ≡ false
      → e.content ≡ some member
      → Nested z inner n member
      → Nested z inner (suc n) outer

Nested-is_zip :
    {z : Zipfile} {inner bytes : Bytes} {n : ℕ}
    → Nested z inner n bytes
    → is_zip z inner ≡ true
    → is_zip z bytes ≡ true
Nested-is_zip itself zip = zip
Nested-is_zip (inside es e outer opened q file content deeper) zip = outer

-- The path stays below the root, and a file is small enough and can be read.
unfoldable pub IsSafe : ℕ → Entry → Type 0
IsSafe max_file_size e =
    (escapes_root e.filename ≡ false)
    × (e.is_dir ≡ false
        → (leb e.file_size max_file_size ≡ true) × (member : Bytes) × (e.content ≡ some member))

and_then-ok : (a b : Result PolicyError Unit) → and_then a b ≡ ok tt → (a ≡ ok tt) × (b ≡ ok tt)
and_then-ok (ok u) b h = (refl, h)
and_then-ok (err e) b h = absurd (err-ok_absurd h)

module _ (z : Zipfile) (max_file_size : ℕ) where
  module _ (inner : Bytes → Result PolicyError Unit) where
    check_content-ok :
        (o : Option Bytes)
        → check_content z inner o ≡ ok tt
        → (member : Bytes) × (o ≡ some member) × (is_zip z member ≡ true → inner member ≡ ok tt)
    unfolding check_content
    check_content-ok none h = absurd (err-ok_absurd h)
    check_content-ok (some member) h = (member, refl, λ q. sym (rw q refl) ∙ h)

    check_entry-ok :
        (e : Entry)
        → check_entry z max_file_size inner e ≡ ok tt
        → IsSafe max_file_size e
          × ((member : Bytes)
              → e.is_dir ≡ false
              → e.content ≡ some member
              → is_zip z member ≡ true
              → inner member ≡ ok tt)
    unfolding check_entry IsSafe
    check_entry-ok e h =
        let (a, unescaped) =
          guard-ok (escapes_root e.filename) PolicyError.escaping
            (if e.is_dir
              then ok tt
              else if ltb max_file_size e.file_size
              then err PolicyError.member_too_large
              else check_content z inner e.content)
            h in
        elim (Bool-cases e.is_dir) [
          | inl b ↦ (
            (a, λ q. absurd (true≢false (sym b ∙ q))),
            λ member q. absurd (true≢false (sym b ∙ q)),
          )
          | inr b ↦
              let (c, small) =
                guard-ok (ltb max_file_size e.file_size) PolicyError.member_too_large
                  (check_content z inner e.content) (rw b at unescaped) in
              let (member, content, checked) = check_content-ok e.content small in
              (
                (a, λ q. (ground (arith, c), member, content)),
                λ other q same zip.
                    let p : member ≡ other = some-path (sym content ∙ same) in
                    subst (λ m. inner m ≡ ok tt) p
                      (checked (subst (λ m. is_zip z m ≡ true) (sym p) zip)),
              )
        ]
      where
        some-path : {x y : Bytes} → some x ≡ some y → x ≡ y
        some-path q = cc

    check_entries-ok :
        (es : List Entry)
        → check_entries z max_file_size inner es ≡ ok tt
        → (e : Entry) → Memᴰ e es
        → check_entry z max_file_size inner e ≡ ok tt
    unfolding check_entries
    check_entries-ok [] h e q = absurd (Memᴰ.not-nil q)
    check_entries-ok (x ∷ es) h e (Memᴰ.head same) =
        subst (λ y. check_entry z max_file_size inner y ≡ ok tt) (sym same)
          (and_then-ok (check_entry z max_file_size inner x)
            (check_entries z max_file_size inner es) h).0
    check_entries-ok (x ∷ es) h e (Memᴰ.tail q) =
        check_entries-ok es
          (and_then-ok (check_entry z max_file_size inner x)
            (check_entries z max_file_size inner es) h).1
          e q

    check_opened-ok :
        (o : Option (List Entry))
        → check_opened z max_file_size inner o ≡ ok tt
        → (es : List Entry) × (o ≡ some es)
          × ((e : Entry) → Memᴰ e es → check_entry z max_file_size inner e ≡ ok tt)
    unfolding check_opened
    check_opened-ok none h = absurd (err-ok_absurd h)
    check_opened-ok (some es) h = (es, refl, check_entries-ok es h)

  -- A checked archive was opened, at a depth that is left.
  validate_archive-opened :
      (left : ℕ) (bytes : Bytes)
      → validate_archive z max_file_size left bytes ≡ ok tt
      → is_zip z bytes ≡ true
      → (n : ℕ) × (left ≡ suc n)
        × (es : List Entry) × (z.infolist bytes ≡ some es)
        × ((e : Entry)
            → Memᴰ e es
            → check_entry z max_file_size (validate_archive z max_file_size n) e ≡ ok tt)
  unfolding validate_archive
  validate_archive-opened zero bytes h zip = absurd (err-ok_absurd (rw zip at h))
  validate_archive-opened (suc n) bytes h zip =
      let (es, opened, checked) =
        check_opened-ok (validate_archive z max_file_size n) (z.infolist bytes) (rw zip at h) in
      (n, refl, es, opened, checked)

  -- What passes is safe at every depth: an archive found n archives deep, through members that
  -- are no directories, lies within the depth that is left (the top is 0 deep), opens, and each
  -- of its entries has a path below the root and, unless it is a directory, a size within the
  -- limit and readable bytes.
  pub validate_archive-IsSafe :
      {inner : Bytes} {n : ℕ} (left : ℕ) {bytes : Bytes}
      → validate_archive z max_file_size left bytes ≡ ok tt
      → Nested z inner n bytes
      → is_zip z inner ≡ true
      → (ltb n left ≡ true)
        × (es : List Entry) × (z.infolist inner ≡ some es)
        × ((e : Entry) → Memᴰ e es → IsSafe max_file_size e)
  validate_archive-IsSafe left {bytes} h itself zip =
      let (n, more, es, opened, checked) = validate_archive-opened left bytes h zip in
      (
        ground arith,
        es,
        opened,
        λ e q. (check_entry-ok (validate_archive z max_file_size n) e (checked e q)).0,
      )
  validate_archive-IsSafe left {bytes} h
        (inside {member = member} es e outer opened q file content deeper) zip =
      let (m, more, found, listed, checked) = validate_archive-opened left bytes h outer in
      let same : found ≡ es = some-path (sym listed ∙ opened) in
      let entry = checked e (subst (Memᴰ e) (sym same) q) in
      let below = (check_entry-ok (validate_archive z max_file_size m) e entry).1 in
      let (deep, entries, listing, all_safe) =
        validate_archive-IsSafe m (below member file content (Nested-is_zip deeper zip)) deeper
          zip in
      (ground (arith, more, deep), entries, listing, all_safe)
    where
      some-path : {x y : List Entry} → some x ≡ some y → x ≡ y
      some-path q = cc
