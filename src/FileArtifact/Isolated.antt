-- ===== src/FileArtifact/Isolated.antt =====
-- shared/object_keys.py: two tenants never share a namespace.
use Prim.Native.Char.{code}
use Prim.Native.String.{count, ◌++◌ as ◌+++◌}
use text.Mathlib.Text.{starts_with}
use text.Mathlib.TextEquality.{starts_with_iff}
use text.Mathlib.TextLemmas.{
  append_assoc, append_cancel_left, append_inj, length-append, nil-append, cons-append,
}
use cernityndr.Base.{
  ℕ, String, ◌≡◌, refl, sym, ap, ◌∙◌, inl, inr, Bool, true, false, ◌&&◌, ◌||◌, zero, suc, arith,
  nat_eq, if◌then◌else◌, ◌==◌, string_eq, Bool-cases,
}
use cernityndr.Finding.Quality.{is_blank}
use cernityndr.FileArtifact.Keys.{
  is_label, labels, remove_dots, strip_left, strip_right, first_chars, or_t, tenant_segment,
  accepted_key, in_accepted_namespace,
}
use cernityndr.FileArtifact.Vetted.{has_slash}

-- What the digest of a tenant is taken to be: of one length and without a slash.
pub record IsDigest (sha256 : String → String) : Type 0 where
  pub size : ℕ
  pub count_all : (s : String) → count (sha256 s) ≡ size
  pub plain : (s : String) → has_slash (sha256 s) ≡ false

before_slash : String → String
before_slash String.[] = ""
before_slash (String.◌∷◌ c s) =
    let rest = before_slash s in if nat_eq (code c) 47 then "" else String.◌∷◌ c rest

before_slash-append : (s t : String) → has_slash s ≡ false → before_slash (s +++ "/" +++ t) ≡ s
unfolding before_slash has_slash
before_slash-append String.[] t h = rw (nil-append ("/" +++ t)) (rw (cons-append "/" "" t) refl)
before_slash-append (String.◌∷◌ c s) t h =
    let other : nat_eq (code c) 47 ≡ false = ground (arith, h) in
    let plain : has_slash s ≡ false = ground (arith, h) in
    rw (cons-append c s ("/" +++ t)) (rw other (ap (String.◌∷◌ c) (before_slash-append s t plain)))

has_slash-append : (s t : String) → has_slash (s +++ t) ≡ (has_slash s || has_slash t)
unfolding has_slash
has_slash-append String.[] t = rw (nil-append t) refl
has_slash-append (String.◌∷◌ c s) t =
    rw (cons-append c s t)
      (rw (has_slash-append s t) (or_assoc (nat_eq (code c) 47) (has_slash s) (has_slash t)))
  where
    or_assoc : (a b c : Bool) → (a || (b || c)) ≡ ((a || b) || c)
    or_assoc a b c = ground arith

label_no_slash : (c : ℕ) → is_label c ≡ true → nat_eq c 47 ≡ false
unfolding is_label
label_no_slash c h = ground arith

has_slash-labels : (s : String) → has_slash (labels s) ≡ false
unfolding has_slash labels
has_slash-labels String.[] = refl
has_slash-labels (String.◌∷◌ c s) = elim (Bool-cases (is_label (code c))) [
  | inl q ↦ rw q (rw (label_no_slash (code c) q) (has_slash-labels s))
  | inr q ↦ rw q (has_slash-labels s)
]

has_slash-remove_dots : (s : String) → has_slash s ≡ false → has_slash (remove_dots s) ≡ false
unfolding has_slash remove_dots
has_slash-remove_dots String.[] h = refl
has_slash-remove_dots (String.◌∷◌ c String.[]) h = h
has_slash-remove_dots (String.◌∷◌ c (String.◌∷◌ d s)) h =
    elim (Bool-cases (nat_eq (code c) 46 && nat_eq (code d) 46)) [
      | inl q ↦ rw q (has_slash-remove_dots s (ground (arith, h)))
      | inr q ↦
          let here : nat_eq (code c) 47 ≡ false = ground (arith, h) in
          rw q (rw here (has_slash-remove_dots (String.◌∷◌ d s) (ground (arith, h))))
    ]

has_slash-strip_left : (s : String) → has_slash s ≡ false → has_slash (strip_left s) ≡ false
unfolding has_slash strip_left
has_slash-strip_left String.[] h = refl
has_slash-strip_left (String.◌∷◌ c s) h = elim (Bool-cases (nat_eq (code c) 46)) [
  | inl q ↦ rw q (has_slash-strip_left s (ground (arith, h)))
  | inr q ↦ rw q h
]

has_slash-strip_right : (s : String) → has_slash s ≡ false → has_slash (strip_right s) ≡ false
unfolding has_slash strip_right
has_slash-strip_right String.[] h = refl
has_slash-strip_right (String.◌∷◌ c s) h =
    elim (Bool-cases (nat_eq (code c) 46 && strip_right s == "")) [
      | inl q ↦ rw q refl
      | inr q ↦
          let here : nat_eq (code c) 47 ≡ false = ground (arith, h) in
          rw q (rw here (has_slash-strip_right s (ground (arith, h))))
    ]

has_slash-first_chars :
    (n : ℕ) (s : String) → has_slash s ≡ false → has_slash (first_chars n s) ≡ false
unfolding has_slash first_chars
has_slash-first_chars zero s h = refl
has_slash-first_chars (suc n) String.[] h = refl
has_slash-first_chars (suc n) (String.◌∷◌ c s) h =
    let here : nat_eq (code c) 47 ≡ false = ground (arith, h) in
    rw here (has_slash-first_chars n s (ground (arith, h)))

has_slash-or_t : (s : String) → has_slash s ≡ false → has_slash (or_t s) ≡ false
unfolding has_slash
has_slash-or_t s h = elim (Bool-cases (s == "")) [ inl q ↦ rw q refl | inr q ↦ rw q h ]

abbrev label : String → String
label raw = or_t (first_chars 32 (strip_right (strip_left (remove_dots (labels raw)))))

has_slash-label : (raw : String) → has_slash (label raw) ≡ false
has_slash-label raw = has_slash-or_t _ (
    has_slash-first_chars 32 _ (
      has_slash-strip_right _
        (has_slash-strip_left _ (has_slash-remove_dots _ (has_slash-labels raw)))))

tenant_segment-label :
    (sha256 : String → String) (raw : String)
    → is_blank raw ≡ false
    → tenant_segment sha256 raw ≡ label raw +++ "-" +++ sha256 raw
unfolding tenant_segment
tenant_segment-label sha256 raw named = rw named refl

-- Equal texts with ends of one length have equal ends.
same_end : (a b x y : String) → a +++ x ≡ b +++ y → count x ≡ count y → x ≡ y
same_end a b x y e h =
    let whole = sym (length-append a x) ∙ ap count e ∙ length-append b y in
    (append_inj e (ground (arith, whole, h))).1

-- The segment of a key in a served namespace.
before_slash-artifacts :
    (s rest : String) → has_slash s ≡ false → before_slash (s +++ "/artifacts/" +++ rest) ≡ s
before_slash-artifacts s rest plain =
    ap (λ x. before_slash (s +++ x)) (append_assoc "/" "artifacts/" rest)
    ∙ before_slash-append s ("artifacts/" +++ rest) plain

same_segment :
    (bucket s t name : String)
    → has_slash s ≡ false
    → has_slash t ≡ false
    → starts_with
        (bucket +++ "/" +++ s +++ "/artifacts/" +++ name)
        (bucket +++ "/" +++ t +++ "/artifacts/")
      ≡ true
    → s ≡ t
same_segment bucket s t name plain_s plain_t h =
    let (rest, e) =
      (starts_with_iff (bucket +++ "/" +++ s +++ "/artifacts/" +++ name)
          (bucket +++ "/" +++ t +++ "/artifacts/")).0
        h in
    let whole =
      sym (
        append_assoc bucket ("/" +++ t +++ "/artifacts/") rest
        ∙ ap (λ x. bucket +++ x)
            (append_assoc "/" (t +++ "/artifacts/") rest
              ∙ ap (λ x. "/" +++ x) (append_assoc t "/artifacts/" rest)))
      ∙ e in
    let tails =
      append_cancel_left "/" (t +++ "/artifacts/" +++ rest) (s +++ "/artifacts/" +++ name) (
        append_cancel_left bucket ("/" +++ t +++ "/artifacts/" +++ rest)
          ("/" +++ s +++ "/artifacts/" +++ name) whole) in
    sym (before_slash-artifacts s name plain_s)
    ∙ ap before_slash (sym tails)
    ∙ before_slash-artifacts t rest plain_t

module _ (sha256 : String → String) (digest : IsDigest sha256) where
  has_slash-tenant_segment :
      (raw : String) → is_blank raw ≡ false → has_slash (tenant_segment sha256 raw) ≡ false
  has_slash-tenant_segment raw named = rw (tenant_segment-label sha256 raw named) (
      rw (has_slash-append (label raw) ("-" +++ sha256 raw)) (
        rw (has_slash-label raw) (
          rw (has_slash-append "-" (sha256 raw))
            (rw (digest.plain raw) (unfold has_slash in refl)))))

  -- The digest determines the tenant.
  tenant_segment-injective :
      (a b : String)
      → is_blank a ≡ false
      → is_blank b ≡ false
      → (sha256 a ≡ sha256 b → a ≡ b)
      → tenant_segment sha256 a ≡ tenant_segment sha256 b
      → a ≡ b
  tenant_segment-injective a b named_a named_b distinct e =
      let texts =
        sym (tenant_segment-label sha256 a named_a) ∙ e ∙ tenant_segment-label sha256 b named_b in
      let one =
        append_assoc (label a) "-" (sha256 a)
        ∙ texts
        ∙ sym (append_assoc (label b) "-" (sha256 b)) in
      distinct (
        same_end (label a +++ "-") (label b +++ "-") (sha256 a) (sha256 b) one
          (digest.count_all a ∙ sym (digest.count_all b)))

  -- A key under which the file of one tenant is accepted stands in the served namespace of no
  -- other: if the namespace of `b` has it, `b` is the tenant. Both names are more than blanks,
  -- their digests do not collide, and all digests are of one length and without a slash.
  pub accepted_key-tenant :
      (a b name bucket : String)
      → is_blank a ≡ false
      → is_blank b ≡ false
      → (sha256 a ≡ sha256 b → a ≡ b)
      → in_accepted_namespace
          (accepted_key (tenant_segment sha256 a) name bucket)
          (tenant_segment sha256 b)
          bucket
        ≡ true
      → a ≡ b
  unfolding in_accepted_namespace accepted_key
  accepted_key-tenant a b name bucket named_a named_b distinct h =
      tenant_segment-injective a b named_a named_b distinct (
        same_segment bucket (tenant_segment sha256 a) (tenant_segment sha256 b) name
          (has_slash-tenant_segment a named_a) (has_slash-tenant_segment b named_b) h)
