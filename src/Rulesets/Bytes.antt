-- ===== src/Rulesets/Bytes.antt =====
-- services/file-yara/registry.py: the stored bytes of a ruleset against the digest in its row.
use cernityndr.Base.{
  String, ◌≡◌, refl, sym, ap, ◌∙◌, subst, ◌⊎◌, inl, inr, true, ◌&&◌, Option, none, some, List, [],
  ◌∷◌, ok, eq_iff, ◌==◌, string_eq, same_refl, contains, Table, lookup, insert, lookup-insert,
  Bool-cases, Option-cases,
}
use cernityndr.Rulesets.{
  Ruleset, Registry, Patterns, Registration, Promotion, Authorize, statuses, transitions,
  validate_registration, req_str, empty_registry, draft, keep_blob, add_draft, register_draft,
  promoted, promote_row, promote, verified, bytes_of, load_bytes, Call, registration, promotion,
  execute, execute_all,
}

some-path : {A : Type 0} {x y : A} → some x ≡ some y → x ≡ y
some-path h = cc

none-some_absurd : {A : Type 0} {x : A} → none ≡ some x → ⊥
none-some_absurd h = cc

-- What `insert` leaves under a key, by whether it is the key written.
lookup-insert_cases :
    {V : Type 0} (key other : String) (value found : V) (table : Table V)
    → lookup other (insert key value table) ≡ some found
    → ((key ≡ other) × (value ≡ found)) ⊎ (lookup other table ≡ some found)
lookup-insert_cases key other value found table h =
    let e = sym (lookup-insert key other value table) ∙ h in
    elim (Bool-cases (key == other)) [
      | inl q ↦ inl ((eq_iff key other).0 q, some-path (sym (rw q refl) ∙ e))
      | inr q ↦ inr (sym (rw q refl) ∙ e)
    ]

module _ (k : Patterns) where
  -- Every blob stands under its digest, and every row's digest has a blob.
  record IsStored (s : Registry) : Type 0 where
    digests : (key bytes : String) → lookup key s.blobs ≡ some bytes → k.sha256 bytes ≡ key
    present :
        (id : String) (row : Ruleset)
        → lookup id s.rulesets ≡ some row
        → (bytes : String) × (lookup row.sha256 s.blobs ≡ some bytes)

  lookup-keep_blob_same :
      (sha bytes : String) (blobs : Table String)
      → (found : String) × (lookup sha (keep_blob sha bytes (lookup sha blobs) blobs) ≡ some found)
  unfolding keep_blob
  lookup-keep_blob_same sha bytes blobs = elim (Option-cases (lookup sha blobs)) [
    | inl e ↦ (
      bytes,
      ap (λ o. lookup sha (keep_blob sha bytes o blobs)) e
          ∙ lookup-insert sha sha bytes blobs
          ∙ rw (same_refl sha) refl,
    )
    | inr (old, e) ↦ (old, ap (λ o. lookup sha (keep_blob sha bytes o blobs)) e ∙ e)
  ]

  -- A blob that is there stays.
  lookup-keep_blob :
      (sha bytes key old : String) (blobs : Table String)
      → lookup key blobs ≡ some old
      → lookup key (keep_blob sha bytes (lookup sha blobs) blobs) ≡ some old
  unfolding keep_blob
  lookup-keep_blob sha bytes key old blobs h = elim (Option-cases (lookup sha blobs)) [
    | inl e ↦
        ap (λ o. lookup key (keep_blob sha bytes o blobs)) e
        ∙ lookup-insert sha key bytes blobs
        ∙ elim (Bool-cases (sha == key)) [
          | inl q ↦
              absurd
                (none-some_absurd (sym e ∙ ap (λ x. lookup x blobs) ((eq_iff sha key).0 q) ∙ h))
          | inr q ↦ rw q h
        ]
    | inr (other, e) ↦ ap (λ o. lookup key (keep_blob sha bytes o blobs)) e ∙ h
  ]

  keep_blob-digests :
      (bytes : String) (o : Option String) (blobs : Table String)
      → ((key found : String) → lookup key blobs ≡ some found → k.sha256 found ≡ key)
      → (key found : String) → lookup key (keep_blob (k.sha256 bytes) bytes o blobs) ≡ some found
      → k.sha256 found ≡ key
  unfolding keep_blob
  keep_blob-digests bytes (some old) blobs d key found h = d key found h
  keep_blob-digests bytes none blobs d key found h =
      elim (lookup-insert_cases (k.sha256 bytes) key bytes found blobs h) [
        | inl (e, v) ↦ ap k.sha256 (sym v) ∙ e
        | inr e ↦ d key found e
      ]

  add_draft-IsStored :
      (r : Registration) (o : Option Ruleset) (s : Registry)
      → IsStored s
      → IsStored (add_draft k r o s).1
  unfolding add_draft
  add_draft-IsStored r (some old) s p = p
  add_draft-IsStored r none s p = record {
    digests = keep_blob-digests r.bytes (lookup (k.sha256 r.bytes) s.blobs) s.blobs p.digests;
    present = λ id row h. elim (lookup-insert_cases r.ruleset_id id (draft k r) row s.rulesets h) [
      | inl (e, v) ↦
          let (found, q) = lookup-keep_blob_same (k.sha256 r.bytes) r.bytes s.blobs in
          (
            found,
            subst
                (λ (x : Ruleset).
                  lookup x.sha256 (
                    keep_blob (k.sha256 r.bytes) r.bytes (lookup (k.sha256 r.bytes) s.blobs)
                      s.blobs)
                  ≡ some found)
                v q,
          )
      | inr e ↦
          let (found, q) = p.present id row e in
          (found, lookup-keep_blob (k.sha256 r.bytes) r.bytes row.sha256 found s.blobs q)
    ];
  }

  promote_row-IsStored :
      (authorize : Authorize) (p : Promotion) (o : Option Ruleset) (s : Registry)
      → lookup p.ruleset_id s.rulesets ≡ o
      → IsStored s
      → IsStored (promote_row authorize p o s).1
  unfolding promote_row
  promote_row-IsStored authorize p none s q h = h
  promote_row-IsStored authorize p (some row) s q h =
      elim (Bool-cases (contains statuses p.to_status)) [
        | inr a ↦ rw a h
        | inl a ↦ elim (Bool-cases (contains (transitions row.status) p.to_status)) [
          | inr b ↦ rw a (rw b h)
          | inl b ↦ elim (Bool-cases (authorize p.actor row.tenant p.to_status)) [
            | inr c ↦ rw a (rw b (rw c (record { digests = h.digests; present = h.present })))
            | inl c ↦ rw a (rw b (rw c (record { digests = h.digests; present = moved })))
          ]
        ]
      ]
    where
      moved :
          (id : String) (other : Ruleset)
          → lookup id (insert p.ruleset_id (promoted p row) s.rulesets) ≡ some other
          → (bytes : String) × (lookup other.sha256 s.blobs ≡ some bytes)
      moved id other e =
          elim (lookup-insert_cases p.ruleset_id id (promoted p row) other s.rulesets e) [
            | inl (same_id, v) ↦
                let (found, there) = h.present p.ruleset_id row q in
                (found, subst (λ (x : Ruleset). lookup x.sha256 s.blobs ≡ some found) v there)
            | inr e ↦ h.present id other e
          ]

  register_draft-IsStored :
      (r : Registration) (s : Registry) → IsStored s → IsStored (register_draft k r s).1
  unfolding register_draft
  register_draft-IsStored r s h =
      elim (Bool-cases (
        validate_registration k r
        && req_str r.ruleset_id 256 true
        && k.is_safe_id r.ruleset_id
        && k.is_datetime r.ts)) [
          | inl v ↦ rw v (add_draft-IsStored r (lookup r.ruleset_id s.rulesets) s h)
          | inr v ↦ rw v h
        ]

  promote-IsStored :
      (authorize : Authorize) (p : Promotion) (s : Registry)
      → IsStored s
      → IsStored (promote k authorize p s).1
  unfolding promote
  promote-IsStored authorize p s h =
      elim (Bool-cases (req_str p.actor 256 true && k.is_datetime p.ts)) [
        | inl v ↦ rw v (promote_row-IsStored authorize p (lookup p.ruleset_id s.rulesets) s refl h)
        | inr v ↦ rw v h
      ]

  execute_all-IsStored :
      (authorize : Authorize) (s : Registry) (calls : List Call)
      → IsStored s
      → IsStored (execute_all k authorize s calls)
  unfolding execute_all execute
  execute_all-IsStored authorize s [] h = h
  execute_all-IsStored authorize s (registration r ∷ calls) h =
      execute_all-IsStored authorize (register_draft k r s).1 calls (register_draft-IsStored r s h)
  execute_all-IsStored authorize s (promotion p ∷ calls) h =
      execute_all-IsStored authorize (promote k authorize p s).1 calls
        (promote-IsStored authorize p s h)

  empty_registry-IsStored : IsStored empty_registry
  unfolding lookup
  empty_registry-IsStored = record {
    digests = λ key bytes e. absurd (none-some_absurd e);
    present = λ id row e. absurd (none-some_absurd e);
  }

  -- After any calls on an empty registry every ruleset that is there loads, whatever its status,
  -- and the bytes have the digest in its row.
  pub load_bytes-execute_all :
      (authorize : Authorize) (calls : List Call) (id : String) (row : Ruleset)
      → lookup id (execute_all k authorize empty_registry calls).rulesets ≡ some row
      → (bytes : String) × (load_bytes k (execute_all k authorize empty_registry calls) id
          ≡ ok bytes)
        × (k.sha256 bytes ≡ row.sha256)
  unfolding load_bytes bytes_of verified
  load_bytes-execute_all authorize calls id row e =
      let h = execute_all-IsStored authorize empty_registry calls empty_registry-IsStored in
      let (bytes, there) = h.present id row e in
      let digest = h.digests row.sha256 bytes there in
      (bytes, rw e (rw there (rw digest (rw (same_refl row.sha256) refl))), digest)
