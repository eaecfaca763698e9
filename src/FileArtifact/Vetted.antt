-- ===== src/FileArtifact/Vetted.antt =====
-- services/file-artifact/store.py: what is served was checked, and belongs to the caller.
use mathlib.Core.Bool.{true≢false}
use Prim.Native.Char.{code}
use Prim.Native.String.{◌++◌ as ◌+++◌}
use text.Mathlib.Text.{starts_with}
use text.Mathlib.TextEquality.{starts_with_iff}
use text.Mathlib.TextLemmas.{append_assoc, nil-append, cons-append}
use cernityndr.Base.{
  ℕ, String, ◌≡◌, refl, sym, ap, ◌∙◌, subst, ◌⊎◌, inl, inr, Bool, true, false, not, ◌||◌, Option,
  none, some, [], ◌∷◌, zero, suc, Result, ok, err, ltb, leb, nat_eq, arith, if◌then◌else◌, ◌==◌,
  string_eq, eq_iff, Bool-cases, err-ok_absurd, guard-ok, take, length, Table,
}
use cernityndr.FileArtifact.Keys.{
  tenant_segment, accepted_key, in_accepted_namespace, after_slash, last_segment,
}
use cernityndr.FileArtifact.Archive.{Bytes, PolicyError, validate_archive}
use cernityndr.FileArtifact.Store.{
  Object, Platform, Event, World, StoreError, Artifact, Grant, text_or_empty, artifact_of,
  announced, vet, put_new, promote, accept, store_fetched, store_scoped, store, creates_object,
  expired, opened, read_object, may_read, told, retrieve_as, retrieve, grant_of, say, kept,
  expired_object, over_budget, bad_length, digest_mismatch,
}

-- A key `<tenant segment>/artifacts/<rest>` of the bucket.
unfoldable pub IsServed : String → Type 0
IsServed key = (tseg rest : String) × (key ≡ tseg +++ "/artifacts/" +++ rest)

unfoldable pub has_slash : String → Bool
has_slash String.[] = false
has_slash (String.◌∷◌ c s) = nat_eq (code c) 47 || has_slash s

after_slash-append : (s t : String) → has_slash s ≡ false → after_slash (s +++ "/" +++ t) ≡ t
unfolding after_slash has_slash
after_slash-append String.[] t h =
    rw (nil-append ("/" +++ t)) (rw (cons-append "/" "" t) (rw (nil-append t) refl))
after_slash-append (String.◌∷◌ c s) t h =
    let other : nat_eq (code c) 47 ≡ false = ground (arith, h) in
    let plain : has_slash s ≡ false = ground (arith, h) in
    rw (cons-append c s ("/" +++ t)) (rw other (after_slash-append s t plain))

ok-path : {x y : Bytes} → Path (Result StoreError Bytes) (ok x) (ok y) → x ≡ y
ok-path h = cc

after_slash-served :
    (bucket tseg ref : String)
    → has_slash bucket ≡ false
    → starts_with ref (bucket +++ "/" +++ tseg +++ "/artifacts/") ≡ true
    → (rest : String) × (after_slash ref ≡ tseg +++ "/artifacts/" +++ rest)
after_slash-served bucket tseg ref plain h =
    let (rest, e) = (starts_with_iff ref (bucket +++ "/" +++ tseg +++ "/artifacts/")).0 h in
    (
      rest,
      ap after_slash (
            sym e
            ∙ append_assoc bucket ("/" +++ tseg +++ "/artifacts/") rest
            ∙ ap (λ s. bucket +++ s)
                (append_assoc "/" (tseg +++ "/artifacts/") rest
                  ∙ ap (λ s. "/" +++ s) (append_assoc tseg "/artifacts/" rest)))
          ∙ after_slash-append bucket (tseg +++ "/artifacts/" +++ rest) plain,
    )

module _ {B : Type 0} (p : Platform B) where
  -- What S3 documents: after a put the key holds the new bytes, and no other key is changed.
  unfoldable pub IsFaithful : Type 0
  IsFaithful =
      (b c : B) (key other : String) (bytes : Bytes) (obj : Object)
      → p.s3.put b key bytes ≡ some c
      → p.s3.get c other ≡ some obj
      → ((key ≡ other) × (obj.body ≡ bytes)) ⊎ (p.s3.get b other ≡ some obj)

  -- How the bucket changes: an event is stored, a sensor uploads under a key that is not served,
  -- or the lifecycle deletes objects.
  pub data Reach (start : B) : B → Type 0 where
    begun : Reach start start
    ingested :
        (w : World B) (fetch : String → Option Bytes) (ev : Event)
        → Reach start w.bucket
        → Reach start (store p fetch ev w).1.bucket
    uploaded :
        {b c : B} (key : String) (bytes : Bytes)
        → Reach start b
        → (IsServed key → ⊥)
        → p.s3.put b key bytes ≡ some c
        → Reach start c
    swept :
        {b c : B}
        → Reach start b
        → ((key : String) (obj : Object) → p.s3.get c key ≡ some obj → p.s3.get b key ≡ some obj)
        → Reach start c

  unfoldable pub IsChecked : Bytes → Type 0
  IsChecked bytes =
      (leb (length bytes) p.max_file_size ≡ true)
      × (validate_archive p.zipfile p.max_file_size p.max_archive_depth bytes ≡ ok tt)

  -- Every object under a served key has bytes that passed the checks.
  unfoldable pub IsVetted : B → Type 0
  IsVetted b =
      (key : String) (obj : Object) → IsServed key → p.s3.get b key ≡ some obj → IsChecked obj.body

  announced-ok :
      (bytes : Bytes) (digest : String) (r : Result PolicyError Unit)
      → announced p bytes digest r ≡ ok tt
      → r ≡ ok tt
  unfolding announced
  announced-ok bytes digest (ok u) h = refl
  announced-ok bytes digest (err e) h = absurd (err-ok_absurd h)

  vet-IsChecked : (ev : Event) (bytes : Bytes) → vet p ev bytes ≡ ok tt → IsChecked bytes
  unfolding vet IsChecked
  vet-IsChecked ev bytes h = elim (Bool-cases (ltb p.max_file_size (length bytes))) [
    | inl a ↦ absurd (err-ok_absurd (rw a at h))
    | inr a ↦ (
      ground (arith, a),
      announced-ok bytes (p.lower (text_or_empty ev.sha256))
          (validate_archive p.zipfile p.max_file_size p.max_archive_depth bytes) (rw a at h),
    )
  ]

  module _ (faithful : IsFaithful) where
    put-IsVetted :
        (b c : B) (key : String) (bytes : Bytes)
        → IsVetted b
        → IsChecked bytes
        → p.s3.put b key bytes ≡ some c
        → IsVetted c
    unfolding IsVetted IsFaithful
    put-IsVetted b c key bytes v checked put other obj served got =
        elim (faithful b c key other bytes obj put got) [
          | inl (e, body) ↦ subst IsChecked (sym body) checked
          | inr before ↦ v other obj served before
        ]

    put_new-IsVetted :
        (src : String) (a : Artifact) (key : String) (bytes : Bytes) (o : Option B) (w : World B)
        → p.s3.put w.bucket key bytes ≡ o
        → IsChecked bytes
        → IsVetted w.bucket
        → IsVetted (put_new p src a o w).1.bucket
    unfolding put_new say
    put_new-IsVetted src a key bytes none w put checked v = v
    put_new-IsVetted src a key bytes (some c) w put checked v =
        put-IsVetted w.bucket c key bytes v checked put

    promote-IsVetted :
        (src : String) (a : Artifact) (bytes : Bytes) (w : World B)
        → IsChecked bytes
        → IsVetted w.bucket
        → IsVetted (promote p src a bytes w).1.bucket
    unfolding promote say
    promote-IsVetted src a bytes w checked v =
        elim (Bool-cases (p.s3.head w.bucket (after_slash a.object_ref))) [
          | inl h ↦ rw h v
          | inr h ↦
              rw h (put_new-IsVetted src a (after_slash a.object_ref) bytes _ w refl checked v)
        ]

    accept-IsVetted :
        (ev : Event) (tseg : String) (bytes : Bytes) (r : Result PolicyError Unit) (w : World B)
        → vet p ev bytes ≡ r
        → IsVetted w.bucket
        → IsVetted (accept p ev tseg bytes r w).1.bucket
    unfolding accept say
    accept-IsVetted ev tseg bytes (err e) w q v = v
    accept-IsVetted ev tseg bytes (ok u) w q v =
        promote-IsVetted (text_or_empty ev.object_ref)
          (artifact_of p ev tseg bytes (accepted_key tseg (p.sha256 bytes) p.bucket_name)) bytes w
          (vet-IsChecked ev bytes q) v

    store_fetched-IsVetted :
        (ev : Event) (tseg : String) (o : Option Bytes) (w : World B)
        → IsVetted w.bucket
        → IsVetted (store_fetched p ev tseg o w).1.bucket
    unfolding store_fetched say
    store_fetched-IsVetted ev tseg none w v = v
    store_fetched-IsVetted ev tseg (some bytes) w v =
        accept-IsVetted ev tseg bytes (vet p ev bytes) w refl v

    store_scoped-IsVetted :
        (ev : Event) (tseg : Option String) (o : Option Bytes) (w : World B)
        → IsVetted w.bucket
        → IsVetted (store_scoped p ev tseg o w).1.bucket
    unfolding store_scoped say
    store_scoped-IsVetted ev none o w v = v
    store_scoped-IsVetted ev (some tseg) o w v =
        store_fetched-IsVetted ev tseg o (say p _ (text_or_empty ev.object_ref) none w) v

    store-IsVetted :
        (fetch : String → Option Bytes) (ev : Event) (w : World B)
        → IsVetted w.bucket
        → IsVetted (store p fetch ev w).1.bucket
    unfolding store say
    store-IsVetted fetch ev w v = elim (Bool-cases (creates_object ev)) [
      | inr h ↦ rw h v
      | inl h ↦ rw h (store_scoped-IsVetted ev _ _ w v)
    ]

    Reach-IsVetted : {b c : B} → Reach b c → IsVetted b → IsVetted c
    unfolding IsVetted IsFaithful
    Reach-IsVetted begun v = v
    Reach-IsVetted (ingested w fetch ev r) v = store-IsVetted fetch ev w (Reach-IsVetted r v)
    Reach-IsVetted (uploaded {b = b} {c = c} key bytes r staged put) v = λ other obj served got.
        elim (faithful b c key other bytes obj put got) [
          | inl (e, body) ↦ absurd (staged (subst IsServed (sym e) served))
          | inr before ↦ Reach-IsVetted r v other obj served before
        ]
    Reach-IsVetted (swept r kept) v =
        λ key obj served got. Reach-IsVetted r v key obj served (kept key obj got)

  take-short :
      (n : ℕ) (xs : Bytes) → ltb n (length (take (suc n) xs)) ≡ false → take (suc n) xs ≡ xs
  take-short n [] h = refl
  take-short zero (x ∷ xs) h = absurd (true≢false h)
  take-short (suc n) (x ∷ xs) h = ap (◌∷◌ x) (take-short n xs (ground (arith, h)))

  -- What an object that is opened is.
  unfoldable pub IsOpened : String → ℕ → ℕ → Object → Bytes → Type 0
  IsOpened key max_size now obj bytes =
      (bytes ≡ obj.body)
      × (expired p obj.last_modified now ≡ false)
      × (leb (length bytes) max_size ≡ true)
      × (p.sha256 bytes ≡ last_segment key)

  opened-IsOpened :
      (key : String) (max_size now : ℕ) (obj : Object) (bytes : Bytes)
      → opened p key max_size now obj ≡ ok bytes
      → IsOpened key max_size now obj bytes
  unfolding opened IsOpened
  opened-IsOpened key max_size now obj bytes h =
      let read = take (suc max_size) obj.body in
      let (a, h1) =
        guard-ok (expired p obj.last_modified now) expired_object
          (if ltb max_size obj.content_length
            then err over_budget
            else (if ltb max_size (length read) || not (nat_eq (length read) obj.content_length)
                then err bad_length
                else (if not (p.sha256 read == last_segment key)
                    then err digest_mismatch
                    else ok read)))
          h in
      let (b, h2) =
        guard-ok (ltb max_size obj.content_length) over_budget
          (if ltb max_size (length read) || not (nat_eq (length read) obj.content_length)
            then err bad_length
            else (if not (p.sha256 read == last_segment key) then err digest_mismatch else ok read))
          h1 in
      let (c, h3) =
        guard-ok (ltb max_size (length read) || not (nat_eq (length read) obj.content_length))
          bad_length
          (if not (p.sha256 read == last_segment key) then err digest_mismatch else ok read) h2 in
      let (d, h4) =
        guard-ok (not (p.sha256 read == last_segment key)) digest_mismatch (ok read) h3 in
      let same : read ≡ bytes = ok-path h4 in
      (
        sym same ∙ take-short max_size obj.body (ground (arith, c)),
        a,
        subst (λ xs. leb (length xs) max_size ≡ true) same (ground (arith, c)),
        ap p.sha256 (sym same) ∙ (eq_iff (p.sha256 read) (last_segment key)).0 (ground (arith, d)),
      )

  read_object-IsOpened :
      (key : String) (max_size now : ℕ) (o : Option Object) (bytes : Bytes)
      → read_object p key max_size now o ≡ ok bytes
      → (obj : Object) × (o ≡ some obj) × IsOpened key max_size now obj bytes
  unfolding read_object
  read_object-IsOpened key max_size now none bytes h = absurd (err-ok_absurd h)
  read_object-IsOpened key max_size now (some obj) bytes h =
      (obj, refl, opened-IsOpened key max_size now obj bytes h)

  told-ok :
      (ref : String) (actor : Option String) (r : Result StoreError Bytes) (w : World B)
      (bytes : Bytes)
      → (told p ref actor r w).0 ≡ ok bytes
      → r ≡ ok bytes
  unfolding told
  told-ok ref actor (ok found) w bytes h = h
  told-ok ref actor (err e) w bytes h = h

  retrieve_as-IsOpened :
      (o : Option Grant) (ref : String) (max_size now : ℕ) (w : World B) (bytes : Bytes)
      → (retrieve_as p o ref max_size now w).0 ≡ ok bytes
      → (g : Grant) × (o ≡ some g)
        × (may_read p g ref ≡ true)
        × (obj : Object) × (p.s3.get w.bucket (after_slash ref) ≡ some obj)
        × IsOpened (after_slash ref) max_size now obj bytes
  unfolding retrieve_as
  retrieve_as-IsOpened none ref max_size now w bytes h = absurd (err-ok_absurd h)
  retrieve_as-IsOpened (some g) ref max_size now w bytes h = elim (Bool-cases (may_read p g ref)) [
    | inr a ↦ absurd (err-ok_absurd (rw a at h))
    | inl a ↦
        let (obj, got, found) =
          read_object-IsOpened (after_slash ref) max_size now (p.s3.get w.bucket (after_slash ref))
            bytes
            (told-ok ref (some g.actor)
              (read_object p (after_slash ref) max_size now (p.s3.get w.bucket (after_slash ref))) _
              bytes (rw a at h)) in
        (g, refl, a, obj, got, found)
  ]

  may_read-IsServed :
      (g : Grant) (ref : String)
      → has_slash p.bucket_name ≡ false
      → may_read p g ref ≡ true
      → (rest : String) × (after_slash ref
          ≡ tenant_segment p.sha256_text g.tenant_id +++ "/artifacts/" +++ rest)
  unfolding may_read in_accepted_namespace
  may_read-IsServed g ref plain h =
      after_slash-served p.bucket_name (tenant_segment p.sha256_text g.tenant_id) ref plain
        (ground (arith, h))

  -- Whatever events were stored, files uploaded and objects swept on a bucket with nothing under
  -- a served key that was not checked, bytes that a retrieval returns were checked: their size
  -- and, if they are an archive, everything in it. The caller's token grants reading, and the key
  -- stands in the served namespace of the token's tenant. The bytes are the whole body of the
  -- object under that key, which is within retention, they fit the caller's size limit, and their
  -- digest is the last part of the key. The name of the bucket has no slash, and the object store
  -- keeps what it documents.
  pub retrieve-IsChecked :
      (start : B) (w : World B) (tokens : Table Grant) (auth_header : Option String) (ref : String)
      (max_size now : ℕ) (bytes : Bytes)
      → IsFaithful
      → has_slash p.bucket_name ≡ false
      → IsVetted start
      → Reach start w.bucket
      → (retrieve p tokens auth_header ref max_size now w).0 ≡ ok bytes
      → IsChecked bytes
        × ((g : Grant) × (grant_of tokens auth_header ≡ some g)
            × (g.file_read ≡ true)
            × (in_accepted_namespace ref (tenant_segment p.sha256_text g.tenant_id) p.bucket_name
                ≡ true))
        × ((obj : Object) × (p.s3.get w.bucket (after_slash ref) ≡ some obj)
            × (bytes ≡ obj.body)
            × (expired p obj.last_modified now ≡ false)
            × (leb (length bytes) max_size ≡ true))
        × (p.sha256 bytes ≡ last_segment (after_slash ref))
  unfolding retrieve IsVetted IsServed IsOpened
  retrieve-IsChecked start w tokens auth_header ref max_size now bytes faithful plain v reach h =
      let (g, granted, may, obj, got, found) =
        retrieve_as-IsOpened (grant_of tokens auth_header) ref max_size now w bytes h in
      let (same, young, small, digest) = found in
      let (rest, place) = may_read-IsServed g ref plain may in
      let vetted = Reach-IsVetted faithful reach v in
      (
        subst IsChecked (sym same) (
            vetted (after_slash ref) obj (tenant_segment p.sha256_text g.tenant_id, rest, place)
              got),
        (
          g,
          granted,
          unfold may_read in ground (arith, may),
          unfold may_read in ground (arith, may),
        ),
        (obj, got, same, young, small),
        digest,
      )
