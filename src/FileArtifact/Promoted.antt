-- ===== src/FileArtifact/Promoted.antt =====
-- services/file-artifact/store.py: how a stored event changes the bucket.
use cernityndr.Base.{
  String, ◌≡◌, refl, ap, ◌⊎◌, inl, inr, Option, none, some, Result, ok, err, string_eq, Bool-cases,
}
use cernityndr.FileArtifact.Keys.{accepted_key, key_tenant_segment, after_slash}
use cernityndr.FileArtifact.Archive.{Bytes, PolicyError}
use cernityndr.FileArtifact.Store.{
  Platform, Event, World, Artifact, text_or_empty, artifact_of, vet, put_new, promote, accept,
  store_fetched, store_scoped, store, creates_object, say, kept,
}

module _ {B : Type 0} (p : Platform B) where
  -- A put, by the event that led to it: the key is of the source's tenant and of the bytes' digest.
  unfoldable pub IsPromoted : (String → Option Bytes) → Event → B → B → Type 0
  IsPromoted fetch ev b c =
      (tseg : String) × (bytes : Bytes) × (key_tenant_segment (text_or_empty ev.object_ref)
          p.bucket_name
        ≡ some tseg)
      × (fetch (text_or_empty ev.object_ref) ≡ some bytes)
      × (vet p ev bytes ≡ ok tt)
      × (p.s3.put b (after_slash (accepted_key tseg (p.sha256 bytes) p.bucket_name)) bytes ≡ some c)

  put_new-cases :
      (src : String) (a : Artifact) (key : String) (bytes : Bytes) (o : Option B) (w : World B)
      → p.s3.put w.bucket key bytes ≡ o
      → ((put_new p src a o w).1.bucket ≡ w.bucket)
        ⊎ ((p.s3.put w.bucket key bytes ≡ some (put_new p src a o w).1.bucket)
            × ((put_new p src a o w).0 ≡ ok a))
  unfolding put_new say
  put_new-cases src a key bytes none w put = inl refl
  put_new-cases src a key bytes (some c) w put = inr (put, refl)

  promote-cases :
      (src : String) (a : Artifact) (bytes : Bytes) (w : World B)
      → ((promote p src a bytes w).1.bucket ≡ w.bucket)
        ⊎ ((p.s3.put w.bucket (after_slash a.object_ref) bytes
              ≡ some (promote p src a bytes w).1.bucket)
            × ((promote p src a bytes w).0 ≡ ok a))
  unfolding promote say
  promote-cases src a bytes w = elim (Bool-cases (p.s3.head w.bucket (after_slash a.object_ref))) [
    | inl h ↦ rw h (inl refl)
    | inr h ↦ rw h (
        put_new-cases src a (after_slash a.object_ref) bytes
          (p.s3.put w.bucket (after_slash a.object_ref) bytes) w refl)
  ]

  accept-cases :
      (fetch : String → Option Bytes) (ev : Event) (tseg : String) (bytes : Bytes)
      (r : Result PolicyError Unit) (w : World B)
      → key_tenant_segment (text_or_empty ev.object_ref) p.bucket_name ≡ some tseg
      → fetch (text_or_empty ev.object_ref) ≡ some bytes
      → vet p ev bytes ≡ r
      → ((accept p ev tseg bytes r w).1.bucket ≡ w.bucket)
        ⊎ (IsPromoted fetch ev w.bucket (accept p ev tseg bytes r w).1.bucket
            × ((a : Artifact) × ((accept p ev tseg bytes r w).0 ≡ ok a)))
  unfolding accept say IsPromoted
  accept-cases fetch ev tseg bytes (err e) w x y z = inl refl
  accept-cases fetch ev tseg bytes (ok u) w x y z =
      let a = artifact_of p ev tseg bytes (accepted_key tseg (p.sha256 bytes) p.bucket_name) in
      elim (promote-cases (text_or_empty ev.object_ref) a bytes w) [
        | inl same ↦ inl same
        | inr (put, returned) ↦ inr ((tseg, bytes, x, y, z, put), (a, returned))
      ]

  store_scoped-cases :
      (fetch : String → Option Bytes) (ev : Event) (tseg : Option String) (o : Option Bytes)
      (w : World B)
      → key_tenant_segment (text_or_empty ev.object_ref) p.bucket_name ≡ tseg
      → fetch (text_or_empty ev.object_ref) ≡ o
      → ((store_scoped p ev tseg o w).1.bucket ≡ w.bucket)
        ⊎ (IsPromoted fetch ev w.bucket (store_scoped p ev tseg o w).1.bucket
            × ((a : Artifact) × ((store_scoped p ev tseg o w).0 ≡ ok (some a))))
  unfolding store_scoped store_fetched say
  store_scoped-cases fetch ev none o w x y = inl refl
  store_scoped-cases fetch ev (some tseg) none w x y = inl refl
  store_scoped-cases fetch ev (some tseg) (some bytes) w x y =
      elim (accept-cases fetch ev tseg bytes (vet p ev bytes) _ x y refl) [
        | inl same ↦ inl same
        | inr (promoted, (a, returned)) ↦ inr (promoted, (a, ap kept returned))
      ]

  -- A stored event changes the bucket only by one put, and then returns the artifact: the source
  -- key carries a tenant's segment, its bytes were fetched and passed every check, and the key of
  -- the put is made of that segment and the digest of the bytes. On every other path, each error
  -- included, the bucket is as before.
  pub store-IsPromoted :
      (fetch : String → Option Bytes) (ev : Event) (w : World B)
      → ((store p fetch ev w).1.bucket ≡ w.bucket)
        ⊎ (IsPromoted fetch ev w.bucket (store p fetch ev w).1.bucket
            × ((a : Artifact) × ((store p fetch ev w).0 ≡ ok (some a))))
  unfolding store say
  store-IsPromoted fetch ev w = elim (Bool-cases (creates_object ev)) [
    | inr h ↦ rw h (inl refl)
    | inl h ↦ rw h (
        store_scoped-cases fetch ev (key_tenant_segment (text_or_empty ev.object_ref) p.bucket_name)
          (fetch (text_or_empty ev.object_ref)) w refl refl)
  ]
