-- ===== src/SensorRegistry/Vouched.antt =====
-- services/sensor-registry/app.py: the ingest loop with an enrollment store.
use cernityndr.Base.{
  ℕ, String, ◌≡◌, refl, sym, ap, ◌∙◌, subst, inl, inr, Bool, true, false, Option, none, some, List,
  [], ◌∷◌, eq_iff, if◌then◌else◌, ◌==◌, string_eq, Bool-cases, lookup, insert, lookup-insert,
}
use cernityndr.SensorRegistry.{
  Field, present, absent, wrong, Heartbeat, Enrollments, verifies, Sensor, Reading, text_of,
  required_of, nullable_of, is_field, ◌>>=◌, well_formed, Registry, new_sensor, refreshed,
  store_row, upsert_reading, upsert_heartbeat, verify_producer, Message, admit, ingest, ingest_loop,
}
use cernityndr.SensorRegistry.Enrollment.{verifies-binding}

-- What holds of the value, if there is one.
OnSome : {A : Type 0} → (A → Type 0) → Option A → Type 0
OnSome P none = Unit {0}
OnSome P (some a) = P a

OnSome-bind :
    {A B : Type 0} (P : B → Type 0) (o : Option A) (f : A → Option B)
    → ((a : A) → o ≡ some a → OnSome P (f a))
    → OnSome P (o >>= f)
unfolding OnSome
OnSome-bind P none f h = tt
OnSome-bind P (some a) f h = h a refl

text_of-present : (f : Field String) (t : String) → text_of f ≡ some t → f ≡ present t
text_of-present absent t p = absurd cc
text_of-present wrong t p = absurd cc
text_of-present (present a) t p = go (a == "") p
  where
    go : (b : Bool) → (if b then none else some a) ≡ some t → present a ≡ present t
    go true q = absurd cc
    go false q = cc

module _ {F : Type 0} where
  Claims : Heartbeat F → Reading F → Type 0
  Claims h r = (h.sensor_uuid ≡ present r.sensor_uuid) × (h.tenant ≡ present r.tenant)

  well_formed-Claims : (h : Heartbeat F) → OnSome (Claims h) (well_formed h)
  unfolding well_formed OnSome Claims
  well_formed-Claims h = elim (Bool-cases (is_field h.schema_version "sensor-health.v1")) [
    | inr q ↦ rw q tt
    | inl q ↦ rw q (
        OnSome-bind (Claims h) (text_of h.sensor_uuid) _ (λ u p.
          OnSome-bind (Claims h) (text_of h.tenant) _ (λ t q2.
            OnSome-bind (Claims h) (text_of h.site) _ (λ s _.
              OnSome-bind (Claims h) (text_of h.observed_at) _ (λ o _.
                OnSome-bind (Claims h) (required_of h.versions) _ (λ v _.
                  OnSome-bind (Claims h) (nullable_of h.clock_offset_ms) _ (λ c _.
                    OnSome-bind (Claims h) (nullable_of h.clock_status) _ (λ k _.
                      (text_of-present h.sensor_uuid u p, text_of-present h.tenant t q2)))))))))
  ]

  -- Each row is verified, and a principal is enrolled for its sensor and tenant.
  unfoldable pub IsVouched : Enrollments → Registry F → Type 0
  IsVouched enrollment s =
      (id : String) (row : Sensor F)
      → lookup id s ≡ some row
      → (row.producer_verified ≡ true)
        × ((p : String) × (lookup p enrollment
              ≡ some (record { sensor_uuid = id; tenant = row.tenant })))

  insert-IsVouched :
      (enrollment : Enrollments) (s : Registry F) (key : String) (new : Sensor F)
      → IsVouched enrollment s
      → new.producer_verified ≡ true
      → ((p : String) × (lookup p enrollment
            ≡ some (record { sensor_uuid = key; tenant = new.tenant })))
      → IsVouched enrollment (insert key new s)
  unfolding IsVouched
  insert-IsVouched enrollment s key new h v (p, b) id row q = elim (Bool-cases (key == id)) [
    | inr d ↦ h id row (sym (lookup-insert key id new s ∙ rw d refl) ∙ q)
    | inl d ↦
        let same : some new ≡ some row = sym (lookup-insert key id new s ∙ rw d refl) ∙ q in
        let e : new ≡ row = cc in
        subst
          (λ (x : Sensor F).
            (x.producer_verified ≡ true)
            × ((p : String) × (lookup p enrollment
                  ≡ some (record { sensor_uuid = id; tenant = x.tenant }))))
          e
          (
            v,
            (
              p,
              b
                  ∙ ap (λ i. some (record { sensor_uuid = i; tenant = new.tenant }))
                      ((eq_iff key id).0 d),
            ),
          )
  ]

  store_row-IsVouched :
      (enrollment : Enrollments) (at : ℕ) (r : Reading F) (o : Option (Sensor F)) (s : Registry F)
      → IsVouched enrollment s
      → ((p : String) × (lookup p enrollment
            ≡ some (record { sensor_uuid = r.sensor_uuid; tenant = r.tenant })))
      → IsVouched enrollment (store_row true at r o s).1
  unfolding store_row
  store_row-IsVouched enrollment at r none s h b =
      insert-IsVouched enrollment s r.sensor_uuid (new_sensor true at r) h refl b
  store_row-IsVouched enrollment at r (some row) s h b =
      elim (Bool-cases (row.tenant == r.tenant)) [
        | inr d ↦ rw d h
        | inl d ↦
            rw d (insert-IsVouched enrollment s r.sensor_uuid (refreshed true at r row) h refl b)
      ]

  upsert_reading-IsVouched :
      (enrollment : Enrollments) (principal : Option String) (at : ℕ) (h : Heartbeat F)
      (o : Option (Reading F)) (s : Registry F)
      → OnSome (Claims h) o
      → verifies enrollment principal h.sensor_uuid h.tenant ≡ true
      → IsVouched enrollment s
      → IsVouched enrollment (upsert_reading true at o s).1
  unfolding upsert_reading OnSome Claims
  upsert_reading-IsVouched enrollment principal at h none s c v k = k
  upsert_reading-IsVouched enrollment principal at h (some r) s (a, b) v k =
      let claim : verifies enrollment principal (present r.sensor_uuid) (present r.tenant) ≡ true =
        ap (λ x. verifies enrollment principal x (present r.tenant)) (sym a)
        ∙ ap (verifies enrollment principal h.sensor_uuid) (sym b)
        ∙ v in
      let (p, _, bound) = verifies-binding enrollment principal r.sensor_uuid r.tenant claim in
      store_row-IsVouched enrollment at r (lookup r.sensor_uuid s) s k (p, bound)

  ingest-IsVouched :
      (enrollment : Enrollments) (msg : Message F) (s : Registry F)
      → IsVouched enrollment s
      → IsVouched enrollment (ingest (some enrollment) msg s)
  unfolding ingest
  ingest-IsVouched enrollment msg s k = go msg.value
    where
      go :
          (o : Option (Heartbeat F))
          → IsVouched enrollment (ingest (some enrollment) (record msg { value = o }) s)
      go none = k
      go (some h) = elim (Bool-cases (verifies enrollment msg.principal h.sensor_uuid h.tenant)) [
        | inr v ↦ unfold verify_producer in unfold admit in rw v k
        | inl v ↦
            unfold verify_producer in
            unfold admit in
            unfold upsert_heartbeat in
            rw v (
              upsert_reading-IsVouched enrollment msg.principal msg.received_at h (well_formed h) s
                (well_formed-Claims h) v k)
      ]

  -- With an enrollment store, through any messages: if each row of the registry is verified and its
  -- sensor and tenant are enrolled for a principal, as in an empty registry, so is each row after.
  pub ingest_loop-IsVouched :
      (enrollment : Enrollments) (msgs : List (Message F)) (s : Registry F)
      → IsVouched enrollment s
      → IsVouched enrollment (ingest_loop (some enrollment) msgs s)
  unfolding ingest_loop
  ingest_loop-IsVouched enrollment [] s k = k
  ingest_loop-IsVouched enrollment (msg ∷ msgs) s k =
      ingest_loop-IsVouched enrollment msgs (ingest (some enrollment) msg s)
        (ingest-IsVouched enrollment msg s k)
