-- ===== src/SensorRegistry/Ingest.antt =====
-- services/sensor-registry: what a heartbeat may change, and what stands in a registry whose
-- producers are verified.
use cernityndr.Base.{
  ℕ, String, ◌≡◌, refl, sym, ap, ◌∙◌, subst, inl, inr, Bool, Option, none, some, List, [], ◌∷◌,
  eq_iff, ◌==◌, string_eq, Bool-cases, lookup, insert, lookup-insert,
}
use cernityndr.SensorRegistry.{
  Heartbeat, Enrollments, Sensor, Reading, well_formed, Registry, new_sensor, refreshed, store_row,
  upsert_reading, upsert_heartbeat, verify_producer, Message, admit, ingest, ingest_loop,
}

inj_some : {A : Type 0} {x y : A} → some x ≡ some y → x ≡ y
inj_some h = cc

module _ {F : Type 0} where
  -- The tenant and what only an enrollment may set.
  pub SameOwner : Sensor F → Sensor F → Type 0
  SameOwner a b =
      (b.tenant ≡ a.tenant)
      × (b.tags ≡ a.tags)
      × (b.groups ≡ a.groups)
      × (b.capabilities ≡ a.capabilities)
      × (b.cert_fingerprint ≡ a.cert_fingerprint)

  SameOwner-refl : (a : Sensor F) → SameOwner a a
  unfolding SameOwner
  SameOwner-refl a = (refl, refl, refl, refl, refl)

  SameOwner-trans : (a b c : Sensor F) → SameOwner a b → SameOwner b c → SameOwner a c
  unfolding SameOwner
  SameOwner-trans a b c (p, q, r, s, t) (u, v, w, x, y) = (u ∙ p, v ∙ q, w ∙ r, x ∙ s, y ∙ t)

  -- Each sensor of `s` is in `t`, with its owner.
  pub OwnersKept : Registry F → Registry F → Type 0
  OwnersKept s t =
      (id : String) (row : Sensor F)
      → lookup id s ≡ some row
      → (new : Sensor F) × (lookup id t ≡ some new) × SameOwner row new

  OwnersKept-refl : (s : Registry F) → OwnersKept s s
  unfolding OwnersKept
  OwnersKept-refl s id row p = (row, p, SameOwner-refl row)

  OwnersKept-trans : (s t u : Registry F) → OwnersKept s t → OwnersKept t u → OwnersKept s u
  unfolding OwnersKept
  OwnersKept-trans s t u h k id row p =
      let (a, q, x) = h id row p in let (b, r, y) = k id a q in (b, r, SameOwner-trans row a b x y)

  OwnersKept-insert :
      (s : Registry F) (key : String) (new : Sensor F)
      → ((old : Sensor F) → lookup key s ≡ some old → SameOwner old new)
      → OwnersKept s (insert key new s)
  unfolding OwnersKept
  OwnersKept-insert s key new h id row p = elim (Bool-cases (key == id)) [
    | inl q ↦ (
      new,
      lookup-insert key id new s ∙ rw q refl,
      h row (ap (λ i. lookup i s) ((eq_iff key id).0 q) ∙ p),
    )
    | inr q ↦ (row, lookup-insert key id new s ∙ rw q p, SameOwner-refl row)
  ]

  store_row-OwnersKept :
      (verified : Bool) (at : ℕ) (r : Reading F) (o : Option (Sensor F)) (s : Registry F)
      → lookup r.sensor_uuid s ≡ o
      → OwnersKept s (store_row verified at r o s).1
  unfolding store_row SameOwner
  store_row-OwnersKept verified at r none s p =
      OwnersKept-insert s r.sensor_uuid (new_sensor verified at r) (λ old q. absurd cc)
  store_row-OwnersKept verified at r (some row) s p = elim (Bool-cases (row.tenant == r.tenant)) [
    | inr h ↦ rw h (OwnersKept-refl s)
    | inl h ↦ rw h (
        OwnersKept-insert s r.sensor_uuid (refreshed verified at r row) (λ old q.
          subst (λ x. SameOwner x (refreshed verified at r row)) (inj_some (sym p ∙ q))
            (sym ((eq_iff row.tenant r.tenant).0 h), refl, refl, refl, refl)))
  ]

  upsert_reading-OwnersKept :
      (verified : Bool) (at : ℕ) (o : Option (Reading F)) (s : Registry F)
      → OwnersKept s (upsert_reading verified at o s).1
  unfolding upsert_reading
  upsert_reading-OwnersKept verified at none s = OwnersKept-refl s
  upsert_reading-OwnersKept verified at (some r) s =
      store_row-OwnersKept verified at r (lookup r.sensor_uuid s) s refl

  admit-OwnersKept :
      (v : Option Bool) (at : ℕ) (h : Heartbeat F) (s : Registry F) → OwnersKept s (admit v at h s)
  unfolding admit upsert_heartbeat
  admit-OwnersKept none at h s = OwnersKept-refl s
  admit-OwnersKept (some v) at h s = upsert_reading-OwnersKept v at (well_formed h) s

  ingest-OwnersKept :
      (enrollment : Option Enrollments) (msg : Message F) (s : Registry F)
      → OwnersKept s (ingest enrollment msg s)
  unfolding ingest
  ingest-OwnersKept enrollment msg s = go msg.value
    where
      go :
          (o : Option (Heartbeat F)) → OwnersKept s (ingest enrollment (record msg { value = o }) s)
      go none = OwnersKept-refl s
      go (some h) =
          admit-OwnersKept (verify_producer enrollment msg.principal h) msg.received_at h s

  -- Whatever messages come, from verified producers or not, a sensor of the registry stays in it
  -- under its tenant, and heartbeats change none of its tags, groups, capabilities and certificate.
  pub ingest_loop-OwnersKept :
      (enrollment : Option Enrollments) (msgs : List (Message F)) (s : Registry F)
      → OwnersKept s (ingest_loop enrollment msgs s)
  unfolding ingest_loop
  ingest_loop-OwnersKept enrollment [] s = OwnersKept-refl s
  ingest_loop-OwnersKept enrollment (msg ∷ msgs) s =
      OwnersKept-trans s (ingest enrollment msg s)
        (ingest_loop enrollment msgs (ingest enrollment msg s)) (ingest-OwnersKept enrollment msg s)
        (ingest_loop-OwnersKept enrollment msgs (ingest enrollment msg s))
