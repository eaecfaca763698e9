-- ===== src/SensorRegistry/Enrollment.antt =====
-- services/sensor-registry/enrollment.py: whom an enrollment lets speak for a sensor.
use cernityndr.Base.{
  String, ◌≡◌, refl, ap, ◌∙◌, Bool, true, false, not, ◌&&◌, Option, none, some, arith, eq_iff,
  if◌then◌else◌, ◌==◌, string_eq, lookup, lookup-insert,
}
use cernityndr.SensorRegistry.{
  Field, present, absent, wrong, Binding, Enrollments, enroll, verifies, binds, is_field,
}

-- After an enrollment, its principal speaks for exactly the sensor and tenant of it, whatever it
-- was enrolled for before, and what every other principal speaks for is unchanged.
pub verifies-enroll :
    (s : Enrollments) (principal sensor_uuid tenant other : String) (sensor claimed : Field String)
    → verifies (enroll s principal sensor_uuid tenant) (some other) sensor claimed ≡ (
        if principal == other
        then not (other == "") && (is_field sensor sensor_uuid && is_field claimed tenant)
        else verifies s (some other) sensor claimed)
unfolding verifies enroll
verifies-enroll s principal sensor_uuid tenant other sensor claimed =
    ap (λ o. not (other == "") && binds o sensor claimed)
      (lookup-insert principal other (record { sensor_uuid = sensor_uuid; tenant = tenant }) s)
    ∙ go (principal == other)
  where
    go :
        (b : Bool)
        → (not (other == "")
            && binds
                (if b
                  then some (record { sensor_uuid = sensor_uuid; tenant = tenant })
                  else lookup other s)
                sensor
                claimed)
          ≡ (if b
              then not (other == "") && (is_field sensor sensor_uuid && is_field claimed tenant)
              else not (other == "") && binds (lookup other s) sensor claimed)
    go true = refl
    go false = refl

is_field-present : (f : Field String) (t : String) → is_field f t ≡ true → f ≡ present t
is_field-present (present a) t h = ap present ((eq_iff a t).0 h)
is_field-present absent t h = absurd cc
is_field-present wrong t h = absurd cc

-- A claim that is verified is that of a binding of the principal.
pub verifies-binding :
    (s : Enrollments) (principal : Option String) (sensor_uuid tenant : String)
    → verifies s principal (present sensor_uuid) (present tenant) ≡ true
    → (p : String) × (principal ≡ some p)
      × (lookup p s ≡ some (record { sensor_uuid = sensor_uuid; tenant = tenant }))
unfolding verifies
verifies-binding s none sensor_uuid tenant h = absurd cc
verifies-binding s (some p) sensor_uuid tenant h = (p, refl, go (lookup p s) (ground arith))
  where
    go :
        (o : Option Binding)
        → binds o (present sensor_uuid) (present tenant) ≡ true
        → o ≡ some (record { sensor_uuid = sensor_uuid; tenant = tenant })
    go none k = absurd cc
    go (some b) k = ground (arith, eq_iff sensor_uuid b.sensor_uuid, eq_iff tenant b.tenant)
