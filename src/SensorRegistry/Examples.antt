-- ===== src/SensorRegistry/Examples.antt =====
-- Two sensors of different tenants, one of them enrolled.
use cernityndr.Base.{ℕ, ◌≡◌, refl, true, false, ◌&&◌, string_eq, none, some, List, [], ◌∷◌, lookup}
use cernityndr.SensorRegistry.{
  absent, present, Heartbeat, Enrollments, enroll, verifies, is_field, Registry, Message,
  ingest_loop, upsert_heartbeat,
}
use cernityndr.SensorRegistry.Enrollment.{verifies-enroll}
use cernityndr.SensorRegistry.Ingest.{OwnersKept, ingest_loop-OwnersKept}
use cernityndr.SensorRegistry.Vouched.{IsVouched, ingest_loop-IsVouched}

abbrev enrolled : Enrollments
enrolled = ("spiffe://a", record { sensor_uuid = "s-1"; tenant = "acme" }) ∷ []

abbrev beat : Heartbeat ℕ
beat = record {
  schema_version = present "sensor-health.v1";
  sensor_uuid = present "s-1";
  tenant = present "acme";
  site = present "berlin";
  observed_at = present "2026-01-01T00:00:00Z";
  versions = present [];
  clock_offset_ms = present 12;
  clock_status = absent;
}

abbrev forged : Heartbeat ℕ
forged = record beat { tenant = present "globex" }

abbrev messages : List (Message ℕ)
messages =
    record { principal = some "spiffe://a"; value = some beat; received_at = 100 }
    ∷ record { principal = some "spiffe://a"; value = some forged; received_at = 110 }
    ∷ record { principal = none; value = none; received_at = 120 }
    ∷ []

abbrev nobody : Registry ℕ
nobody = []

nobody-IsVouched : IsVouched enrolled nobody
unfolding IsVouched lookup
nobody-IsVouched id row p = absurd cc

-- A forged tenant does not move a sensor.
forged_refused :
    (upsert_heartbeat true 110 forged (upsert_heartbeat true 100 beat nobody).1).0 ≡ false
unfolding upsert_heartbeat lookup
forged_refused = refl

verifies-enroll_example :
    verifies
      (enroll enrolled "spiffe://a" "s-2" "acme")
      (some "spiffe://a")
      (present "s-1")
      (present "acme")
    ≡ (is_field (present "s-1") "s-2" && is_field (present "acme") "acme")
verifies-enroll_example =
    verifies-enroll enrolled "spiffe://a" "s-2" "acme" "spiffe://a" (present "s-1") (present "acme")

ingest_loop-OwnersKept_example :
    OwnersKept
      (ingest_loop none messages nobody)
      (ingest_loop none messages (ingest_loop none messages nobody))
ingest_loop-OwnersKept_example =
    ingest_loop-OwnersKept none messages (ingest_loop none messages nobody)

ingest_loop-IsVouched_example : IsVouched enrolled (ingest_loop (some enrolled) messages nobody)
ingest_loop-IsVouched_example = ingest_loop-IsVouched enrolled messages nobody nobody-IsVouched
