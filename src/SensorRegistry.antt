-- ===== src/SensorRegistry.antt =====
-- services/sensor-registry: enrollment.py, store.py and the ingest loop of app.py. `F` is the type
-- of a clock offset. A field of a heartbeat is read as Python's type tests see it.
pub mod Enrollment
pub mod Ingest
pub mod Vouched
pub mod Examples
use cernityndr.Base.{
  ℕ, ◌-◌, String, Bool, true, false, not, ◌&&◌, ◌||◌, Option, none, some, List, [], ◌∷◌, ◌++◌, map,
  leb, if◌then◌else◌, ◌==◌, string_eq, contains, keep, Table, lookup, insert, order_by,
}

-- `wrong` is a value of another type, or one that SQLite cannot bind: a text that is not UTF-8, a
-- number that is not a finite double.
pub data Field (A : Type 0) : Type 0 where
  absent : Field A
  wrong : Field A
  present : A → Field A

-- sensor-health.v1
pub record Heartbeat (F : Type 0) : Type 0 where
  pub schema_version : Field String
  pub sensor_uuid : Field String
  pub tenant : Field String
  pub site : Field String
  pub observed_at : Field String
  pub versions : Field (List String)
  pub clock_offset_ms : Field F
  pub clock_status : Field String

pub record Binding : Type 0 where
  pub sensor_uuid : String
  pub tenant : String

abbrev pub Enrollments : Type 0
Enrollments = Table Binding

unfoldable pub enroll : Enrollments → String → String → String → Enrollments
unfolding insert
enroll s principal sensor_uuid tenant =
    insert principal (record { sensor_uuid = sensor_uuid; tenant = tenant }) s

abbrev pub is_field : Field String → String → Bool
is_field (present a) b = a == b
is_field _ b = false

abbrev pub binds : Option Binding → Field String → Field String → Bool
binds none sensor_uuid tenant = false
binds (some b) sensor_uuid tenant = is_field sensor_uuid b.sensor_uuid && is_field tenant b.tenant

unfoldable pub verifies : Enrollments → Option String → Field String → Field String → Bool
unfolding lookup
verifies s none sensor_uuid tenant = false
verifies s (some principal) sensor_uuid tenant =
    not (principal == "") && binds (lookup principal s) sensor_uuid tenant

-- A row of `sensors`, whose primary key is the sensor's uuid.
pub record Sensor (F : Type 0) : Type 0 where
  pub tenant : String
  pub site : String
  pub tags : List String
  pub groups : List String
  pub capabilities : List String
  pub versions : List String
  pub last_seen : String
  pub received_at : Option ℕ
  pub cert_fingerprint : Option String
  pub clock_offset_ms : Option F
  pub clock_status : Option String
  pub producer_verified : Bool

-- What a heartbeat that is well-formed holds.
pub record Reading (F : Type 0) : Type 0 where
  pub sensor_uuid : String
  pub tenant : String
  pub site : String
  pub observed_at : String
  pub versions : List String
  pub clock_offset_ms : Option F
  pub clock_status : Option String

-- A text that is there and not empty.
abbrev pub text_of : Field String → Option String
text_of (present t) = if t == "" then none else some t
text_of _ = none

abbrev pub required_of : {A : Type 0} → Field A → Option A
required_of (present a) = some a
required_of _ = none

-- A value or null.
abbrev pub nullable_of : {A : Type 0} → Field A → Option (Option A)
nullable_of absent = some none
nullable_of wrong = none
nullable_of (present a) = some (some a)

infixl 5 ◌>>=◌
abbrev pub ◌>>=◌ : {A B : Type 0} → Option A → (A → Option B) → Option B
none >>= f = none
some a >>= f = f a

module _ {F : Type 0} where
  -- `_well_formed`, with the fields that it tested.
  unfoldable pub well_formed : Heartbeat F → Option (Reading F)
  well_formed h = if not (is_field h.schema_version "sensor-health.v1") then none else do
    sensor_uuid ← text_of h.sensor_uuid
    tenant ← text_of h.tenant
    site ← text_of h.site
    observed_at ← text_of h.observed_at
    versions ← required_of h.versions
    offset ← nullable_of h.clock_offset_ms
    clock_status ← nullable_of h.clock_status
    some (record {
      sensor_uuid = sensor_uuid;
      tenant = tenant;
      site = site;
      observed_at = observed_at;
      versions = versions;
      clock_offset_ms = offset;
      clock_status = clock_status;
    })

abbrev pub or_empty : Option (List String) → List String
or_empty none = []
or_empty (some xs) = xs

-- Puts a sensor behind the members of each of its groups.
unfoldable pub add_groups : String → List String → Table (List String) → Table (List String)
unfolding lookup insert
add_groups sensor_uuid [] groups = groups
add_groups sensor_uuid (g ∷ gs) groups =
    add_groups sensor_uuid gs (insert g (or_empty (lookup g groups) ++ sensor_uuid ∷ []) groups)

-- What the API shows of a row; `row` has the columns that it copies.
pub record View (F : Type 0) : Type 0 where
  pub sensor_uuid : String
  pub row : Sensor F
  pub skew_flag : Bool
  pub status : String

abbrev pub Registry : Type 0 → Type 0
Registry F = Table (Sensor F)

module _ {F : Type 0} where
  -- INSERT: the enrollment columns take their defaults.
  abbrev pub new_sensor : Bool → ℕ → Reading F → Sensor F
  new_sensor verified received_at r = record {
    tenant = r.tenant;
    site = r.site;
    tags = [];
    groups = [];
    capabilities = [];
    versions = r.versions;
    last_seen = r.observed_at;
    received_at = some received_at;
    cert_fingerprint = none;
    clock_offset_ms = r.clock_offset_ms;
    clock_status = r.clock_status;
    producer_verified = verified;
  }

  -- ON CONFLICT DO UPDATE: the columns that it sets.
  abbrev pub refreshed : Bool → ℕ → Reading F → Sensor F → Sensor F
  refreshed verified received_at r row = record row {
    tenant = r.tenant;
    site = r.site;
    versions = r.versions;
    last_seen = r.observed_at;
    received_at = some received_at;
    clock_offset_ms = r.clock_offset_ms;
    clock_status = r.clock_status;
    producer_verified = verified;
  }

  -- Against the row that stands under the uuid.
  unfoldable pub store_row :
      Bool → ℕ → Reading F → Option (Sensor F) → Registry F → Bool × Registry F
  unfolding insert
  store_row verified at r none s = (true, insert r.sensor_uuid (new_sensor verified at r) s)
  store_row verified at r (some row) s =
      if row.tenant == r.tenant
      then (true, insert r.sensor_uuid (refreshed verified at r row) s)
      else (false, s)

  unfoldable pub upsert_reading : Bool → ℕ → Option (Reading F) → Registry F → Bool × Registry F
  unfolding store_row lookup
  upsert_reading verified at none s = (false, s)
  upsert_reading verified at (some r) s = store_row verified at r (lookup r.sensor_uuid s) s

  unfoldable pub upsert_heartbeat : Bool → ℕ → Heartbeat F → Registry F → Bool × Registry F
  unfolding well_formed upsert_reading
  upsert_heartbeat verified at h s = upsert_reading verified at (well_formed h) s

  abbrev pub granted : List String → Option (Sensor F) → Option (Sensor F)
  granted tenants none = none
  granted tenants (some row) = if contains tenants row.tenant then some row else none

  unfoldable pub get : Registry F → String → List String → Option (Sensor F)
  unfolding lookup contains
  get s sensor_uuid tenants = granted tenants (lookup sensor_uuid s)

  unfoldable pub list_sensors : Registry F → List String → List (String × Sensor F)
  unfolding order_by contains
  list_sensors s tenants =
      order_by (λ (r : String × Sensor F). r.0)
        (keep (λ (r : String × Sensor F). contains tenants r.1.tenant) s)

  -- `skew_flag` of `sensor_view`; the argument is `abs(offset) > skew_threshold_ms`.
  unfoldable pub skew_flag : (F → Bool) → Sensor F → Bool
  skew_flag over row = skewed row.clock_offset_ms
    where
      skewed : Option F → Bool
      skewed none = false
      skewed (some offset) = over offset

  -- `status` of `sensor_view`: a receipt in the future is not stale, as there.
  unfoldable pub is_online : ℕ → ℕ → Sensor F → Bool
  is_online now stale_after row = fresh row.received_at
    where
      fresh : Option ℕ → Bool
      fresh none = false
      fresh (some received) = leb (now - received) stale_after

  unfoldable pub sensor_view : (F → Bool) → ℕ → ℕ → String × Sensor F → View F
  unfolding skew_flag is_online
  sensor_view over now stale_after (sensor_uuid, row) = record {
    sensor_uuid = sensor_uuid;
    row = row;
    skew_flag = skew_flag over row;
    status = if is_online now stale_after row then "online" else "offline";
  }

  unfoldable pub group_rows : List (String × Sensor F) → Table (List String) → Table (List String)
  unfolding add_groups
  group_rows [] groups = groups
  group_rows (r ∷ rs) groups = group_rows rs (add_groups r.0 r.1.groups groups)

  unfoldable pub list_groups : Registry F → List String → Table (List String)
  unfolding list_sensors group_rows
  list_groups s tenants = group_rows (list_sensors s tenants) []

  -- `None` is a refusal.
  unfoldable pub verify_producer : Option Enrollments → Option String → Heartbeat F → Option Bool
  unfolding verifies
  verify_producer none principal h = some false
  verify_producer (some enrollment) principal h =
      if verifies enrollment principal h.sensor_uuid h.tenant then some true else none

-- A message of the health topic with its receipt time; no value if it does not decode.
pub record Message (F : Type 0) : Type 0 where
  pub principal : Option String
  pub value : Option (Heartbeat F)
  pub received_at : ℕ

module _ {F : Type 0} where
  unfoldable pub admit : Option Bool → ℕ → Heartbeat F → Registry F → Registry F
  unfolding upsert_heartbeat
  admit none at h s = s
  admit (some verified) at h s = (upsert_heartbeat verified at h s).1

  unfoldable pub ingest : Option Enrollments → Message F → Registry F → Registry F
  unfolding verify_producer admit
  ingest enrollment msg s = of_value msg.value
    where
      of_value : Option (Heartbeat F) → Registry F
      of_value none = s
      of_value (some h) = admit (verify_producer enrollment msg.principal h) msg.received_at h s

  unfoldable pub ingest_loop : Option Enrollments → List (Message F) → Registry F → Registry F
  unfolding ingest
  ingest_loop enrollment [] s = s
  ingest_loop enrollment (msg ∷ msgs) s = ingest_loop enrollment msgs (ingest enrollment msg s)
