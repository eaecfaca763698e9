-- ===== src/Finding/Capture.antt =====
-- `capture_job` of state_machine.py: which sensor is to capture what. `_entities` decodes a JSON text
-- first; the field `entities` holds the dicts that it gives.
use cernityndr.Base.{
  String, Bool, Option, none, some, List, [], ◌∷◌, ◌++◌, if◌then◌else◌, ◌==◌, string_eq,
}
use cernityndr.Finding.{Finding, Entity, is_among}

-- _ENTITY_PROFILE
unfoldable pub entity_profile : String → Option String
entity_profile t =
    if t == "ip"
    then some "ip"
    else if t == "domain"
    then some "sni"
    else if t == "sni"
    then some "sni"
    else if t == "dns"
    then some "dns"
    else if t == "fingerprint"
    then some "ja4"
    else if t == "ja3"
    then some "ja4"
    else if t == "ja4"
    then some "ja4"
    else none

abbrev pub target_roles : List String
target_roles = "dst" ∷ "peer" ∷ "server" ∷ "c2" ∷ "destination" ∷ "target" ∷ "scanner" ∷ []

-- The profile and value of an entity that can be captured, and whether it has a target role.
pub record Target : Type 0 where
  pub profile : String
  pub value : String
  pub is_target : Bool

abbrev pub profile_of : Option String → Option String
profile_of none = none
profile_of (some t) = entity_profile t

unfoldable pub target_of : Option String → Option String → Bool → List Target
target_of (some p) (some v) r =
    if v == "" then [] else record { profile = p; value = v; is_target = r } ∷ []
target_of _ _ r = []

-- The usable entities, in order.
unfoldable pub usable : List Entity → List Target
unfolding entity_profile is_among target_of
usable [] = []
usable (e ∷ es) = target_of (profile_of e.kind) e.value (is_among e.role target_roles) ++ usable es

unfoldable pub first_target : List Target → Option Target
first_target [] = none
first_target (t ∷ ts) = let rest = first_target ts in if t.is_target then some t else rest

abbrev pub first_of_all : List Target → String × String
first_of_all [] = ("ip", "")
first_of_all (t ∷ ts) = (t.profile, t.value)

abbrev pub choose : Option Target → List Target → String × String
choose (some t) ts = (t.profile, t.value)
choose none ts = first_of_all ts

pub record CaptureJob : Type 0 where
  pub finding_id : String
  pub tenant_id : Option String
  pub sensor_id : String
  pub capture_profile : String
  pub value : String
  pub entities : List Entity

abbrev pub or_sensor_1 : Option String → String
or_sensor_1 none = "sensor-1"
or_sensor_1 (some s) = if s == "" then "sensor-1" else s

module _ {F : Type 0} where
  unfoldable pub capture_target : Finding F → String × String
  unfolding usable first_target
  capture_target f = choose (first_target (usable f.entities)) (usable f.entities)

  unfoldable pub first_sensor : Finding F → String
  first_sensor f = elim f.sensor_ids [ [] ↦ or_sensor_1 f.sensor_id | s ∷ ss ↦ s ]

  unfoldable pub capture_job : Finding F → CaptureJob
  unfolding capture_target first_sensor
  capture_job f = record {
    finding_id = f.finding_id;
    tenant_id = f.tenant_id;
    sensor_id = first_sensor f;
    capture_profile = (capture_target f).0;
    value = (capture_target f).1;
    entities = f.entities;
  }
