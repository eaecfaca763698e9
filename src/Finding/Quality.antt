-- ===== src/Finding/Quality.antt =====
-- `quality_adjust`, `_quality_sensors` and `_apply_quality` of state_machine.py: the discount for a
-- sensor that saw badly. `Floats` is what the code uses of Python's floats (none of them NaN).
use cernityndr.Base.{
  ℕ, String, ◌≡◌, Bool, true, false, not, ◌&&◌, ◌||◌, Option, none, some, List, [], ◌∷◌, ◌++◌,
  Result, ok, err, ◌>>=◌, ltb, leb, nat_eq, keep, if◌then◌else◌, ◌==◌, string_eq, map,
}
use Prim.Native.Char.{code}
use cernityndr.Finding.Types.{Source, Finding, Settings, Route, or_list, union}
use cernityndr.Finding.Lifecycle.{route_finding}

pub record Floats (F : Type 0) : Type 0 where
  pub zero : F
  pub one : F
  pub nine_tenths : F
  pub lt : F → F → Bool
  pub mul : F → F → F
  pub div : F → F → F
  pub lt_asymm : (a b : F) → lt a b ≡ true → lt b a ≡ false
  pub lt_irrefl : (a : F) → lt a a ≡ false
  pub zero-lt-one : lt zero one ≡ true

pub record Factors (F : Type 0) : Type 0 where
  pub degraded : F
  pub blind : F
  pub floor : F

pub data FindingError : Type 0 where
  key_error value_error : FindingError

-- What the sensor-quality cache holds of a sensor.
pub record SensorQuality : Type 0 where
  pub quality : Option String
  pub reasons : List String

abbrev pub Lookup : Type 0
Lookup = Option String → String → Option SensorQuality

module _ {F : Type 0} (fl : Floats F) where
  open fl use {zero, one, nine_tenths, lt, mul, div}

  -- Python's min and max return their first argument on a tie.
  unfoldable pub min : F → F → F
  min a b = if lt b a then b else a

  unfoldable pub max : F → F → F
  max a b = if lt a b then b else a

  unfoldable pub clamp : F → F
  unfolding min max
  clamp c = max zero (min one c)

  unfoldable pub in_unit : F → Bool
  in_unit x = lt zero x && not (lt one x)

  unfoldable pub is_zero : F → Bool
  is_zero x = not (lt zero x) && not (lt x zero)

  unfoldable pub discount : F → F → F → F
  unfolding min max
  discount base factor floor = min base (max floor (mul base factor))

  unfoldable pub quality_adjust : F → String → Factors F → Result FindingError (F × F)
  unfolding clamp in_unit is_zero discount
  quality_adjust confidence quality k =
      if not (quality == "degraded" || quality == "blind")
      then ok (confidence, one)
      else if not (in_unit k.floor && in_unit k.degraded && in_unit k.blind)
      then err value_error
      else (let factor = if quality == "blind" then k.blind else k.degraded in
          let base = clamp confidence in
          let adjusted = discount base factor k.floor in
          ok (adjusted, if is_zero base then one else div adjusted base))

  -- `float(cand.get("confidence", 0) or 0) >= 0.9`
  unfoldable pub sure : Option F → Bool
  sure none = not (lt zero nine_tenths)
  sure (some c) = not (lt c nine_tenths)

-- The code points that str.strip() removes.
unfoldable pub is_space : ℕ → Bool
is_space c =
    (leb 9 c && leb c 13)
    || (leb 28 c && leb c 32)
    || nat_eq c 133
    || nat_eq c 160
    || nat_eq c 5760
    || (leb 8192 c && leb c 8202)
    || nat_eq c 8232
    || nat_eq c 8233
    || nat_eq c 8239
    || nat_eq c 8287
    || nat_eq c 12288

-- `not s.strip()`
unfoldable pub is_blank : String → Bool
unfolding is_space
is_blank String.[] = true
is_blank (String.◌∷◌ c s) = is_space (code c) && is_blank s

-- `isinstance(x, str) and x.strip()`
unfoldable pub named : Option String → List String
unfolding is_blank
named none = []
named (some s) = if is_blank s then [] else s ∷ []

-- The sensor id of an event's record, or else its host.
unfoldable pub source_sensor : Source → List String
unfolding named
source_sensor r = or_list (named r.sensor_id) (named r.host)

unfoldable pub source_sensors : List Source → List String
unfolding source_sensor
source_sensors [] = []
source_sensors (r ∷ rs) = source_sensor r ++ source_sensors rs

unfoldable pub quality_sensors : {F : Type 0} → Finding F → List String
unfolding is_blank union source_sensors
quality_sensors f =
    or_list (union [] (keep (λ s. not (is_blank s)) f.sensor_ids))
      (union [] (source_sensors f.source_events))

unfoldable pub rank : String → Option ℕ
rank q =
    if q == "unknown"
    then some 0
    else if q == "good"
    then some 1
    else if q == "degraded"
    then some 2
    else if q == "blind"
    then some 3
    else none

-- `rank.get((record or {}).get("quality"), 0)`
unfoldable pub rank_of : Option SensorQuality → ℕ
unfolding rank
rank_of none = 0
rank_of (some q) = elim q.quality [ none ↦ 0 | some t ↦ elim (rank t) [ none ↦ 0 | some n ↦ n ] ]

abbrev pub Measured : Type 0
Measured = String × Option SensorQuality

-- `max(records, key=...)`: the first of the highest rank.
unfoldable pub worst_from : Measured → List Measured → Measured
unfolding rank_of
worst_from best [] = best
worst_from best (m ∷ ms) = worst_from (if ltb (rank_of best.1) (rank_of m.1) then m else best) ms

unfoldable pub worst : List Measured → Option Measured
unfolding worst_from
worst [] = none
worst (m ∷ ms) = some (worst_from m ms)

-- `record.get("quality", "unknown")`, with any other word read as `unknown`.
unfoldable pub verdict_of : Option SensorQuality → String
unfolding rank
verdict_of none = "unknown"
verdict_of (some q) = elim q.quality [
  | none ↦ "unknown"
  | some t ↦ elim (rank t) [ none ↦ "unknown" | some n ↦ t ]
]

unfoldable pub reasons_of : Option SensorQuality → List String
reasons_of none = []
reasons_of (some q) = q.reasons

abbrev pub measure : Lookup → Option String → String → Measured
measure lookup tenant s = (s, lookup tenant s)

abbrev pub sensor_of : Option Measured → Option String
sensor_of none = none
sensor_of (some m) = some m.0

abbrev pub record_of : Option Measured → Option SensorQuality
record_of none = none
record_of (some m) = m.1

-- `f["confidence"]` raises KeyError where there is none.
abbrev pub confidence_of : {F : Type 0} → Option F → Result FindingError F
confidence_of none = err key_error
confidence_of (some c) = ok c

unfoldable pub apply_quality :
    {F : Type 0} → Floats F → Factors F → Lookup → Finding F → Result FindingError (Finding F)
unfolding quality_sensors worst verdict_of reasons_of quality_adjust
apply_quality fl k lookup f = do
  let sensors = quality_sensors f
  let found = worst (map (measure lookup f.tenant_id) sensors)
  let verdict = verdict_of (record_of found)
  original ← confidence_of f.confidence
  adjusted ← quality_adjust fl original verdict k
  ok (record f {
    sensor_ids = sensors;
    confidence = some adjusted.0;
    observation_quality = some (record {
      quality = verdict;
      reasons = reasons_of (record_of found);
      sensor_id = sensor_of found;
      factor = adjusted.1;
      original_confidence = original;
    });
  })

abbrev pub optional_quality :
    {F : Type 0}
    → Floats F
    → Factors F
    → Option Lookup
    → Finding F
    → Result FindingError (Finding F)
optional_quality fl k none f = ok f
optional_quality fl k (some lookup) f = apply_quality fl k lookup f

unfoldable pub build_finding :
    {F : Type 0}
    → Floats F
    → Factors F
    → Settings
    → Option Lookup
    → Finding F
    → Result FindingError (Finding F × Route)
unfolding apply_quality route_finding sure
build_finding fl k cfg lookup cand = do
  f ← optional_quality fl k lookup cand
  ok (route_finding cfg (sure fl) cand f)
