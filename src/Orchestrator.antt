-- ===== src/Orchestrator.antt =====
-- services/capture-orchestrator: the gates of gates.py and the budget of app.py. A request or a
-- status is one step on the budget; what is sent is the list of directives. The preserve mode has a
-- budget of its own and is left to `_handle_preserve`. Health and thresholds are floats, over any
-- `Floats`; health is read before each request and is part of it.
pub mod Gates
pub mod Budget
pub mod Examples
use cernityndr.Base.{
  ℕ, ◌+◌, ◌-◌, String, Bool, true, false, not, ◌&&◌, Option, none, some, List, [], ◌∷◌, ◌++◌, Table,
  lookup, insert, ltb, leb, if◌then◌else◌, ◌==◌, string_eq, contains,
}
use cernityndr.Finding.Quality.{Floats}

-- `capture_profiles`: whether a profile is available.
abbrev pub Manifest : Type 0
Manifest = Table Bool

pub record Health (F : Type 0) : Type 0 where
  pub packet_loss_pct : Option F
  pub cpu_pct : Option F

pub record Thresholds (F : Type 0) : Type 0 where
  pub max_loss_pct : F
  pub max_cpu_pct : F

pub record Usage : Type 0 where
  pub active_jobs : ℕ
  pub bytes_captured : ℕ

pub record Limits : Type 0 where
  pub max_jobs : ℕ
  pub max_bytes : ℕ

abbrev pub Verdict : Type 0
Verdict = Bool × String

abbrev pub unused : Usage
unused = record { active_jobs = 0; bytes_captured = 0 }

abbrev pub or_unused : Option Usage → Usage
or_unused none = unused
or_unused (some u) = u

-- `budget.get(sensor_id, {})`, and what `setdefault` would put there.
unfoldable pub usage_of : Table Usage → String → Usage
usage_of budget sensor_id = or_unused (lookup sensor_id budget)

abbrev pub is_available : Option Bool → Bool
is_available none = false
is_available (some b) = b

unfoldable pub capability_gate : Manifest → String → Verdict
capability_gate manifest profile =
    if is_available (lookup profile manifest)
    then (true, "ok")
    else (false, "capability_unavailable")

module _ {F : Type 0} (fl : Floats F) where
  -- `float(x or 0) > limit`
  unfoldable pub is_over : Option F → F → Bool
  is_over none limit = fl.lt limit fl.zero
  is_over (some x) limit = fl.lt limit x

  unfoldable pub health_gate : Health F → Thresholds F → Verdict
  unfolding is_over
  health_gate health thr =
      if is_over health.packet_loss_pct thr.max_loss_pct
      then (false, "packet_loss_over_threshold")
      else if is_over health.cpu_pct thr.max_cpu_pct
      then (false, "cpu_over_threshold")
      else (true, "ok")

unfoldable pub budget_gate : String → Table Usage → Limits → Verdict
unfolding usage_of
budget_gate sensor_id budget limits =
    if leb limits.max_jobs (usage_of budget sensor_id).active_jobs
    then (false, "max_concurrent_jobs")
    else if leb limits.max_bytes (usage_of budget sensor_id).bytes_captured
    then (false, "byte_budget_exhausted")
    else (true, "ok")

-- The loop over the gates: the first refusal ends it.
unfoldable pub first_refusal : List Verdict → Verdict
first_refusal [] = (true, "armed")
first_refusal (v ∷ vs) = let rest = first_refusal vs in if v.0 then rest else (false, v.1)

module _ {F : Type 0} (fl : Floats F) where
  unfoldable pub decide_arm :
      String → String → Manifest → Health F → Table Usage → Thresholds F → Limits → Verdict
  unfolding first_refusal capability_gate health_gate budget_gate
  decide_arm sensor_id profile manifest health budget thr limits = first_refusal (
      capability_gate manifest profile
      ∷ health_gate fl health thr
      ∷ budget_gate sensor_id budget limits
      ∷ [])

-- A capture request, with the health that was probed for its sensor.
pub record Request (F : Type 0) : Type 0 where
  pub finding_id : String
  pub tenant_id : Option String
  pub sensor_id : String
  pub capture_profile : String
  pub value : String
  pub health : Health F

-- A status of an agent; `state` is absent from the orchestrator's own statuses.
pub record Status : Type 0 where
  pub kind : Option String
  pub sensor_id : String
  pub state : Option String
  pub bytes : ℕ

pub data Message (F : Type 0) : Type 0 where
  request : Request F → Message F
  status : Status → Message F

pub data Sent : Type 0 where
  decision : String → String → Verdict → Sent
  arm_directive : String → String → Option String → String → String → Sent

pub record Config (F : Type 0) : Type 0 where
  pub manifest : Manifest
  pub thr : Thresholds F
  pub limits : Limits

abbrev pub terminal_states : List String
terminal_states = "completed" ∷ "failed" ∷ "rejected" ∷ "refused" ∷ []

abbrev pub is_preserve : Option String → Bool
is_preserve none = false
is_preserve (some k) = k == "preserve"

abbrev pub is_terminal : Option String → Bool
is_terminal none = false
is_terminal (some s) = contains terminal_states s

module _ {F : Type 0} (fl : Floats F) (cfg : Config F) where
  -- `_handle_request` outside the preserve mode.
  unfoldable pub handle_request : Table Usage → Request F → Table Usage × List Sent
  unfolding decide_arm usage_of
  handle_request budget r =
      let verdict =
        decide_arm fl r.sensor_id r.capture_profile cfg.manifest r.health budget cfg.thr
          cfg.limits in
      let sent = decision r.finding_id r.sensor_id verdict in
      if verdict.0
      then (
        insert r.sensor_id
            (record (usage_of budget r.sensor_id) {
              active_jobs = (usage_of budget r.sensor_id).active_jobs + 1;
            })
            budget,
        sent ∷ arm_directive r.finding_id r.sensor_id r.tenant_id r.capture_profile r.value ∷ [],
      )
      else (budget, sent ∷ [])

-- `_handle_completion`: an agent's terminal status. A status of the preserve mode goes to that
-- mode's budget. A job is freed only where one is counted, so the truncated `-` is exact.
unfoldable pub handle_completion : Table Usage → Status → Table Usage
unfolding usage_of
handle_completion budget s =
    if not (is_preserve s.kind) && is_terminal s.state
    then insert s.sensor_id
        (record {
          active_jobs = (usage_of budget s.sensor_id).active_jobs - 1;
          bytes_captured = (usage_of budget s.sensor_id).bytes_captured + s.bytes;
        })
        budget
    else budget

module _ {F : Type 0} (fl : Floats F) (cfg : Config F) where
  unfoldable pub handle : Table Usage → Message F → Table Usage × List Sent
  unfolding handle_request handle_completion
  handle budget (request r) = handle_request fl cfg budget r
  handle budget (status s) = (handle_completion budget s, [])

  -- The main loop, over the messages that it polls.
  unfoldable pub run : Table Usage → List (Message F) → Table Usage × List Sent
  unfolding handle
  run budget [] = (budget, [])
  run budget (m ∷ ms) =
      let (budget', sent) = handle budget m in
      let (end, more) = run budget' ms in (end, sent ++ more)
