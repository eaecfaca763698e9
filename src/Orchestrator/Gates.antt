-- ===== src/Orchestrator/Gates.antt =====
-- What the gates decide.
use cernityndr.Base.{◌<◌, String, ◌≡◌, ◌↔◌, true, false, Table, lookup, arith}
use cernityndr.Finding.Quality.{Floats}
use cernityndr.Orchestrator.{
  Manifest, Health, Thresholds, Usage, Limits, is_available, usage_of, capability_gate, is_over,
  health_gate, budget_gate, decide_arm,
}

module _ {F : Type 0} (fl : Floats F) where
  -- All that must hold for a capture to be armed.
  pub record MayArm (sensor_id profile : String) (manifest : Manifest) (health : Health F)
      (budget : Table Usage) (thr : Thresholds F) (limits : Limits) : Type 0 where
    pub offered : is_available (lookup profile manifest) ≡ true
    pub loss_low : is_over fl health.packet_loss_pct thr.max_loss_pct ≡ false
    pub cpu_low : is_over fl health.cpu_pct thr.max_cpu_pct ≡ false
    pub jobs_left : (usage_of budget sensor_id).active_jobs < limits.max_jobs
    pub bytes_left : (usage_of budget sensor_id).bytes_captured < limits.max_bytes

  -- A capture is armed exactly when the profile is offered, neither packet loss nor CPU is over its
  -- threshold, and the sensor is below both limits of its budget.
  pub decide_arm-MayArm :
      (sensor_id profile : String) (manifest : Manifest) (health : Health F) (budget : Table Usage)
      (thr : Thresholds F) (limits : Limits)
      → ((decide_arm fl sensor_id profile manifest health budget thr limits).0 ≡ true)
        ↔ MayArm sensor_id profile manifest health budget thr limits
  unfolding decide_arm
  decide_arm-MayArm sensor_id profile manifest health budget thr limits =
      (λ h. ground arith, λ h. ground arith)

  -- A refusal names the first gate that failed, in the order capability, health, budget.
  pub decide_arm_reason :
      (sensor_id profile : String) (manifest : Manifest) (health : Health F) (budget : Table Usage)
      (thr : Thresholds F) (limits : Limits)
      → let c = capability_gate manifest profile in
        let h = health_gate fl health thr in
        let b = budget_gate sensor_id budget limits in
        let r = decide_arm fl sensor_id profile manifest health budget thr limits in
        (c.0 ≡ false → r ≡ (false, "capability_unavailable"))
        × (c.0 ≡ true → h.0 ≡ false → r ≡ (false, h.1))
        × (c.0 ≡ true → h.0 ≡ true → b.0 ≡ false → r ≡ (false, b.1))
        × (c.0 ≡ true → h.0 ≡ true → b.0 ≡ true → r ≡ (true, "armed"))
  unfolding decide_arm
  decide_arm_reason sensor_id profile manifest health budget thr limits = ground arith
