-- ===== src/Orchestrator/Examples.antt =====
-- One sensor with one job running.
use cernityndr.Base.{
  ℕ, ◌≡◌, true, false, none, Option, String, some, List, [], ◌∷◌, Table, lookup, arith,
}
use cernityndr.Finding.Examples.{milli}
use cernityndr.Orchestrator.{
  Usage, Health, Status, Config, Request, Message, request, status, usage_of, decide_arm, run,
}
use cernityndr.Orchestrator.Budget.{WithinJobs, IsExhausted, run-WithinJobs, run-IsExhausted}

abbrev healthy : Health ℕ
healthy = record { packet_loss_pct = none; cpu_pct = some 20000 }

abbrev cfg : Config ℕ
cfg = record {
  manifest = ("ip", true) ∷ [];
  thr = record { max_loss_pct = 1000; max_cpu_pct = 85000 };
  limits = record { max_jobs = 3; max_bytes = 500 };
}

abbrev busy : Table Usage
busy = ("s-1", record { active_jobs = 1; bytes_captured = 10 }) ∷ []

abbrev spent : Table Usage
spent = ("s-1", record { active_jobs = 0; bytes_captured = 500 }) ∷ []

abbrev wish : Request ℕ
wish = record {
  finding_id = "f-1";
  tenant_id = some "acme";
  sensor_id = "s-1";
  capture_profile = "ip";
  value = "10.0.0.5";
  health = healthy;
}

nothing-WithinJobs : WithinJobs cfg.limits []
unfolding usage_of lookup
nothing-WithinJobs j = omega arith

abbrev completed : Option String → String → ℕ → Status
completed kind sensor_id bytes = record {
  sensor_id = sensor_id;
  kind = kind;
  state = some "completed";
  bytes = bytes;
}

abbrev messages : List (Message ℕ)
messages = request wish ∷ request wish ∷ status (completed none "s-1" 40) ∷ request wish ∷ []

run-WithinJobs_example : WithinJobs cfg.limits (run milli cfg [] messages).0
run-WithinJobs_example = run-WithinJobs milli cfg [] messages nothing-WithinJobs

spent-IsExhausted : IsExhausted cfg.limits spent "s-1"
unfolding usage_of lookup
spent-IsExhausted = omega arith

run-IsExhausted_example :
    IsExhausted cfg.limits (run milli cfg spent messages).0 "s-1"
    × ((decide_arm milli "s-1" "ip" cfg.manifest healthy
          (run milli cfg spent messages).0
          cfg.thr
          cfg.limits).0
        ≡ false)
run-IsExhausted_example = run-IsExhausted milli cfg spent messages wish spent-IsExhausted
