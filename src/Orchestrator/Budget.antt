-- ===== src/Orchestrator/Budget.antt =====
-- The budget over any run of the orchestrator.
use cernityndr.Base.{
  ◌≤◌, String, ◌≡◌, Bool, false, not, ◌&&◌, List, [], ◌∷◌, Table, insert, lookup-insert, arith,
  Bool-cases, inl, inr, if◌then◌else◌, ◌==◌, string_eq, eq_iff,
}
use cernityndr.Finding.Quality.{Floats}
use cernityndr.Orchestrator.{
  Usage, Limits, Config, Request, Status, Message, request, status, usage_of, decide_arm,
  is_terminal, is_preserve, handle_request, handle_completion, handle, run,
}
use cernityndr.Orchestrator.Gates.{decide_arm-MayArm}

usage_of-insert :
    (k j : String) (u : Usage) (b : Table Usage)
    → usage_of (insert k u b) j ≡ (if k == j then u else usage_of b j)
unfolding usage_of
usage_of-insert k j u b = rw lookup-insert (ground arith)

-- No sensor has more jobs than the limit.
abbrev pub WithinJobs : Limits → Table Usage → Type 0
WithinJobs limits b = (j : String) → (usage_of b j).active_jobs ≤ limits.max_jobs

module _ {F : Type 0} (fl : Floats F) (cfg : Config F) where
  request-WithinJobs :
      (b : Table Usage) (r : Request F)
      → WithinJobs cfg.limits b
      → WithinJobs cfg.limits (handle_request fl cfg b r).0
  unfolding handle_request
  request-WithinJobs b r h =
      elim (Bool-cases
        (decide_arm fl r.sensor_id r.capture_profile cfg.manifest r.health b cfg.thr
          cfg.limits).0) [
            | inr refused ↦ rw refused h
            | inl armed ↦
                let may =
                  (decide_arm-MayArm fl r.sensor_id r.capture_profile cfg.manifest r.health b
                      cfg.thr cfg.limits).0
                    armed in
                rw armed (λ j. rw usage_of-insert (ground (arith, h j, may.jobs_left)))
          ]

-- Whether a status changes the budget.
abbrev counts : Status → Bool
counts s = not (is_preserve s.kind) && is_terminal s.state

completion-WithinJobs :
    (limits : Limits) (b : Table Usage) (s : Status)
    → WithinJobs limits b
    → WithinJobs limits (handle_completion b s)
unfolding handle_completion
completion-WithinJobs limits b s h = elim (Bool-cases (counts s)) [
  | inr other ↦ rw other h
  | inl done ↦ rw done (λ j. rw usage_of-insert (ground (arith, h j, h s.sensor_id)))
]

-- A sensor that has used up its bytes.
abbrev pub IsExhausted : Limits → Table Usage → String → Type 0
IsExhausted limits b j = limits.max_bytes ≤ (usage_of b j).bytes_captured

module _ {F : Type 0} (fl : Floats F) (cfg : Config F) where
  handle-WithinJobs :
      (b : Table Usage) (m : Message F)
      → WithinJobs cfg.limits b
      → WithinJobs cfg.limits (handle fl cfg b m).0
  unfolding handle
  handle-WithinJobs b (request r) h = request-WithinJobs fl cfg b r h
  handle-WithinJobs b (status s) h = completion-WithinJobs cfg.limits b s h

  -- Whatever requests and statuses arrive, in any order, no sensor ever has more jobs counted
  -- than the limit, if none had at the start.
  pub run-WithinJobs :
      (b : Table Usage) (ms : List (Message F))
      → WithinJobs cfg.limits b
      → WithinJobs cfg.limits (run fl cfg b ms).0
  unfolding run
  run-WithinJobs b [] h = h
  run-WithinJobs b (m ∷ ms) h = run-WithinJobs (handle fl cfg b m).0 ms (handle-WithinJobs b m h)

  handle-IsExhausted :
      (b : Table Usage) (m : Message F) (j : String)
      → IsExhausted cfg.limits b j
      → IsExhausted cfg.limits (handle fl cfg b m).0 j
  unfolding handle handle_request handle_completion
  handle-IsExhausted b (request r) j h =
      elim (Bool-cases
        (decide_arm fl r.sensor_id r.capture_profile cfg.manifest r.health b cfg.thr
          cfg.limits).0) [
            | inr refused ↦ rw refused h
            | inl armed ↦ rw (armed, usage_of-insert) (ground (arith, eq_iff r.sensor_id j))
          ]
  handle-IsExhausted b (status s) j h = elim (Bool-cases (counts s)) [
    | inr other ↦ rw other h
    | inl done ↦ rw (done, usage_of-insert) (ground (arith, eq_iff s.sensor_id j))
  ]

  -- The byte budget is never given back: once a sensor has used it up, no message brings it below
  -- the limit again, and every later request for that sensor is refused, whatever came between.
  -- An agent reports no negative number of bytes.
  pub run-IsExhausted :
      (b : Table Usage) (ms : List (Message F)) (r : Request F)
      → IsExhausted cfg.limits b r.sensor_id
      → let b' = (run fl cfg b ms).0 in
        IsExhausted cfg.limits b' r.sensor_id
        × ((decide_arm fl r.sensor_id r.capture_profile cfg.manifest r.health b' cfg.thr
              cfg.limits).0
            ≡ false)
  unfolding run
  run-IsExhausted b [] r h = (
    h,
    elim (Bool-cases
        (decide_arm fl r.sensor_id r.capture_profile cfg.manifest r.health b cfg.thr
          cfg.limits).0) [
            | inr refused ↦ refused
            | inl armed ↦
                let may =
                  (decide_arm-MayArm fl r.sensor_id r.capture_profile cfg.manifest r.health b
                      cfg.thr cfg.limits).0
                    armed in
                absurd (omega (arith, may.bytes_left))
          ],
  )
  run-IsExhausted b (m ∷ ms) r h =
      run-IsExhausted (handle fl cfg b m).0 ms r (handle-IsExhausted b m r.sensor_id h)
