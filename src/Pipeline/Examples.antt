-- ===== src/Pipeline/Examples.antt =====
-- One finding of the tenant acme that waits for a capture, and one of another tenant with its id.
use cernityndr.Base.{
  ℕ, ◌≡◌, ◌||◌, ◌++◌, refl, true, false, none, some, [], ◌∷◌, List, Result, ok, err, put, drop_key,
  find, any, contains,
}
use cernityndr.Finding.{apply_enrichment_result, finalize_timeout}
use cernityndr.Finding.Quality.{FindingError}
use cernityndr.Finding.Examples.{milli, factors, cfg, beacon, good_result, blind}
use cernityndr.Pipeline.{
  Key, key_eq, Entry, Service, Config, CaptureStatus, Event, status, sweep, candidate,
  emit_finalized, handle_status, handle_result, sweep_timeouts, loop, is_terminal,
}
use cernityndr.Pipeline.Keys.{Keyed, put-Keyed, none-some}
use cernityndr.Pipeline.Obligations.{is_there, delivers, loop_lossless}
use cernityndr.Pipeline.Sweep.{sweep_timeouts_due}
use cernityndr.Pipeline.Late.{Reached, handle-Reached}
use cernityndr.Pipeline.Recall.{late_result}

abbrev config : Config ℕ
config = record {
  floats = milli;
  factors = factors;
  settings = cfg;
  max_finalized = 2;
  deadline_secs = 300;
  stores = true;
}

abbrev entry : Entry ℕ
entry = record { finding = beacon; delivered = false; deadline = 400 }

abbrev here : Key
here = record { tenant = "acme"; fid = "f-1" }

abbrev start : Service ℕ
start = record { waiting = (here, entry) ∷ []; closed = []; effects = [] }

abbrev both : Service ℕ
both = record start {
  waiting =
      (here, entry)
      ∷ (
        record { tenant = "globex"; fid = "f-1" },
        record entry { finding = record beacon { tenant_id = some "globex" } },
      )
      ∷ [];
}

abbrev failed : CaptureStatus
failed = record { finding_id = "f-1"; tenant_id = some "acme"; state = some "failed"; armed = none }

start-Keyed : Keyed start.waiting
unfolding Keyed find put
start-Keyed = put-Keyed [] entry (λ k f q. absurd (none-some q))

abbrev events : List (Event ℕ)
events = candidate blind 100 beacon ∷ status failed ∷ sweep 900 ∷ []

abbrev value_of : Result FindingError (Service ℕ) → Service ℕ
value_of (ok s) = s
value_of (err x) = start

-- After a second candidate, a failed capture and a sweep.
unfoldable ended : Service ℕ
unfolding loop contains
ended = value_of (loop config events start)

events_run : loop config events start ≡ ok ended
unfolding ended loop contains find put drop_key
events_run = refl

loop_lossless_example :
    (is_there (find here ended.waiting) || any (delivers here) ended.effects) ≡ true
loop_lossless_example =
    loop_lossless config events start ended start-Keyed events_run here (unfold find in refl)

sweep_timeouts_due_example :
    (find here (sweep_timeouts config 500 start).waiting ≡ none)
    × (any (delivers here) (sweep_timeouts config 500 start).effects ≡ true)
sweep_timeouts_due_example =
    sweep_timeouts_due config 500 start here entry start-Keyed (unfold find in refl) refl

handle-Reached_example :
    Reached none "f-1" both.waiting
      (handle_result config (record good_result { tenant_id = none }) both).waiting
      here
handle-Reached_example =
    (handle-Reached config both here).0 (record good_result { tenant_id = none })

both-Keyed : Keyed both.waiting
unfolding Keyed find put
both-Keyed =
    put-Keyed start.waiting (record entry { finding = record beacon { tenant_id = some "globex" } })
      start-Keyed

-- The capture of the other tenant's finding fails in between, and the cache holds two.
late_result_example :
    let t = handle_status config failed both in
    let closed = finalize_timeout cfg beacon in
    (t.effects ≡ both.effects ++ emit_finalized config false closed)
    × ((v : Service ℕ) × (loop config (status (record failed { tenant_id = some "globex" }) ∷ []) t
          ≡ ok v)
        × ((handle_result config good_result v).effects
            ≡ v.effects
              ++ emit_finalized config true (apply_enrichment_result cfg closed good_result))
        × (handle_result config good_result (handle_result config good_result v)
            ≡ handle_result config good_result v))
late_result_example =
    late_result config failed (status (record failed { tenant_id = some "globex" }) ∷ [])
      good_result both "acme" entry both-Keyed (unfold find in refl) (unfold is_terminal in refl)
      refl (tt, tt) refl refl refl
