-- ===== src/Scenarios/Starts.antt =====
-- Commands that start and stop, at concrete inputs.
use processing_platform.Prelude.{◌+◌, ◌≡◌, ◌⊎◌, refl, true, false, none, [], ◌∷◌}
use processing_platform.Failure.{ok}
use processing_platform.Metrics.{no_metrics}
use processing_platform.Startup.{consumer, Resource, Setting, ready, exited, call}
use processing_platform.Startup.Commands.{
  retry_router, worker, ingestion, start, main, nothing_held,
}
use processing_platform.Startup.Needs.{variables, checks, can_start}
use processing_platform.Startup.Starts.{start-can_start}
use processing_platform.Startup.Balance.{openings, closings, count}
use processing_platform.Startup.Releases.{main-releases}
use processing_platform.Startup.Workers.{main-run}
use processing_platform.Wiring.{worker_realtime}
use processing_platform.Worker.Loop.{cancelled, failed, fetched, Shift}
use processing_platform.Worker.Loop.Counts.{ending, run-received}
use processing_platform.Scenarios.Texts.{texts}
use processing_platform.Scenarios.Floats.{halves}
use processing_platform.Scenarios.Plant.{job, world, job_written}

-- Every variable is set, and every server answers.
abbrev sound : Setting
sound = record { getenv = λ k. "x"; failure = λ c. none }

start-can_start_example :
    ((can_start sound ingestion ≡ true) × ((start sound ingestion nothing_held).0 ≡ ready tt))
    ⊎ ((can_start sound ingestion ≡ false) × ((start sound ingestion nothing_held).0 ≡ exited 1))
start-can_start_example = start-can_start sound ingestion nothing_held

main-releases_example :
    let m = main sound retry_router (ok tt) in
    (m.0 ≡ ready tt)
    × ((r : Resource)
        → openings r m.1.acts ≡ closings r m.1.acts + count r (consumer ∷ consumer ∷ consumer ∷ []))
unfolding can_start variables checks call
main-releases_example = main-releases sound retry_router refl

abbrev shift : Shift
shift = record { world = world; metrics = no_metrics; commits = [] }

main-run_example :
    let m = main sound worker (ok tt) in
    (m.0 ≡ ready tt) × ((r : Resource) → openings r m.1.acts ≡ closings r m.1.acts)
unfolding can_start variables checks call ending
main-run_example =
    main-run texts halves (λ s. (job.type, "realtime")) (worker_realtime texts)
      (failed ∷ fetched job_written ∷ cancelled ∷ []) shift sound (ok tt) refl
      (run-received texts halves (λ s. (job.type, "realtime")) (worker_realtime texts)
        (failed ∷ fetched job_written ∷ cancelled ∷ []) shift).0
