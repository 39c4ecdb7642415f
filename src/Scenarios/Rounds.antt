-- ===== src/Scenarios/Rounds.antt =====
-- Messages that go the whole way, at concrete inputs.
use processing_platform.Prelude.{none, some, ◌≡◌, ◌<>◌, refl, false, List, [], ◌∷◌, map, arith}
use processing_platform.Submitter.{job_params, or_empty_object}
use processing_platform.Store.Sql.Jobs.{new_job}
use processing_platform.Worker.Loop.Counts.{onto}
use processing_platform.Router.{committed}
use processing_platform.Router.Loop.Moved.{fetched_before, moved, drain-moved}
use processing_platform.Handlers.{handle_telemetry}
use processing_platform.System.Telemetry.{handle_telemetry-Serves}
use processing_platform.System.Delivered.{Serves}
use processing_platform.Failure.{ok}
use processing_platform.World.{World, Message, prompt_call}
use processing_platform.Jobs.Types.{type_telemetry_processing, tier_for}
use processing_platform.Jobs.State.{state_queued, state_running}
use processing_platform.Handlers.{registry_get, build}
use processing_platform.Wiring.{wired, worker_realtime, worker_standard}
use processing_platform.Router.Loop.{RetryFetch, stopped, failed, got, drain}
use processing_platform.Store.Sql.Base.{find_job, has_device}
use processing_platform.Store.Sql.Jobs.{same_key}
use processing_platform.Store.Rows.{Job}
use processing_platform.Store.Sql.Stale.{stale, heartbeat_before}
use processing_platform.Reaper.{staleness, scan_once}
use processing_platform.Reaper.Scan.{Overdue}
use processing_platform.Reaper.Recovers.{Recovered}
use processing_platform.Reaper.Overdue.{scan_once-Recovered}
use processing_platform.World.Calm.{calm_stamp}
use processing_platform.Submitter.{submit}
use processing_platform.Worker.{process_one}
use processing_platform.Worker.Poison.{Dead}
use processing_platform.System.Submitted.{Admits, row}
use processing_platform.System.Delivered.{Succeeded, handed, submit-Succeeded}
use processing_platform.System.Cycle.{Travels, travels-Dead}
use processing_platform.Scenarios.Texts.{texts}
use processing_platform.Scenarios.Floats.{halves}
use processing_platform.Scenarios.Plant.{job, tables, world, job_written}
use processing_platform.Scenarios.Deliveries.{bad_message, bad_world, poison, stands}

abbrev routed : List RetryFetch
routed =
    got job_written false ∷ failed ∷ got bad_message false ∷ stopped ∷ got job_written false ∷ []

drain-moved_example :
    (w' : World) × (drain texts "realtime" routed world
      ≡ (ok (map (λ m. (m, committed (ok tt))) (fetched_before routed)), w'))
    × (w'.outbox ≡ onto (map (moved "realtime" world.trace) (fetched_before routed)) world.outbox)
    × (w'.db ≡ world.db)
drain-moved_example =
    drain-moved texts "realtime" routed world refl (refl, (tt, (refl, (tt, (refl, tt)))))

travels-Dead_example :
    (w' : World) × Travels texts halves
      (worker_realtime texts)
      "realtime"
      2
      bad_message
      bad_world
      w'
    × Dead texts halves (worker_realtime texts) 7 w'
travels-Dead_example =
    travels-Dead texts halves (worker_realtime texts) "realtime" 2 0 bad_message state_queued []
      bad_world refl poison stands refl (omega arith)

abbrev drawing : World
drawing = record world { env = record prompt_call { uuid = 8 } ∷ [] }

admits : Admits type_telemetry_processing "standard" "d1" "key-0002" 8 drawing
unfolding same_key has_device tier_for
admits = record { tier_of = refl; draws = refl; new_id = refl; new_key = refl; device = refl }

-- The telemetry handler as the standard worker wires it.
telemetry-Serves :
    Serves
      (handle_telemetry texts (wired texts))
      (handed texts (row texts "{}" admits))
      8
      drawing.db
unfolding has_device new_job job_params or_empty_object
telemetry-Serves =
    handle_telemetry-Serves texts (wired texts) _ 8 drawing.db
      (record { value = "{}"; timestamp = none }) refl refl refl

submit-Succeeded_example :
    (w₁ : World) × (msg : Message) × (w₂ : World) × (submit texts type_telemetry_processing "d1"
        "key-0002" "{}" drawing
      ≡ (ok tt, w₁))
    × (w₁.outbox ≡ msg ∷ drawing.outbox)
    × (msg.topic ≡ "jobs." <> "standard")
    × (process_one texts halves (worker_standard texts) msg w₁ ≡ (ok tt, w₂))
    × Succeeded texts halves (worker_standard texts) 8 w₂
unfolding registry_get build
submit-Succeeded_example =
    submit-Succeeded texts halves (worker_standard texts) "{}" admits
      (handle_telemetry texts (wired texts)) refl refl telemetry-Serves

-- A worker took the job and died; its last heartbeat was at five seconds.
abbrev late_job : Job
late_job = record job { state = state_running; heartbeat_at = some 5000000 }

abbrev late_world : World
late_world = record world { clock = 70000000000; db = record tables { jobs = late_job ∷ [] } }

late : Overdue staleness (calm_stamp late_world).now late_job
late = record { running = refl; last = 5000000; beat = refl; before = refl }

scan_once-Recovered_example :
    (w' : World) × (scan_once texts late_world ≡ (ok tt, w')) × Recovered texts 7 w'
unfolding find_job stale heartbeat_before
scan_once-Recovered_example =
    scan_once-Recovered texts late_world refl late_job refl late (omega arith) (omega arith)
