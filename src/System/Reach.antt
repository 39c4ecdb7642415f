-- ===== src/System/Reach.antt =====
-- What holds after any sequence of events, with any faults.
use processing_platform.Prelude.{String, ◌≡◌, List, [], ◌∷◌, All, Any}
use processing_platform.World.{M}
use processing_platform.World.Keeps.{Inv, Keeps, Keeps-apply}
use processing_platform.Codec.{Codec}
use processing_platform.Retry.{Float64}
use processing_platform.Api.{Acquirer}
use processing_platform.Store.Rows.{Job}
use processing_platform.Store.Queries.{create_device}
use processing_platform.Store.Sound.{IsSound}
use processing_platform.System.Kept.{Kept, Keeps-query, Evidence}
use processing_platform.System.Identity.{Identity, identity, HasJob-Kept}
use processing_platform.System.Invariants.{Sound-Kept, Backed-Kept, IsDated, Dated-Kept}
use processing_platform.System.Programs.Worker.{Keeps-process_one_wired}
use processing_platform.System.Programs.Reaper.{Keeps-scan_once, Keeps-drain_one}
use processing_platform.System.Programs.Api.{Keeps-get_job_response, submit_job-Leaves}
use processing_platform.System.Programs.Ingestion.{Keeps-handle_message}
use processing_platform.System.Run.{
  Event, submits, looks_up, works_realtime, works_standard, works_bulk, reaps, routes, ingests,
  seeds, passes, System, after, handle, run,
}

module _ (cx : Codec) (fp : Float64) (acq : Acquirer) where
  abbrev Holds : Inv → System cx fp acq → Type 0
  Holds P s = P s.world.db s.world.outbox

  module _ {P : Inv} (k : Kept cx.uuid_string P) where
    after-Holds :
        {A : Type 0} {m : M A}
        → Keeps P m
        → (s : System cx fp acq) → Holds P s
        → Holds P (after cx fp acq m s)
    unfolding after
    after-Holds t s p = Keeps-apply t s.world p

    Keeps-create_device : (id : String) → Keeps P (create_device id)
    unfolding create_device
    Keeps-create_device id = Keeps-query _ k.by_beat (k.by_create_device id)

    handle-Holds : (e : Event) (s : System cx fp acq) → Holds P s → Holds P (handle cx fp acq e s)
    unfolding handle
    handle-Holds (submits body) s p = submit_job-Leaves cx k acq body s.server s.world p
    handle-Holds (looks_up id) s p = after-Holds (Keeps-get_job_response cx k id) s p
    handle-Holds (works_realtime m) s p = after-Holds (Keeps-process_one_wired cx fp k _ _ _ m) s p
    handle-Holds (works_standard m) s p = after-Holds (Keeps-process_one_wired cx fp k _ _ _ m) s p
    handle-Holds (works_bulk m) s p = after-Holds (Keeps-process_one_wired cx fp k _ _ _ m) s p
    handle-Holds reaps s p = after-Holds (Keeps-scan_once cx k) s p
    handle-Holds (routes tier m cancel) s p = after-Holds (Keeps-drain_one cx k tier m cancel) s p
    handle-Holds (ingests topic raw) s p = after-Holds (Keeps-handle_message cx k topic raw) s p
    handle-Holds (seeds id) s p = after-Holds (Keeps-create_device id) s p
    handle-Holds (passes t calls draws trace) s p = p

    run-Holds : (es : List Event) (s : System cx fp acq) → Holds P s → Holds P (run cx fp acq es s)
    unfolding run
    run-Holds [] s p = p
    run-Holds (e ∷ es) s p = run-Holds es (handle cx fp acq e s) (handle-Holds e s p)

  -- From sound tables, any sequence of submissions, lookups, worker, reaper, router and ingestion
  -- operations, under any faults, leaves sound tables: job ids and pairs of idempotency key and
  -- type are unique, states are legal, and every row refers to a device that is there.
  pub run-IsSound :
      (es : List Event) (s : System cx fp acq)
      → IsSound s.world.db
      → IsSound (run cx fp acq es s).world.db
  run-IsSound es s h = run-Holds Sound-Kept es s h

  -- If at first every job in RETRY has a message with its id on a retry topic and every job in
  -- FAILED one among the dead letters, then so it is after any sequence of operations, under any
  -- faults.
  pub run-Evidence :
      (es : List Event) (s : System cx fp acq)
      → All (λ (j : Job). Evidence (cx.uuid_string j.id) j.state s.world.outbox) s.world.db.jobs
      → let s' = run cx fp acq es s in
        All (λ (j : Job). Evidence (cx.uuid_string j.id) j.state s'.world.outbox) s'.world.db.jobs
  run-Evidence es s h = run-Holds Backed-Kept es s h

  -- If at first every RUNNING job has its start time and every SUCCESS or FAILED job its finish
  -- time, then so it is after any sequence of operations, under any faults.
  pub run-IsDated :
      (es : List Event) (s : System cx fp acq)
      → All (IsDated s.world.outbox) s.world.db.jobs
      → let s' = run cx fp acq es s in All (IsDated s'.world.outbox) s'.world.db.jobs
  run-IsDated es s h = run-Holds Dated-Kept es s h

  -- A job that is in the table stays there after any sequence of operations, under any faults,
  -- with its id, type, tier, device, payload, key, attempt limit and creation time.
  pub run-HasJob :
      (es : List Event) (s : System cx fp acq) (i : Identity)
      → Any (λ (j : Job). identity j ≡ i) s.world.db.jobs
      → Any (λ (j : Job). identity j ≡ i) (run cx fp acq es s).world.db.jobs
  run-HasJob es s i h = run-Holds (HasJob-Kept i) es s h
