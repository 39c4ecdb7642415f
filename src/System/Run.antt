-- ===== src/System/Run.antt =====
-- Any sequence of operations of the platform's processes, with time, faults and answers between
-- them as the environment chooses.
use processing_platform.Prelude.{ℕ, ◌+◌, String, Bool, List, [], ◌∷◌}
use processing_platform.World.{World, M, Message, Call}
use processing_platform.Codec.{Codec}
use processing_platform.Retry.{Float64}
use processing_platform.Api.{Acquirer, submit_job, get_job_response}
use processing_platform.Worker.{process_one}
use processing_platform.Wiring.{worker_realtime, worker_standard, worker_bulk}
use processing_platform.Reaper.{scan_once}
use processing_platform.Router.{drain_one}
use processing_platform.Ingestion.{handle_message}
use processing_platform.Store.Queries.{create_device}

pub data Event : Type 0 where
  submits : String → Event  -- POST /jobs with this body
  looks_up : String → Event  -- GET /jobs/:id
  works_realtime : Message → Event
  works_standard : Message → Event
  works_bulk : Message → Event
  reaps : Event
  routes : String → Message → Bool → Event  -- the tier, the message, whether it is cancelled
  ingests : String → String → Event  -- the MQTT topic and payload
  seeds : String → Event  -- a device is registered
  -- Time passes, and the next answers of the servers, draws and trace headers are these.
  passes : ℕ → List Call → List ℕ → List (String × String) → Event

module _ (cx : Codec) (fp : Float64) (acq : Acquirer) where
  pub record System : Type 0 where
    pub world : World
    pub server : acq.Server

  unfoldable pub after : {A : Type 0} → M A → System → System
  after m s = record s { world = (m s.world).1 }

  unfoldable pub handle : Event → System → System
  unfolding after
  handle (submits body) s =
      let r = submit_job cx acq body s.server s.world in record { world = r.0.1; server = r.1 }
  handle (looks_up id) s = after (get_job_response cx id) s
  handle (works_realtime m) s = after (process_one cx fp (worker_realtime cx) m) s
  handle (works_standard m) s = after (process_one cx fp (worker_standard cx) m) s
  handle (works_bulk m) s = after (process_one cx fp (worker_bulk cx) m) s
  handle reaps s = after (scan_once cx) s
  handle (routes tier m cancel) s = after (drain_one cx tier m cancel) s
  handle (ingests topic raw) s = after (handle_message cx topic raw) s
  handle (seeds id) s = after (create_device id) s
  handle (passes t calls draws trace) s = record s {
    world = record s.world { clock = s.world.clock + t; env = calls; draws = draws; trace = trace };
  }

  unfoldable pub run : List Event → System → System
  unfolding handle
  run [] s = s
  run (e ∷ es) s = run es (handle e s)
