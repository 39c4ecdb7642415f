-- ===== src/Scenarios/Plant.antt =====
-- A concrete platform: one device, one queued job, and a server of keys that takes each one.
use processing_platform.Prelude.{ℕ, ◌+◌, true, none, List, [], ◌∷◌, All, refl}
use processing_platform.Failure.{ok}
use processing_platform.World.{World, Message, prompt_call, refused, lost}
use processing_platform.Jobs.Types.{type_remote_command, tier_realtime}
use processing_platform.Jobs.State.{state_queued, is_terminal}
use processing_platform.Store.Sql.Jobs.{state_check}
use processing_platform.Api.{Acquirer}
use processing_platform.Store.Rows.{Db, Device, Job}
use processing_platform.Store.Sound.{IsSound}
use processing_platform.Submitter.{job_message}
use processing_platform.Scenarios.Texts.{texts}
use processing_platform.Scenarios.Floats.{halves}
use processing_platform.System.Kept.{Evidence}
use processing_platform.System.Programs.Base.{no-Evidence}
use processing_platform.System.Invariants.{IsDated}
use processing_platform.System.Run.{
  Event, System, submits, looks_up, works_realtime, reaps, routes, ingests, passes,
}

-- Ids count up from the server's state, and every key is new.
abbrev pub counter : Acquirer
counter = record { Server = ℕ; acquire = λ key n. (ok (n, true), n + 1) }

abbrev pub device : Device
device = record { id = "d1"; created_at = 0; last_seen_at = none; firmware_version = none }

abbrev pub job : Job
job = record {
  id = 7;
  type = type_remote_command;
  tier = tier_realtime;
  device_id = "d1";
  state = state_queued;
  payload = "{}";
  idempotency_key = "key-0001";
  attempts = 0;
  max_attempts = 3;
  last_error = none;
  heartbeat_at = none;
  started_at = none;
  finished_at = none;
  created_at = 5;
  updated_at = 5;
}

abbrev pub tables : Db
tables = record {
  devices = device ∷ [];
  jobs = job ∷ [];
  device_metrics = [];
  firmware_history = [];
  command_audit = [];
  alerts = [];
}

abbrev pub job_written : Message
job_written = record {
  topic = "jobs.realtime";
  key = "d1";
  value = texts.marshal_object (job_message texts job);
  headers = ("retry-at", texts.format_int 3) ∷ [];
}

abbrev pub world : World
world = record {
  db = tables;
  outbox = job_written ∷ [];
  requests = [];
  clock = 9000000;
  beating = none;
  trace = [];
  env = [];
  draws = [];
}

abbrev pub system : System texts halves counter
system = record { world = world; server = 8 }

-- A handler that fails and whose job goes to the retry topic, a lost answer, and a retry.
abbrev pub events : List Event
events =
    passes 1000
      (prompt_call
        ∷ record prompt_call { beat = true }
        ∷ record prompt_call { status = 503 }
        ∷ prompt_call
        ∷ record prompt_call { fate = lost }
        ∷ [])
      (1 ∷ []) (("traceparent", "00") ∷ [])
    ∷ works_realtime job_written
    ∷ submits "key-0002"
    ∷ passes 70000000000 (record prompt_call { fate = refused } ∷ []) [] []
    ∷ reaps
    ∷ routes "realtime" job_written true
    ∷ works_realtime job_written
    ∷ ingests "devices/d1/telemetry" "{}"
    ∷ looks_up (texts.uuid_string 7)
    ∷ []

-- The tables start sound.
pub tables-IsSound : IsSound tables
unfolding state_check
tables-IsSound = record {
  device_ids = (tt, tt);
  job_ids = (tt, tt);
  job_keys = (tt, tt);
  job_states = (refl, tt);
  job_devices = (refl, tt);
  metric_devices = tt;
  firmware_devices = tt;
  audit_devices = tt;
  alert_devices = tt;
}

pub jobs-Evidence :
    All (λ (j : Job). Evidence (texts.uuid_string j.id) j.state world.outbox) tables.jobs
jobs-Evidence = (no-Evidence (texts.uuid_string 7) state_queued world.outbox refl refl, tt)

pub jobs-IsDated : All (IsDated world.outbox) tables.jobs
unfolding is_terminal
jobs-IsDated = (record { started = λ q. cc q; finished = λ q. cc q }, tt)
