-- ===== src/Scenarios/Deliveries.antt =====
-- Messages that fail, repeat or come back, at concrete inputs.
use processing_platform.Worker.Announced.{received_as, unmarshal-job_message}
use processing_platform.Wiring.{wired, worker_realtime}
use processing_platform.Prelude.{String, ◌≡◌, refl, inl, none, some, List, [], ◌∷◌, map}
use processing_platform.Failure.{Err, Result, ok, err, new}
use processing_platform.World.{
  Message, World, lift, wrapping, pure, now, attempt, ◌>>=◌, request, arrive, settle_as, query,
  run_statement,
}
use processing_platform.Codec.{KafkaJobMsg}
use processing_platform.Kafka.{publish, write_messages}
use processing_platform.DevSim.{device_topic}
use processing_platform.Ingestion.{split, payload_of, ingest_key, ingest_parts, handle_message}
use processing_platform.Ingestion.Once.{handle_message-once}
use processing_platform.Jobs.Types.{tier_for}
use processing_platform.Jobs.State.{state_queued, state_running}
use processing_platform.Metrics.{no_metrics}
use processing_platform.Store.Rows.{Job}
use processing_platform.Store.Sql.Base.{find_job, has_device}
use processing_platform.Store.Sql.Jobs
use processing_platform.Store.Sql.Jobs.{
  new_job, same_key, update_job, set_state, state_check, coalesce,
}
use processing_platform.Store.Queries.{create_job, update_job_state}
use processing_platform.Handlers.{Handler, registry_get, build, handle_remote_command}
use processing_platform.Submitter.{job_message}
use processing_platform.Worker.{to_state, dispatch}
use processing_platform.Worker.Stands.{Stands}
use processing_platform.Worker.Failing.{given, Fails, IsPoison}
use processing_platform.Worker.Loop.{Fetch, cancelled, failed, fetched, Shift}
use processing_platform.Worker.Loop.Counts.{dispatch-err}
use processing_platform.Api
use processing_platform.Reaper
use processing_platform.Submitter
use processing_platform.Submitter.{tier_result, announce, mark_queued, submit}
use processing_platform.Submitter.Duplicate.{submit-duplicate}
use processing_platform.Api.Once.{Untouched}
use processing_platform.System.Identity.{identity}
use processing_platform.Scenarios.Texts.{texts, unary}
use processing_platform.Scenarios.Floats.{halves}
use processing_platform.Scenarios.Plant.{job, tables, world, job_written}

-- A job whose payload is no object: the handler of remote commands cannot decode it.
abbrev pub bad_job : Job
bad_job = record job { payload = "bad" }

abbrev pub bad_message : Message
bad_message = record job_written { value = texts.marshal_object (job_message texts bad_job) }

abbrev pub bad_world : World
bad_world = record world { db = record tables { jobs = bad_job ∷ [] }; outbox = [] }

-- It fails before it writes anything.
bad-Fails :
    Fails (handle_remote_command texts (wired texts)) (given (received_as texts bad_job)) 7 3
unfolding handle_remote_command lift wrapping ◌>>=◌
bad-Fails attempts o v s = (_, v, o, refl, s)

pub poison : IsPoison texts halves (worker_realtime texts) bad_message 7 3
unfolding registry_get build
poison = record {
  decoded = received_as texts bad_job;
  decodes = (unmarshal-job_message texts bad_job).1;
  owned = refl;
  names = texts.parse-uuid_string 7;
  handle = handle_remote_command texts (wired texts);
  registered = refl;
  fails = bad-Fails;
}

pub stands : Stands 7 3 0 state_queued [] bad_world
unfolding find_job
stands = record {
  calm = refl;
  job = bad_job;
  found = refl;
  has_limit = refl;
  has_attempts = refl;
  has_state = refl;
  outbox = refl;
}

abbrev shift : Shift
shift = record { world = world; metrics = no_metrics; commits = [] }

abbrev fetches : List Fetch
fetches = fetched job_written ∷ failed ∷ fetched job_written ∷ cancelled ∷ []

abbrev peeked : String → String × String
peeked value = (job.type, "realtime")

submit-duplicate_example :
    let r = submit texts job.type "d1" "key-0001" "{}" world in
    ((e : Err) × (r.0 ≡ err e))
    × Untouched world.outbox (map identity world.db.jobs) r.1.db r.1.outbox
submit-duplicate_example =
    submit-duplicate texts job.type "d1" "key-0001" "{}" world (inl (refl, refl))

abbrev after_first : World
after_first = (handle_message texts (device_topic "d1") "{}" world).1

handle_message-once_example :
    let s = handle_message texts (device_topic "d1") "again" after_first in
    ((e : Err) × (s.0 ≡ err e))
    × Untouched after_first.outbox (map identity after_first.db.jobs) s.1.db s.1.outbox
unfolding handle_message ingest_parts split device_topic ingest_key payload_of submit tier_for
    tier_result lift wrapping announce mark_queued pure now attempt ◌>>=◌ request arrive settle_as
    query run_statement publish write_messages has_device find_job new_job same_key update_job
    set_state state_check create_job update_job_state Jobs.create_job Jobs.update_job_state unary
handle_message-once_example =
    handle_message-once texts "d1" "{}" "again" world after_first (refl, (refl, tt)) refl (λ i h. h)
      refl

abbrev parsed : KafkaJobMsg
parsed = record {
  job_id = texts.uuid_string 7;
  type = job.type;
  tier = "realtime";
  device_id = "d1";
  payload = "{}";
}

abbrev failing : Handler
failing = λ j w. (err (new "broken"), w)

abbrev running : Result Job × World
running = to_state 7 state_running none world

abbrev running_row : Job
running_row = record job { state = state_running; started_at = some 9000; updated_at = 9000 }

dispatch-err_example :
    (dispatch texts halves (worker_realtime texts) job_written parsed 7 job (some failing) world).0
    ≡ err (new "broken")
unfolding request arrive settle_as query run_statement find_job update_job set_state state_check
    coalesce update_job_state Jobs.update_job_state
dispatch-err_example =
    dispatch-err texts halves (λ s. ("", "")) (worker_realtime texts) job_written parsed 7 job
      running_row failing (new "broken") world running.1 refl refl

unmarshal-job_message_example :
    (texts.unmarshal_job (texts.marshal_object (Api.job_message texts job))
      ≡ ok (received_as texts job))
    × (texts.unmarshal_job (texts.marshal_object (Submitter.job_message texts job))
        ≡ ok (received_as texts job))
    × (texts.unmarshal_job (texts.marshal_object (Reaper.job_message texts job))
        ≡ ok (received_as texts job))
unmarshal-job_message_example = unmarshal-job_message texts job
