-- ===== src/Worker.antt =====
-- internal/worker/worker.go: a message is decoded, its job looked up, handled under a heartbeat, and
-- marked SUCCESS, sent to the retry topic or to the dead letters.
pub mod Stands
pub mod Beside
pub mod Failing
pub mod Loop
pub mod Poison
pub mod Announced
use processing_platform.Prelude.{
  ℕ, ◌+◌, ◌/◌, String, ◌<>◌, Option, none, some, List, leb, str_eq, if◌then◌else◌,
}
use processing_platform.Failure.{Result, ok, err, new, error_text}
use processing_platform.Jobs.State.{state_running, state_success, state_retry, state_failed}
use processing_platform.World.{
  M, Message, pure, raise, lift, wrapping, attempt, now, draw, ◌>>=◌, ◌>>◌,
}
use processing_platform.Kafka.{publish, publish_with_header}
use processing_platform.Codec.{Codec, KafkaJobMsg}
use processing_platform.Retry.{Float64, second, next_at}
use processing_platform.Store.Rows.{Job}
use processing_platform.Store.Queries.{get_job, update_job_state, increment_job_attempts}
use processing_platform.Handlers.{Handler, registry_get}

-- `Config`.
pub record Config : Type 0 where
  pub topic : String
  pub group_id : String
  pub allowed_tier : String
  pub registry : List (String × Handler)

-- The heartbeat goroutine: from now on any request may be preceded by its write.
unfoldable pub start_heartbeat : ℕ → M (Unit {0})
start_heartbeat id w = (ok tt, record w { beating = some id })

unfoldable pub stop_heartbeat : M (Unit {0})
stop_heartbeat w = (ok tt, record w { beating = none })

abbrev pub to_state : ℕ → String → Option String → M Job
to_state id state last_error =
    update_job_state (record { id = id; state = state; last_error = last_error })

module _ (cx : Codec) (fp : Float64) where
  unfoldable pub send_to_dlq : String → ℕ → String → M (Unit {0})
  send_to_dlq value id msg = do
    wrapping "publish dlq" (publish "jobs.dlq" (cx.uuid_string id) value)
    to_state id state_failed (some msg)
    pure tt

  unfoldable pub send_to_retry : Config → String → ℕ → ℕ → String → M (Unit {0})
  send_to_retry cfg value id attempt_no msg = do
    t ← now
    r ← draw
    wrapping "publish retry" (
        publish_with_header (cfg.topic <> ".retry") (cx.uuid_string id) value "retry-at"
          (cx.format_int (next_at fp t attempt_no r / second)))
    to_state id state_retry (some msg)
    increment_job_attempts id
    pure tt

  -- After the handler: the outcome of the scheduling is logged, and the handler's error returned.
  unfoldable pub conclude : Config → String → Job → ℕ → Result (Unit {0}) → M (Unit {0})
  conclude cfg value job id (ok _) = do to_state id state_success none; pure tt
  conclude cfg value job id (err e) =
      if leb job.max_attempts (job.attempts + 1)
      then (do attempt (send_to_dlq value id (error_text e)); raise e)
      else (do attempt (send_to_retry cfg value id (job.attempts + 1) (error_text e)); raise e)

  -- With the handler found, or not: an unknown type goes straight to the dead letters.
  unfoldable pub dispatch : Config → Message → KafkaJobMsg → ℕ → Job → Option Handler → M (Unit {0})
  unfolding start_heartbeat stop_heartbeat
  dispatch cfg msg m id job none =
      send_to_dlq msg.value id ("no handler for type " <> cx.quote m.type)
  dispatch cfg msg m id job (some handle) = do
    wrapping "update RUNNING" (to_state id state_running none)
    start_heartbeat id
    outcome ← attempt (
        handle
          (record { id = m.job_id; type = m.type; device_id = m.device_id; payload = m.payload }))
    stop_heartbeat
    conclude cfg msg.value job id outcome

  -- The message is of this worker's tier.
  unfoldable pub process_owned : Config → Message → KafkaJobMsg → M (Unit {0})
  process_owned cfg msg m = do
    id ← lift (cx.parse_uuid m.job_id)
    job ← wrapping "get job" (get_job id)
    dispatch cfg msg m id job (registry_get cfg.registry m.type)

  -- The tier of the message is compared with the worker's own.
  unfoldable pub process_decoded : Config → Message → KafkaJobMsg → M (Unit {0})
  process_decoded cfg msg m =
      if str_eq m.tier cfg.allowed_tier
      then process_owned cfg msg m
      else raise (
          new (
            "misrouted: tier "
            <> (cx.quote m.tier <> (" ≠ allowed " <> cx.quote cfg.allowed_tier))))

  unfoldable pub process_one : Config → Message → M (Unit {0})
  process_one cfg msg = do
    m ← wrapping "decode kafka message" (lift (cx.unmarshal_job msg.value))
    process_decoded cfg msg m
