-- ===== src/Handlers.antt =====
-- internal/handlers: one handler for each type of job, and the registry.
use processing_platform.Prelude.{
  ℕ, ◌-◌, ◌/◌, ◌%◌, ◌^◌, String, ◌<>◌, Bool, true, false, Option, none, some, List, [], ◌∷◌, str_eq,
  ltb, if◌then◌else◌,
}
use processing_platform.Failure.{Result, ok, err, error_text, is_deadline_exceeded}
use processing_platform.Jobs.Types.{
  type_telemetry_processing, type_remote_command, type_firmware_update, type_health_check,
  type_alert_generation,
}
use processing_platform.World.{M, pure, raise, lift, wrapping, attempt, now, micros, ◌>>=◌, ◌>>◌}
use processing_platform.Codec.{Codec, ℤ, pos, negsuc, FirmwarePayload, HealthResponse}
use processing_platform.Store.Queries.{
  insert_device_metric, insert_command_audit, insert_firmware_attempt, update_device_firmware,
  touch_device, insert_alert,
}

-- `handlers.Job`.
pub record HandlerJob : Type 0 where
  pub id : String
  pub type : String
  pub device_id : String
  pub payload : String

abbrev pub Handler : Type 0
Handler = HandlerJob → M (Unit {0})

-- `handlers.Deps`: the three interfaces. On an error a client answers with no value.
pub record Deps : Type 0 where
  pub send_command : String → String → Option String → M String
  pub get_health : String → M HealthResponse
  pub push_firmware : String → String → M (Unit {0})
  pub post_alert : String → String → String → M (Unit {0})
  pub submit : String → String → String → String → M (Unit {0})

-- `errors.Is` decides between the two failures of a command.
unfoldable pub command_result : Result String → String
command_result (ok resp) = "SUCCESS"
command_result (err e) = if is_deadline_exceeded e then "TIMEOUT" else "FAILURE"

abbrev pub response_of : Result String → Option String
response_of (ok resp) = some resp
response_of (err e) = none

-- `int32(n)` of a number that is not negative.
unfoldable pub int32 : ℕ → ℤ
int32 n = let r = n % 2 ^ 32 in if ltb r (2 ^ 31) then pos r else negsuc (2 ^ 32 - r - 1)

-- A jsonb column that may be NULL.
abbrev jsonb_option : (String → String) → Option String → Option String
jsonb_option jsonb none = none
jsonb_option jsonb (some s) = some (jsonb s)

-- `return err`.
unfoldable pub give_back : {A : Type 0} → Result A → M (Unit {0})
give_back (ok a) = pure tt
give_back (err e) = raise e

unfoldable pub firmware_state : Result (Unit {0}) → String
firmware_state (ok _) = "APPLIED"
firmware_state (err e) = "FAILED"

abbrev pub failure_reason_of : Result (Unit {0}) → Option String
failure_reason_of (ok _) = none
failure_reason_of (err e) = some (error_text e)

unfoldable pub sampled_at : Option ℕ → M ℕ
sampled_at (some t) = pure t
sampled_at none = do t ← now; pure (micros t)

module _ (cx : Codec) (deps : Deps) where
  unfoldable pub handle_telemetry : Handler
  handle_telemetry j = do
    p ← wrapping "decode telemetry payload" (lift (cx.unmarshal_telemetry j.payload))
    at ← sampled_at p.timestamp
    insert_device_metric
        (record { device_id = j.device_id; metric_at = at; avg_value = p.value; sample_count = 1 })
    pure tt

  -- The audit row is written whatever the command's outcome; the duration is an int32.
  unfoldable pub handle_remote_command : Handler
  handle_remote_command j = do
    p ← wrapping "decode remote-command payload" (lift (cx.unmarshal_command j.payload))
    start ← now
    sent ← attempt (deps.send_command j.device_id p.command p.arguments)
    end ← now
    wrapping "insert command audit" (
        insert_command_audit (record {
          device_id = j.device_id;
          command = p.command;
          arguments = jsonb_option cx.jsonb p.arguments;
          result = command_result sent;
          response = jsonb_option cx.jsonb (response_of sent);
          duration_ms = int32 ((end - start) / 1000000);
        }))
    give_back sent

  -- The bump of the device's version, on success only.
  unfoldable pub after_push : HandlerJob → FirmwarePayload → Result (Unit {0}) → M (Unit {0})
  after_push j p (ok _) =
      wrapping "update device firmware" (update_device_firmware j.device_id (some p.target_version))
  after_push j p (err e) = raise e

  unfoldable pub handle_firmware : Handler
  handle_firmware j = do
    p ← wrapping "decode firmware payload" (lift (cx.unmarshal_firmware j.payload))
    pushed ← attempt (deps.push_firmware j.device_id p.target_version)
    wrapping "insert firmware attempt" (
        insert_firmware_attempt (record {
          device_id = j.device_id;
          target_version = p.target_version;
          state = firmware_state pushed;
          failure_reason = failure_reason_of pushed;
        }))
    after_push j p pushed

  -- The key of the alert that a health check submits.
  unfoldable pub alert_key : HandlerJob → String
  alert_key j = "alert-from-" <> j.id

  -- Unhealthy: a DEVICE_ALERT_GENERATION job is submitted.
  unfoldable pub after_health : HandlerJob → HealthResponse → Bool → M (Unit {0})
  unfolding alert_key
  after_health j h true = pure tt
  after_health j h false =
      let message =
        "device " <> (j.device_id <> (" unhealthy (last seen " <> (h.last_seen_ago <> " ago)"))) in
      deps.submit type_alert_generation j.device_id (alert_key j)
        (cx.marshal_alert_request "WARN" message j.id)

  unfoldable pub handle_health_check : Handler
  handle_health_check j = do
    h ← wrapping "device health check" (deps.get_health j.device_id)
    wrapping "touch device" (touch_device j.device_id)
    after_health j h h.healthy

  unfoldable pub handle_alert : Handler
  handle_alert j = do
    p ← wrapping "decode alert payload" (lift (cx.unmarshal_alert j.payload))
    wrapping "insert alert" (
        insert_alert (record {
          device_id = j.device_id;
          severity = p.severity;
          message = p.message;
          payload = cx.jsonb (if str_eq p.extra "" then "{}" else p.extra);
        }))
    deps.post_alert p.severity p.message p.extra

  -- `Build`.
  unfoldable pub build : List (String × Handler)
  build =
      (type_telemetry_processing, handle_telemetry)
      ∷ (type_remote_command, handle_remote_command)
      ∷ (type_firmware_update, handle_firmware)
      ∷ (type_health_check, handle_health_check)
      ∷ (type_alert_generation, handle_alert)
      ∷ []

-- `Registry.Get`; its error is `none`.
unfoldable pub registry_get : List (String × Handler) → String → Option Handler
registry_get [] t = none
registry_get ((k, h) ∷ r) t = if str_eq k t then some h else registry_get r t
