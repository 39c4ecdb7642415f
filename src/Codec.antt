-- ===== src/Codec.antt =====
-- What the program takes from libraries to read and write bytes: encoding/json, google/uuid,
-- strconv and fmt. A document is a text; each decoder is `json.Unmarshal` into the struct named.
use processing_platform.Prelude.{
  ℕ, String, ◌≡◌, Option, none, some, List, [], ◌∷◌, Bool, str_eq, length, if◌then◌else◌,
}
use processing_platform.Failure.{Result, ok}

-- The integers of `strconv.ParseInt`; `negsuc n` is -(n + 1).
pub data ℤ : Type 0 where
  pos : ℕ → ℤ
  negsuc : ℕ → ℤ

-- The message on the job topics: internal/worker/worker.go's `kafkaJobMsg`.
pub record KafkaJobMsg : Type 0 where
  pub job_id : String
  pub type : String
  pub tier : String
  pub device_id : String
  pub payload : String

-- A value of a Go map[string]any that the program marshals: a string, or a json.RawMessage.
pub data Field : Type 0 where
  text raw : String → Field

abbrev text_of : Option Field → Option String
text_of (some (text s)) = some s
text_of (some (raw s)) = none
text_of none = none

abbrev raw_of : Option Field → Option String
raw_of (some (raw s)) = some s
raw_of (some (text s)) = none
raw_of none = none

abbrev value_of : List (String × Field) → String → Option Field
value_of [] k = none
value_of ((j, v) ∷ fs) k = let rest = value_of fs k in if str_eq j k then some v else rest

abbrev with_text : {A : Type 0} → Option String → (String → Option A) → Option A
with_text none f = none
with_text (some s) f = f s

-- The fields of a `kafkaJobMsg` by its struct tags, from an object that has them all.
unfoldable pub read_fields : List (String × Field) → Option KafkaJobMsg
read_fields fs = with_text (text_of (value_of fs "job_id")) λ job_id.
    with_text (text_of (value_of fs "type")) λ type.
      with_text (text_of (value_of fs "tier")) λ tier.
        with_text (text_of (value_of fs "device_id")) λ device_id.
          with_text (raw_of (value_of fs "payload")) λ payload. some (record {
            job_id = job_id;
            type = type;
            tier = tier;
            device_id = device_id;
            payload = payload;
          })

-- internal/handlers/telemetry.go; `timestamp` is `none` where `IsZero`, in microseconds.
pub record TelemetryPayload : Type 0 where
  pub value : String
  pub timestamp : Option ℕ

pub record RemoteCommandPayload : Type 0 where
  pub command : String
  pub arguments : Option String

pub record FirmwarePayload : Type 0 where
  pub target_version : String

pub record AlertPayload : Type 0 where
  pub severity : String
  pub message : String
  pub extra : String

-- The answer of the device service to /health.
pub record HealthResponse : Type 0 where
  pub healthy : Bool
  pub last_seen_ago : String

-- cmd/api's `submitJobRequest`.
pub record SubmitJobRequest : Type 0 where
  pub type : String
  pub device_id : String
  pub idempotency_key : String
  pub payload : String

pub record Codec : Type 0 where
  pub uuid_string : ℕ → String
  pub parse_uuid : String → Result ℕ
  pub format_int : ℕ → String
  pub parse_int : String → Option ℤ
  pub quote : String → String  -- the verb %q
  pub compact : String → String  -- how json.Marshal rewrites a json.RawMessage
  pub jsonb : String → String  -- how Postgres prints a text that it stored as jsonb
  pub marshal_object : List (String × Field) → String  -- json.Marshal of a map
  pub unmarshal_job : String → Result KafkaJobMsg
  pub unmarshal_telemetry : String → Result TelemetryPayload
  pub unmarshal_command : String → Result RemoteCommandPayload
  pub unmarshal_firmware : String → Result FirmwarePayload
  pub unmarshal_alert : String → Result AlertPayload
  pub unmarshal_health : String → Result HealthResponse
  pub unmarshal_raw : String → Result String  -- into a json.RawMessage
  pub bind_submit : String → Result SubmitJobRequest  -- gin's ShouldBindJSON
  pub marshal_alert_request : String → String → String → String  -- severity, message, source_job_id
  pub marshal_command_call : String → String → Option String → String
  pub marshal_health_call : String → String
  pub marshal_firmware_call : String → String → String
  pub marshal_webhook_call : String → String → String → String
  pub parse-uuid_string : (id : ℕ) → parse_uuid (uuid_string id) ≡ ok id
  pub parse-format_int : (n : ℕ) → parse_int (format_int n) ≡ some (pos n)
  -- An object whose keys are the struct's tags, each with a value of the field's type.
  pub unmarshal-marshal_object :
      (fs : List (String × Field)) (m : KafkaJobMsg)
      → length fs ≡ 5
      → read_fields fs ≡ some m
      → unmarshal_job (marshal_object fs) ≡ ok (record m { payload = compact m.payload })
