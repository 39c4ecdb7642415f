-- ===== src/Store/Rows.antt =====
-- The rows of the tables: internal/store/db/models.go, and the parameters of the queries
-- (internal/store/db/queries.sql.go). A uuid.UUID is the number that its 16 bytes spell, a time is
-- in microseconds as Postgres keeps it, a `[]byte` of JSON is a text (of a jsonb column, the one that Postgres prints), a float64 is opaque text.
use processing_platform.Prelude.{ℕ, String, Bool, Option, List}
use processing_platform.Codec.{ℤ}

pub record Device : Type 0 where
  pub id : String
  pub created_at : ℕ
  pub last_seen_at : Option ℕ
  pub firmware_version : Option String

pub record Job : Type 0 where
  pub id : ℕ
  pub type : String
  pub tier : String
  pub device_id : String
  pub state : String
  pub payload : String
  pub idempotency_key : String
  pub attempts : ℕ
  pub max_attempts : ℕ
  pub last_error : Option String
  pub heartbeat_at : Option ℕ
  pub started_at : Option ℕ
  pub finished_at : Option ℕ
  pub created_at : ℕ
  pub updated_at : ℕ

pub record DeviceMetric : Type 0 where
  pub id : ℕ
  pub device_id : String
  pub metric_at : ℕ
  pub avg_value : String
  pub sample_count : ℕ
  pub created_at : ℕ

pub record FirmwareHistory : Type 0 where
  pub id : ℕ
  pub device_id : String
  pub target_version : String
  pub state : String
  pub failure_reason : Option String
  pub attempted_at : ℕ

pub record CommandAudit : Type 0 where
  pub id : ℕ
  pub device_id : String
  pub command : String
  pub arguments : String
  pub result : String
  pub response : Option String
  pub duration_ms : ℤ
  pub executed_at : ℕ

pub record Alert : Type 0 where
  pub id : ℕ
  pub device_id : String
  pub severity : String
  pub message : String
  pub payload : String
  pub acknowledged : Bool
  pub created_at : ℕ

-- The six tables of migrations/.
pub record Db : Type 0 where
  pub devices : List Device
  pub jobs : List Job
  pub device_metrics : List DeviceMetric
  pub firmware_history : List FirmwareHistory
  pub command_audit : List CommandAudit
  pub alerts : List Alert

-- `payload` is the value of the jsonb column, as Postgres prints it (`Codec.jsonb`).
pub record CreateJobParams : Type 0 where
  pub type : String
  pub tier : String
  pub device_id : String
  pub payload : String
  pub idempotency_key : String
  pub max_attempts : ℕ

pub record UpdateJobStateParams : Type 0 where
  pub id : ℕ
  pub state : String
  pub last_error : Option String

pub record InsertDeviceMetricParams : Type 0 where
  pub device_id : String
  pub metric_at : ℕ
  pub avg_value : String
  pub sample_count : ℕ

pub record InsertFirmwareAttemptParams : Type 0 where
  pub device_id : String
  pub target_version : String
  pub state : String
  pub failure_reason : Option String

pub record InsertCommandAuditParams : Type 0 where
  pub device_id : String
  pub command : String
  pub arguments : Option String
  pub result : String
  pub response : Option String
  pub duration_ms : ℤ

pub record InsertAlertParams : Type 0 where
  pub device_id : String
  pub severity : String
  pub message : String
  pub payload : String

pub record ReapStaleJobsRow : Type 0 where
  pub id : ℕ
  pub type : String
  pub tier : String
  pub attempts : ℕ
  pub max_attempts : ℕ

pub record GetDeviceForHealthCheckRow : Type 0 where
  pub id : String
  pub last_seen_at : Option ℕ
  pub firmware_version : Option String
