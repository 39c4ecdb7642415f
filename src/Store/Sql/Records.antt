-- ===== src/Store/Sql/Records.antt =====
-- The inserts that the handlers make into the tables of migrations/000003: each row refers to a
-- device, and its primary key is fresh.
use processing_platform.Prelude.{
  String, Bool, true, false, Option, none, some, ◌||◌, ◌∷◌, ◌==◌, str_eq, if◌then◌else◌, any,
}
use processing_platform.Failure.{
  Result, ok, err, violation, primary_key, foreign_key, check_constraint, not_null,
}
use processing_platform.Store.Rows.{
  Db, DeviceMetric, FirmwareHistory, CommandAudit, Alert, InsertDeviceMetricParams,
  InsertFirmwareAttemptParams, InsertCommandAuditParams, InsertAlertParams,
}
use processing_platform.Store.Sql.Base.{Stamp, Statement, has_device}

-- The checks of an insert: the table's CHECK, then the primary key, then the reference.
unfoldable pub insert_row :
    {A : Type 0} → Bool → Bool → String → A → Db → Stamp → Db → Result A × Db
unfolding has_device
insert_row check taken device_id row after s db =
    if check
    then (if taken
        then (err (violation primary_key s.text), db)
        else if has_device device_id db
        then (ok row, after)
        else (err (violation foreign_key s.text), db))
    else (err (violation check_constraint s.text), db)

unfoldable pub insert_device_metric : InsertDeviceMetricParams → Statement DeviceMetric
unfolding insert_row
insert_device_metric p s db =
    let row : DeviceMetric = record {
      id = s.uuid;
      device_id = p.device_id;
      metric_at = p.metric_at;
      avg_value = p.avg_value;
      sample_count = p.sample_count;
      created_at = s.now;
    } in
    insert_row true (any (λ (r : DeviceMetric). r.id == s.uuid) db.device_metrics) p.device_id row
      (record db { device_metrics = row ∷ db.device_metrics }) s db

-- CHECK (state IN ('PENDING','APPLIED','FAILED')).
unfoldable pub firmware_state_check : String → Bool
firmware_state_check s = str_eq s "PENDING" || str_eq s "APPLIED" || str_eq s "FAILED"

unfoldable pub insert_firmware_attempt : InsertFirmwareAttemptParams → Statement FirmwareHistory
unfolding insert_row firmware_state_check
insert_firmware_attempt p s db =
    let row : FirmwareHistory = record {
      id = s.uuid;
      device_id = p.device_id;
      target_version = p.target_version;
      state = p.state;
      failure_reason = p.failure_reason;
      attempted_at = s.now;
    } in
    insert_row (firmware_state_check p.state)
      (any (λ (r : FirmwareHistory). r.id == s.uuid) db.firmware_history) p.device_id row
      (record db { firmware_history = row ∷ db.firmware_history }) s db

-- CHECK (result IN ('SUCCESS','FAILURE','TIMEOUT')).
unfoldable pub command_result_check : String → Bool
command_result_check s = str_eq s "SUCCESS" || str_eq s "FAILURE" || str_eq s "TIMEOUT"

unfoldable pub audit_row : InsertCommandAuditParams → String → Stamp → CommandAudit
audit_row p arguments s = record {
  id = s.uuid;
  device_id = p.device_id;
  command = p.command;
  arguments = arguments;
  result = p.result;
  response = p.response;
  duration_ms = p.duration_ms;
  executed_at = s.now;
}

-- `arguments` is NOT NULL, and an explicit NULL is not replaced by the column's default.
unfoldable pub insert_audit_row : InsertCommandAuditParams → Option String → Statement CommandAudit
unfolding insert_row command_result_check audit_row
insert_audit_row p none s db = (err (violation not_null s.text), db)
insert_audit_row p (some arguments) s db =
    insert_row (command_result_check p.result)
      (any (λ (r : CommandAudit). r.id == s.uuid) db.command_audit) p.device_id
      (audit_row p arguments s)
      (record db { command_audit = audit_row p arguments s ∷ db.command_audit }) s db

unfoldable pub insert_command_audit : InsertCommandAuditParams → Statement CommandAudit
unfolding insert_audit_row
insert_command_audit p = insert_audit_row p p.arguments

-- CHECK (severity IN ('INFO','WARN','CRITICAL')).
unfoldable pub severity_check : String → Bool
severity_check s = str_eq s "INFO" || str_eq s "WARN" || str_eq s "CRITICAL"

unfoldable pub insert_alert : InsertAlertParams → Statement Alert
unfolding insert_row severity_check
insert_alert p s db =
    let row : Alert = record {
      id = s.uuid;
      device_id = p.device_id;
      severity = p.severity;
      message = p.message;
      payload = p.payload;
      acknowledged = false;
      created_at = s.now;
    } in
    insert_row (severity_check p.severity) (any (λ (r : Alert). r.id == s.uuid) db.alerts)
      p.device_id row (record db { alerts = row ∷ db.alerts }) s db
