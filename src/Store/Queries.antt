-- ===== src/Store/Queries.antt =====
-- The query methods of internal/store/db/queries.sql.go: each sends its statement and reads the
-- row, or the error.
use processing_platform.Prelude.{ℕ, String, Option, List}
use processing_platform.World.{M, query}
use processing_platform.Store.Rows.{
  Device, Job, DeviceMetric, FirmwareHistory, CommandAudit, Alert, CreateJobParams,
  UpdateJobStateParams, InsertDeviceMetricParams, InsertFirmwareAttemptParams,
  InsertCommandAuditParams, InsertAlertParams, ReapStaleJobsRow, GetDeviceForHealthCheckRow,
}
use processing_platform.Store.Sql.Devices
use processing_platform.Store.Sql.Jobs
use processing_platform.Store.Sql.Records
use processing_platform.Store.Sql.Stale

unfoldable pub create_device : String → M Device
create_device id = query (Devices.create_device id)

unfoldable pub create_job : CreateJobParams → M Job
create_job arg = query (Jobs.create_job arg)

unfoldable pub get_device : String → M Device
get_device id = query (Devices.get_device id)

unfoldable pub get_device_for_health_check : String → M GetDeviceForHealthCheckRow
get_device_for_health_check id = query (Devices.get_device_for_health_check id)

unfoldable pub get_job : ℕ → M Job
get_job id = query (Jobs.get_job id)

unfoldable pub get_job_by_idempotency_key : String → String → M Job
get_job_by_idempotency_key key type = query (Jobs.get_job_by_idempotency_key key type)

unfoldable pub increment_job_attempts : ℕ → M Job
increment_job_attempts id = query (Jobs.increment_job_attempts id)

unfoldable pub insert_alert : InsertAlertParams → M Alert
insert_alert arg = query (Records.insert_alert arg)

unfoldable pub insert_command_audit : InsertCommandAuditParams → M CommandAudit
insert_command_audit arg = query (Records.insert_command_audit arg)

unfoldable pub insert_device_metric : InsertDeviceMetricParams → M DeviceMetric
insert_device_metric arg = query (Records.insert_device_metric arg)

unfoldable pub insert_firmware_attempt : InsertFirmwareAttemptParams → M FirmwareHistory
insert_firmware_attempt arg = query (Records.insert_firmware_attempt arg)

unfoldable pub reap_stale_jobs : ℕ → ℕ → M (List ReapStaleJobsRow)
reap_stale_jobs interval limit = query (Stale.reap_stale_jobs interval limit)

unfoldable pub requeue_job : ℕ → M Job
requeue_job id = query (Jobs.requeue_job id)

unfoldable pub touch_device : String → M (Unit {0})
touch_device id = query (Devices.touch_device id)

unfoldable pub update_device_firmware : String → Option String → M (Unit {0})
update_device_firmware id version = query (Devices.update_device_firmware id version)

unfoldable pub update_job_state : UpdateJobStateParams → M Job
update_job_state arg = query (Jobs.update_job_state arg)
