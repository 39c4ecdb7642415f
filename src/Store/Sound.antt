-- ===== src/Store/Sound.antt =====
-- The integrity of the tables: what the constraints of migrations/ say of every reachable database.
pub mod JobStatements
pub mod OtherStatements
use processing_platform.Prelude.{String, Bool, true, List, ◌≡◌, map, str_eq, any, All, Distinct}
use processing_platform.Store.Rows.{
  Db, Device, Job, DeviceMetric, FirmwareHistory, CommandAudit, Alert,
}
use processing_platform.Store.Sql.Jobs.{state_check}

-- Each of the ids is that of a device.
abbrev pub Refer : List Device → List String → Type 0
Refer devices ids = All (λ id. any (λ (d : Device). str_eq d.id id) devices ≡ true) ids

abbrev pub key_and_type : Job → String × String
key_and_type j = (j.idempotency_key, j.type)

pub record IsSound (db : Db) : Type 0 where
  pub device_ids : Distinct (map (λ (d : Device). d.id) db.devices)
  pub job_ids : Distinct (map (λ (j : Job). j.id) db.jobs)
  pub job_keys : Distinct (map key_and_type db.jobs)
  pub job_states : All (λ (j : Job). state_check j.state ≡ true) db.jobs
  pub job_devices : Refer db.devices (map (λ (j : Job). j.device_id) db.jobs)
  pub metric_devices : Refer db.devices (map (λ (r : DeviceMetric). r.device_id) db.device_metrics)
  pub firmware_devices :
      Refer db.devices (map (λ (r : FirmwareHistory). r.device_id) db.firmware_history)
  pub audit_devices : Refer db.devices (map (λ (r : CommandAudit). r.device_id) db.command_audit)
  pub alert_devices : Refer db.devices (map (λ (r : Alert). r.device_id) db.alerts)
