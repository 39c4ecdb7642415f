-- ===== src/Store/Sound/OtherStatements.antt =====
-- The other statements keep the tables sound.
use processing_platform.Prelude.{
  String, ◌≡◌, refl, sym, inl, inr, Bool, true, false, Option, none, some, List, ◌∷◌, ◌||◌, eq_iff,
  str_eq, ◌∙◌, any, update, Bool-cases, All-weaken, map-update, any-update, Fresh_of_any,
}
use processing_platform.Store.Rows.{
  Db, Device, InsertDeviceMetricParams, InsertFirmwareAttemptParams, InsertCommandAuditParams,
  InsertAlertParams,
}
use processing_platform.Store.Sql.Base.{Stamp, has_device}
use processing_platform.Store.Sql.Devices.{
  new_device, create_device, touch_device, update_device_firmware,
}
use processing_platform.Store.Sql.Records.{
  insert_row, insert_device_metric, firmware_state_check, insert_firmware_attempt,
  command_result_check, insert_audit_row, insert_command_audit, severity_check, insert_alert,
}
use processing_platform.Store.Sound.{IsSound, Refer}

abbrev HasId : List Device → String → Type 0
HasId devices id = any (λ (d : Device). str_eq d.id id) devices ≡ true

-- An update of devices that keeps their ids keeps every reference.
module _ (f : Device → Device) (same_id : (d : Device) → (f d).id ≡ d.id) (p : Device → Bool) where
  Refer-update :
      (devices : List Device) (ids : List String)
      → Refer devices ids
      → Refer (update p f devices) ids
  Refer-update devices ids r =
      All-weaken (HasId devices) (HasId (update p f devices))
        (λ id h. any-update (λ d. str_eq d.id id) p f (λ d. rw (same_id d) refl) devices ∙ h) ids r

  update_devices-IsSound :
      (db : Db) → IsSound db → IsSound (record db { devices = update p f db.devices })
  update_devices-IsSound db s = record {
    device_ids = rw (map-update (λ (d : Device). d.id) p f same_id) s.device_ids;
    job_ids = s.job_ids;
    job_keys = s.job_keys;
    job_states = s.job_states;
    job_devices = Refer-update _ _ s.job_devices;
    metric_devices = Refer-update _ _ s.metric_devices;
    firmware_devices = Refer-update _ _ s.firmware_devices;
    audit_devices = Refer-update _ _ s.audit_devices;
    alert_devices = Refer-update _ _ s.alert_devices;
  }

pub touch_device-IsSound :
    (id : String) (s : Stamp) (db : Db) → IsSound db → IsSound (touch_device id s db).1
unfolding touch_device
touch_device-IsSound id s db h = update_devices-IsSound _ (λ d. refl) _ db h

pub update_device_firmware-IsSound :
    (id : String) (v : Option String) (s : Stamp) (db : Db)
    → IsSound db
    → IsSound (update_device_firmware id v s db).1
unfolding update_device_firmware
update_device_firmware-IsSound id v s db h = update_devices-IsSound _ (λ d. refl) _ db h

-- One more device keeps every reference.
Refer-cons :
    (d : Device) (devices : List Device) (ids : List String)
    → Refer devices ids
    → Refer (d ∷ devices) ids
Refer-cons d devices ids r =
    All-weaken (HasId devices) (HasId (d ∷ devices)) (λ id h. more (str_eq d.id id) h) ids r
  where
    more : (b : Bool) {c : Bool} → c ≡ true → (b || c) ≡ true
    more true e = refl
    more false e = e

pub create_device-IsSound :
    (id : String) (s : Stamp) (db : Db) → IsSound db → IsSound (create_device id s db).1
unfolding create_device
create_device-IsSound id s db h = elim (Bool-cases (has_device id db)) [
  | inl e ↦ rw e h
  | inr e ↦ rw e (record {
    device_ids = (Fresh_of_any _ id _ (λ d q. (eq_iff _ _).1 (sym q)) db.devices e, h.device_ids);
    job_ids = h.job_ids;
    job_keys = h.job_keys;
    job_states = h.job_states;
    job_devices = Refer-cons (new_device id s) _ _ h.job_devices;
    metric_devices = Refer-cons (new_device id s) _ _ h.metric_devices;
    firmware_devices = Refer-cons (new_device id s) _ _ h.firmware_devices;
    audit_devices = Refer-cons (new_device id s) _ _ h.audit_devices;
    alert_devices = Refer-cons (new_device id s) _ _ h.alert_devices;
  })
]

-- A row is inserted only for a device that is there.
insert_row-IsSound :
    {A : Type 0} (check taken : Bool) (device_id : String) (row : A) (after : Db) (s : Stamp)
    (db : Db)
    → IsSound db
    → (has_device device_id db ≡ true → IsSound after)
    → IsSound (insert_row check taken device_id row after s db).1
unfolding insert_row
insert_row-IsSound false taken device_id row after s db h k = h
insert_row-IsSound true true device_id row after s db h k = h
insert_row-IsSound true false device_id row after s db h k =
    elim (Bool-cases (has_device device_id db)) [ inl e ↦ rw e (k e) | inr e ↦ rw e h ]

pub insert_device_metric-IsSound :
    (p : InsertDeviceMetricParams) (s : Stamp) (db : Db)
    → IsSound db
    → IsSound (insert_device_metric p s db).1
unfolding insert_device_metric has_device
insert_device_metric-IsSound p s db h = insert_row-IsSound true _ p.device_id _ _ s db h (λ e.
    record {
      device_ids = h.device_ids;
      job_ids = h.job_ids;
      job_keys = h.job_keys;
      job_states = h.job_states;
      job_devices = h.job_devices;
      metric_devices = (e, h.metric_devices);
      firmware_devices = h.firmware_devices;
      audit_devices = h.audit_devices;
      alert_devices = h.alert_devices;
    })

pub insert_firmware_attempt-IsSound :
    (p : InsertFirmwareAttemptParams) (s : Stamp) (db : Db)
    → IsSound db
    → IsSound (insert_firmware_attempt p s db).1
unfolding insert_firmware_attempt has_device
insert_firmware_attempt-IsSound p s db h =
    insert_row-IsSound (firmware_state_check p.state) _ p.device_id _ _ s db h (λ e. record {
      device_ids = h.device_ids;
      job_ids = h.job_ids;
      job_keys = h.job_keys;
      job_states = h.job_states;
      job_devices = h.job_devices;
      metric_devices = h.metric_devices;
      firmware_devices = (e, h.firmware_devices);
      audit_devices = h.audit_devices;
      alert_devices = h.alert_devices;
    })

insert_audit_row-IsSound :
    (p : InsertCommandAuditParams) (arguments : Option String) (s : Stamp) (db : Db)
    → IsSound db
    → IsSound (insert_audit_row p arguments s db).1
unfolding insert_audit_row has_device
insert_audit_row-IsSound p none s db h = h
insert_audit_row-IsSound p (some arguments) s db h =
    insert_row-IsSound (command_result_check p.result) _ p.device_id _ _ s db h (λ e. record {
      device_ids = h.device_ids;
      job_ids = h.job_ids;
      job_keys = h.job_keys;
      job_states = h.job_states;
      job_devices = h.job_devices;
      metric_devices = h.metric_devices;
      firmware_devices = h.firmware_devices;
      audit_devices = (e, h.audit_devices);
      alert_devices = h.alert_devices;
    })

pub insert_command_audit-IsSound :
    (p : InsertCommandAuditParams) (s : Stamp) (db : Db)
    → IsSound db
    → IsSound (insert_command_audit p s db).1
unfolding insert_command_audit
insert_command_audit-IsSound p s db h = insert_audit_row-IsSound p p.arguments s db h

pub insert_alert-IsSound :
    (p : InsertAlertParams) (s : Stamp) (db : Db) → IsSound db → IsSound (insert_alert p s db).1
unfolding insert_alert has_device
insert_alert-IsSound p s db h =
    insert_row-IsSound (severity_check p.severity) _ p.device_id _ _ s db h (λ e. record {
      device_ids = h.device_ids;
      job_ids = h.job_ids;
      job_keys = h.job_keys;
      job_states = h.job_states;
      job_devices = h.job_devices;
      metric_devices = h.metric_devices;
      firmware_devices = h.firmware_devices;
      audit_devices = h.audit_devices;
      alert_devices = (e, h.alert_devices);
    })
