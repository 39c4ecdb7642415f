-- ===== src/Store/Sql/Devices.antt =====
-- The statements on `devices`.
use processing_platform.Prelude.{
  String, Option, none, some, ◌∷◌, str_eq, if◌then◌else◌, find, update,
}
use processing_platform.Failure.{ok, err, no_rows}
use processing_platform.Store.Rows.{Device, GetDeviceForHealthCheckRow}
use processing_platform.Store.Sql.Base.{Stamp, Statement, has_device}

unfoldable pub new_device : String → Stamp → Device
new_device id s = record {
  id = id;
  created_at = s.now;
  last_seen_at = none;
  firmware_version = none;
}

-- INSERT INTO devices … ON CONFLICT (id) DO NOTHING RETURNING …: a conflict returns no row.
unfoldable pub create_device : String → Statement Device
unfolding has_device new_device
create_device id s db =
    if has_device id db
    then (err no_rows, db)
    else (ok (new_device id s), record db { devices = new_device id s ∷ db.devices })

unfoldable pub get_device : String → Statement Device
get_device id s db = elim (find (λ (d : Device). str_eq d.id id) db.devices) [
  | none ↦ (err no_rows, db)
  | some d ↦ (ok d, db)
]

unfoldable pub get_device_for_health_check : String → Statement GetDeviceForHealthCheckRow
get_device_for_health_check id s db = elim (find (λ (d : Device). str_eq d.id id) db.devices) [
  | none ↦ (err no_rows, db)
  | some d ↦ (
    ok (record { id = d.id; last_seen_at = d.last_seen_at; firmware_version = d.firmware_version }),
    db,
  )
]

-- The `:exec` updates succeed also when no row has the id.
unfoldable pub touch_device : String → Statement (Unit {0})
touch_device id s db = (
  ok tt,
  record db {
    devices = update (λ d. str_eq d.id id) (λ d. record d { last_seen_at = some s.now }) db.devices;
  },
)

unfoldable pub update_device_firmware : String → Option String → Statement (Unit {0})
update_device_firmware id version s db = (
  ok tt,
  record db {
    devices =
        update (λ d. str_eq d.id id) (λ d. record d { firmware_version = version }) db.devices;
  },
)
