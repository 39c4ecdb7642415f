-- ===== src/Jobs/Types.antt =====
-- internal/jobs/types.go and tier.go: job types and tiers are strings with named constants.
use processing_platform.Prelude.{
  String, Bool, true, false, Option, none, some, if◌then◌else◌, str_eq,
}

abbrev pub type_telemetry_processing : String
type_telemetry_processing = "TELEMETRY_PROCESSING"

abbrev pub type_remote_command : String
type_remote_command = "REMOTE_COMMAND_EXECUTION"

abbrev pub type_firmware_update : String
type_firmware_update = "FIRMWARE_UPDATE_DISPATCH"

abbrev pub type_health_check : String
type_health_check = "DEVICE_HEALTH_CHECK"

abbrev pub type_alert_generation : String
type_alert_generation = "DEVICE_ALERT_GENERATION"

abbrev pub tier_realtime : String
tier_realtime = "realtime"

abbrev pub tier_standard : String
tier_standard = "standard"

abbrev pub tier_bulk : String
tier_bulk = "bulk"

-- `Type.Valid`: the listed types, by a switch.
unfoldable pub valid : String → Bool
valid t =
    if str_eq t type_telemetry_processing
    then true
    else if str_eq t type_remote_command
    then true
    else if str_eq t type_firmware_update
    then true
    else if str_eq t type_health_check
    then true
    else if str_eq t type_alert_generation
    then true
    else false

-- `TierFor`; its error is `none`.
unfoldable pub tier_for : String → Option String
tier_for t =
    if str_eq t type_remote_command
    then some tier_realtime
    else if str_eq t type_telemetry_processing
    then some tier_standard
    else if str_eq t type_health_check
    then some tier_standard
    else if str_eq t type_alert_generation
    then some tier_standard
    else if str_eq t type_firmware_update
    then some tier_bulk
    else none
