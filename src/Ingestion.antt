-- ===== src/Ingestion.antt =====
-- cmd/ingestion: an MQTT message on devices/<device_id>/telemetry becomes a telemetry job.
pub mod Topics
pub mod Once
use Prim.Native.Char.{Char, code}
use processing_platform.Prelude.{
  ℕ, ◌/◌, String, ◌<>◌, ◌&&◌, List, [], ◌∷◌, ◌==◌, str_eq, if◌then◌else◌,
}
use processing_platform.Failure.{Result, ok, err, new}
use processing_platform.Jobs.Types.{type_telemetry_processing}
use processing_platform.World.{M, raise, now, ◌>>=◌}
use processing_platform.Codec.{Codec}
use processing_platform.Retry.{second}
use processing_platform.Submitter.{submit}

-- A character joins the first part, or the separator opens a new one.
abbrev push : Char → List String → List String
push c [] = String.◌∷◌ c String.[] ∷ []
push c (part ∷ parts) = String.◌∷◌ c part ∷ parts

-- `strings.Split(s, "/")`.
unfoldable pub split : String → List String
split String.[] = "" ∷ []
split (String.◌∷◌ c s) = let rest = split s in if code c == b'/' then "" ∷ rest else push c rest

-- A payload that is no JSON is wrapped.
unfoldable pub payload_of : String → (String → String) → Result String → String
payload_of raw quote (ok p) = p
payload_of raw quote (err e) = "{\"raw\":" <> (quote raw <> "}")

module _ (cx : Codec) where
  -- The device and the minute.
  unfoldable pub ingest_key : String → ℕ → String
  ingest_key device_id t = "mqtt-" <> (device_id <> ("-" <> cx.format_int (t / second / 60)))

  unfoldable pub ingest_parts : String → String → List String → M (Unit {0})
  unfolding ingest_key
  ingest_parts topic raw (root ∷ device_id ∷ leaf ∷ []) =
      if str_eq root "devices" && str_eq leaf "telemetry"
      then (do
        t ← now
        submit cx type_telemetry_processing device_id (ingest_key device_id t)
            (payload_of raw cx.quote (cx.unmarshal_raw raw)))
      else raise (new ("unexpected topic: " <> topic))
  ingest_parts topic raw _ = raise (new ("unexpected topic: " <> topic))

  unfoldable pub handle_message : String → String → M (Unit {0})
  handle_message topic raw = ingest_parts topic raw (split topic)
