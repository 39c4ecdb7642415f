-- ===== src/Ingestion/Topics.antt =====
-- cmd/ingestion: the topics that carry telemetry.
use Prim.Native.Char.{code}
use Prim.Native.String.append
use text.Mathlib.TextLemmas.{append_assoc}
use processing_platform.Prelude.{◌∙◌, String, ◌<>◌, ◌≡◌, refl, ap, false, [], ◌∷◌, ◌==◌}
use processing_platform.World.{World, now, ◌>>=◌}
use processing_platform.Codec.{Codec}
use processing_platform.Jobs.Types.{type_telemetry_processing}
use processing_platform.Submitter.{submit}
use processing_platform.Ingestion.{split, payload_of, ingest_key, ingest_parts, handle_message}
use processing_platform.DevSim.{device_topic}

-- No '/'.
abbrev pub NoSlash : String → Type 0
NoSlash String.[] = Unit
NoSlash (String.◌∷◌ c s) = ((code c == b'/') ≡ false) × NoSlash s

slash : (rest : String) → "/" <> rest ≡ String.◌∷◌ "/" rest
slash rest = append.cons "/" String.[] rest ∙ ap (λ x. String.◌∷◌ "/" x) (append.nil rest)

-- The first level of a topic.
split-level : (s rest : String) → NoSlash s → split (s <> ("/" <> rest)) ≡ s ∷ split rest
unfolding split
split-level String.[] rest n = rw (append.nil ("/" <> rest), slash rest) refl
split-level (String.◌∷◌ c s) rest (n, ns) =
    rw (append.cons c s ("/" <> rest)) (rw (n, split-level s rest ns) refl)

split-leaf : split "telemetry" ≡ "telemetry" ∷ []
unfolding split
split-leaf = refl

split-topic :
    (device_id : String)
    → NoSlash device_id
    → split (device_topic device_id) ≡ "devices" ∷ device_id ∷ "telemetry" ∷ []
unfolding device_topic
split-topic device_id n =
    ap split (append_assoc "devices" "/" (device_id <> "/telemetry"))
    ∙ split-level "devices" (device_id <> "/telemetry")
        (refl, (refl, (refl, (refl, (refl, (refl, (refl, tt)))))))
    ∙ ap (λ x. "devices" ∷ x)
        (split-level device_id "telemetry" n ∙ ap (λ x. device_id ∷ x) split-leaf)

-- A message on a device's topic is handled as that device's telemetry.
pub handle_message-topic :
    (cx : Codec) (device_id raw : String) (w : World)
    → NoSlash device_id
    → handle_message cx (device_topic device_id) raw w
      ≡ submit cx type_telemetry_processing device_id
          (ingest_key cx device_id w.clock)
          (payload_of raw cx.quote (cx.unmarshal_raw raw))
          w
unfolding handle_message ingest_parts ◌>>=◌ now
handle_message-topic cx device_id raw w n = rw (split-topic device_id n) refl
