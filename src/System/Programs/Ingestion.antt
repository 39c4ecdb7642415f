-- ===== src/System/Programs/Ingestion.antt =====
-- The ingestion service keeps what its effects keep.
use processing_platform.Prelude.{String, ◌&&◌, List, [], ◌∷◌, str_eq}
use processing_platform.World.Keeps.{Keeps, Triple-bind, Keeps-now, Keeps-if, Triple-raise}
use processing_platform.Codec.{Codec}
use processing_platform.Ingestion.{split, ingest_parts, handle_message}
use processing_platform.System.Kept.{Kept}
use processing_platform.System.Programs.Base.{Keeps-submit}

module _ (cx : Codec) {P : _} (k : Kept cx.uuid_string P) where
  Keeps-ingest_parts :
      (topic raw : String) (parts : List String) → Keeps P (ingest_parts cx topic raw parts)
  unfolding ingest_parts
  Keeps-ingest_parts topic raw (root ∷ device_id ∷ leaf ∷ []) =
      Keeps-if (str_eq root "devices" && str_eq leaf "telemetry")
        (Triple-bind (Keeps-now P) (λ t. Keeps-submit cx k _ _ _ _)) (Triple-raise _ (λ db o p. p))
  Keeps-ingest_parts topic raw _ = Triple-raise _ (λ db o p. p)

  pub Keeps-handle_message : (topic raw : String) → Keeps P (handle_message cx topic raw)
  unfolding handle_message
  Keeps-handle_message topic raw = Keeps-ingest_parts topic raw (split topic)
