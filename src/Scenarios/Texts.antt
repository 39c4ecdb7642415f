-- ===== src/Scenarios/Texts.antt =====
-- A concrete codec for the runs of the scenarios: numbers in unary, and a job message as its five
-- fields one after the other, each character with a mark before it.
use Prim.Native.Char.{code}
use Prim.Native.String.{String, [], ◌∷◌}
use processing_platform.Prelude.{
  ℕ, zero, suc, ◌≡◌, refl, ap, true, Option, some, none, ◌==◌, ◌<>◌, str_eq, if◌then◌else◌,
}
use processing_platform.Failure.{Result, ok, err, new}
use processing_platform.Codec.{Codec, KafkaJobMsg, read_fields, pos}
use processing_platform.Jobs.Types.{type_remote_command}

unfoldable pub unary : ℕ → String
unary zero = []
unary (suc n) = "x" ∷ unary n

unfoldable pub size : String → ℕ
size [] = 0
size (c ∷ s) = suc (size s)

pub size-unary : (n : ℕ) → size (unary n) ≡ n
unfolding size unary
size-unary zero = refl
size-unary (suc n) = ap suc (size-unary n)

-- The text `s`, ended, and then `k`.
pub field_text : String → String → String
field_text [] k = "." ∷ ":" ∷ k
field_text (c ∷ s) k = "," ∷ c ∷ field_text s k

pub read_field : String → String × String
read_field [] = ([], [])
read_field (c ∷ []) = ([], [])
read_field (c ∷ d ∷ s) =
    let rest = read_field s in if code c == b',' then (d ∷ rest.0, rest.1) else ([], s)

read_field-field_text : (s k : String) → read_field (field_text s k) ≡ (s, k)
unfolding read_field field_text
read_field-field_text [] k = refl
read_field-field_text (c ∷ s) k = rw (read_field-field_text s k) refl

pub write_job : KafkaJobMsg → String
write_job m =
    field_text m.job_id
      (field_text m.type (field_text m.tier (field_text m.device_id (field_text m.payload []))))

pub read_job : String → Result KafkaJobMsg
read_job s =
    let a = read_field s in
    let b = read_field a.1 in
    let c = read_field b.1 in
    let d = read_field c.1 in
    ok (record {
      job_id = a.0;
      type = b.0;
      tier = c.0;
      device_id = d.0;
      payload = (read_field d.1).0;
    })

pub read_job-write_job : (m : KafkaJobMsg) → read_job (write_job m) ≡ ok m
unfolding read_job write_job
read_job-write_job m =
    rw
      (
        read_field-field_text m.job_id _,
        read_field-field_text m.type _,
        read_field-field_text m.tier _,
        read_field-field_text m.device_id _,
        read_field-field_text m.payload _,
      )
      refl

abbrev written : Option KafkaJobMsg → String
written none = []
written (some m) = write_job m

abbrev pub texts : Codec
texts = record {
  uuid_string = unary;
  parse_uuid = λ s. ok (size s);
  format_int = unary;
  parse_int = λ s. some (pos (size s));
  quote = λ s. s;
  compact = λ s. s;
  jsonb = λ s. s;
  marshal_object = λ fs. written (read_fields fs);
  unmarshal_job = read_job;
  unmarshal_telemetry = λ s. ok (record { value = s; timestamp = none });
  unmarshal_command = λ s.
      if str_eq s "bad"
      then err (new "invalid character")
      else ok (record { command = s; arguments = some s });
  unmarshal_firmware = λ s. ok (record { target_version = s });
  unmarshal_alert = λ s. ok (record { severity = "WARNING"; message = s; extra = s });
  unmarshal_health = λ s. ok (record { healthy = true; last_seen_ago = s });
  unmarshal_raw = λ s. ok s;
  bind_submit = λ s.
      ok
        (record { type = type_remote_command; device_id = "d1"; idempotency_key = s; payload = s });
  marshal_alert_request = λ a b c. a <> (b <> c);
  marshal_command_call = λ a b c. a <> b;
  marshal_health_call = λ a. a;
  marshal_firmware_call = λ a b. a <> b;
  marshal_webhook_call = λ a b c. a <> (b <> c);
  parse-uuid_string = λ id. rw (size-unary id) refl;
  parse-format_int = λ n. rw (size-unary n) refl;
  unmarshal-marshal_object = λ fs m n e. rw e (read_job-write_job m);
}
