-- ===== src/Clients.antt =====
-- internal/mockclients/clients.go: the HTTP clients of the device and the webhook services. The
-- response, or that there was none, comes with the call from the environment.
use processing_platform.Prelude.{String, ◌<>◌, Option, ◌∷◌, leb, if◌then◌else◌}
use processing_platform.Failure.{Result, ok, err, new}
use processing_platform.World.{M, Call, request, pure, lift, ◌>>=◌, ◌>>◌}
use processing_platform.Codec.{Codec, HealthResponse}

module _ (cx : Codec) where
  -- The response of the server to one POST, read by its status.
  respond : String → Call → Result String
  respond context c =
      if leb 400 c.status
      then err (new (context <> (": HTTP " <> (cx.format_int c.status <> (": " <> c.body)))))
      else ok c.body

  unfoldable pub answer : String → String → String → Call → M String
  unfolding respond
  answer context path body c w =
      (respond context c, record w { requests = record { path = path; body = body } ∷ w.requests })

  -- `post`; the five-second limit shows as a call that is refused or lost.
  unfoldable pub post : String → String → String → M String
  post context path body = request (answer context path body)

  unfoldable pub send_command : String → String → Option String → M String
  send_command device_id command args =
      post "device call /command" "/command" (cx.marshal_command_call device_id command args)

  unfoldable pub get_health : String → M HealthResponse
  get_health device_id = do
    body ← post "device call /health" "/health" (cx.marshal_health_call device_id)
    lift (cx.unmarshal_health body)

  unfoldable pub push_firmware : String → String → M (Unit {0})
  push_firmware device_id version = do
    post "device call /firmware" "/firmware" (cx.marshal_firmware_call device_id version)
    pure tt

  unfoldable pub post_alert : String → String → String → M (Unit {0})
  post_alert severity message payload = do
    post "webhook" "/alert" (cx.marshal_webhook_call severity message payload)
    pure tt
