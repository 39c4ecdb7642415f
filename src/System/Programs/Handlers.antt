-- ===== src/System/Programs/Handlers.antt =====
-- The handlers of internal/handlers, over clients that keep the condition.
use processing_platform.Prelude.{ℕ, String, Bool, true, false, Option, none, some, All}
use processing_platform.Failure.{Result, ok, err}
use processing_platform.World.{micros}
use processing_platform.World.Keeps.{
  Inv, Keeps, Triple-bind, Triple-wrapping, Keeps-pure, Keeps-now, Keeps-lift, Triple-raise,
  Keeps-attempt,
}
use processing_platform.Codec.{Codec, HealthResponse, FirmwarePayload}
use processing_platform.Store.Queries.{
  insert_device_metric, insert_command_audit, insert_firmware_attempt, update_device_firmware,
  touch_device, insert_alert,
}
use processing_platform.Handlers.{
  Handler, HandlerJob, Deps, sampled_at, give_back, after_push, after_health, handle_telemetry,
  handle_remote_command, handle_firmware, handle_health_check, handle_alert, build,
}
use processing_platform.System.Kept.{Kept, Keeps-query}

-- A client's call keeps P, whatever it answers.
pub record DepsKeep (P : Inv) (deps : Deps) : Type 0 where
  pub send_command : (d c : String) (a : Option String) → Keeps P (deps.send_command d c a)
  pub get_health : (d : String) → Keeps P (deps.get_health d)
  pub push_firmware : (d v : String) → Keeps P (deps.push_firmware d v)
  pub post_alert : (s m p : String) → Keeps P (deps.post_alert s m p)
  pub submit : (t d k p : String) → Keeps P (deps.submit t d k p)

module _ {P : Inv} where
  Keeps-sampled_at : (t : Option ℕ) → Keeps P (sampled_at t)
  unfolding sampled_at
  Keeps-sampled_at none = Triple-bind (Keeps-now P) (λ t. Keeps-pure P (micros t))
  Keeps-sampled_at (some t) = Keeps-pure P t

  Keeps-give_back : {A : Type 0} (r : Result A) → Keeps P (give_back r)
  unfolding give_back
  Keeps-give_back (ok a) = Keeps-pure P tt
  Keeps-give_back (err e) = Triple-raise e (λ db o p. p)

module _ {uuid_string : ℕ → String} {P : Inv} (k : Kept uuid_string P) (cx : Codec) (deps : Deps)
    (d : DepsKeep P deps) where
  Keeps-telemetry : (j : HandlerJob) → Keeps P (handle_telemetry cx deps j)
  unfolding handle_telemetry insert_device_metric
  Keeps-telemetry j =
      Triple-bind (Triple-wrapping _ (Keeps-lift P (cx.unmarshal_telemetry j.payload))) λ p.
        Triple-bind (Keeps-sampled_at p.timestamp)
          λ at. Triple-bind (Keeps-query _ k.by_beat (k.by_metric _)) λ _. Keeps-pure P tt

  Keeps-remote_command : (j : HandlerJob) → Keeps P (handle_remote_command cx deps j)
  unfolding handle_remote_command insert_command_audit
  Keeps-remote_command j =
      Triple-bind (Triple-wrapping _ (Keeps-lift P (cx.unmarshal_command j.payload))) λ p.
        Triple-bind (Keeps-now P) λ start.
          Triple-bind (Keeps-attempt (d.send_command j.device_id p.command p.arguments)) λ sent.
            Triple-bind (Keeps-now P) λ end.
              Triple-bind (Triple-wrapping _ (Keeps-query _ k.by_beat (k.by_audit _)))
                λ _. Keeps-give_back sent

  Keeps-after_push :
      (j : HandlerJob) (p : FirmwarePayload) (r : Result (Unit {0}))
      → Keeps P (after_push cx deps j p r)
  unfolding after_push update_device_firmware
  Keeps-after_push j p (ok _) =
      Triple-wrapping _ (Keeps-query _ k.by_beat (k.by_device_firmware _ _))
  Keeps-after_push j p (err e) = Triple-raise e (λ db o q. q)

  Keeps-firmware : (j : HandlerJob) → Keeps P (handle_firmware cx deps j)
  unfolding handle_firmware insert_firmware_attempt
  Keeps-firmware j =
      Triple-bind (Triple-wrapping _ (Keeps-lift P (cx.unmarshal_firmware j.payload))) λ p.
        Triple-bind (Keeps-attempt (d.push_firmware j.device_id p.target_version)) λ pushed.
          Triple-bind (Triple-wrapping _ (Keeps-query _ k.by_beat (k.by_firmware _)))
            λ _. Keeps-after_push j p pushed

  Keeps-after_health :
      (j : HandlerJob) (h : HealthResponse) (b : Bool) → Keeps P (after_health cx deps j h b)
  unfolding after_health
  Keeps-after_health j h true = Keeps-pure P tt
  Keeps-after_health j h false = d.submit _ _ _ _

  Keeps-health_check : (j : HandlerJob) → Keeps P (handle_health_check cx deps j)
  unfolding handle_health_check touch_device
  Keeps-health_check j = Triple-bind (Triple-wrapping _ (d.get_health j.device_id)) λ h.
      Triple-bind (Triple-wrapping _ (Keeps-query _ k.by_beat (k.by_touch_device _)))
        λ _. Keeps-after_health j h h.healthy

  Keeps-alert : (j : HandlerJob) → Keeps P (handle_alert cx deps j)
  unfolding handle_alert insert_alert
  Keeps-alert j = Triple-bind (Triple-wrapping _ (Keeps-lift P (cx.unmarshal_alert j.payload))) λ p.
      Triple-bind (Triple-wrapping _ (Keeps-query _ k.by_beat (k.by_alert _)))
        λ _. d.post_alert p.severity p.message p.extra

  -- Each handler of the registry keeps P.
  pub build-Keeps :
      All (λ (e : String × Handler). (j : HandlerJob) → Keeps P (e.1 j)) (build cx deps)
  unfolding build
  build-Keeps = (
    Keeps-telemetry,
    (Keeps-remote_command, (Keeps-firmware, (Keeps-health_check, (Keeps-alert, tt)))),
  )
