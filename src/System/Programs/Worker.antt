-- ===== src/System/Programs/Worker.antt =====
-- The worker keeps what its effects keep, over any registry whose handlers keep it.
use processing_platform.Prelude.{
  ℕ, ◌+◌, String, ◌<>◌, ◌≡◌, refl, inl, inr, Option, none, some, List, [], ◌∷◌, str_eq, leb, All,
  Any-weaken, Bool-cases, subst,
}
use processing_platform.Failure.{Result, ok, err}
use processing_platform.World.{Message}
use processing_platform.World.Keeps.{
  Inv, Keeps, Triple-bind, Triple-wrapping, Keeps-attempt, Keeps-pure, Keeps-now, Keeps-draw,
  Keeps-lift, Keeps-if, Triple-raise,
}
use processing_platform.Codec.{Codec, KafkaJobMsg}
use processing_platform.Retry.{Float64}
use processing_platform.Jobs.State.{state_retry, state_failed}
use processing_platform.Store.Rows.{Job}
use processing_platform.Store.Queries.{increment_job_attempts}
use processing_platform.Handlers.{Handler, HandlerJob, build, registry_get}
use processing_platform.Worker.{
  Config, send_to_dlq, send_to_retry, conclude, dispatch, process_owned, process_decoded,
  process_one,
}
use processing_platform.Wiring.{wired}
use processing_platform.System.Kept.{
  Kept, Keeps-query, Triple-publish, Triple-publish_with_header, Evidence, Sent, WaitsForRetry,
}
use processing_platform.System.Programs.Base.{
  differ, Triple-update, Keeps-update, Keeps-get_job, wired-DepsKeep,
}
use processing_platform.System.Programs.Handlers.{build-Keeps}

-- The dead letter is the evidence for FAILED.
Evidence-dead :
    (key : String) (o : List Message) → Sent "jobs.dlq" key o → Evidence key state_failed o
Evidence-dead key o s = record {
  retry = λ e. absurd (differ state_failed state_retry refl e);
  dead = λ _. s;
}

-- The message on the retry topic is the evidence for RETRY.
Evidence-retry :
    (topic key : String) (o : List Message)
    → Sent (topic <> ".retry") key o
    → Evidence key state_retry o
Evidence-retry topic key o s = record {
  retry = λ _. Any-weaken _ (WaitsForRetry key) (λ m q. (topic, q.0, q.1)) o s;
  dead = λ e. absurd (differ state_retry state_failed refl e);
}

module _ (cx : Codec) (fp : Float64) {P : _} (k : Kept cx.uuid_string P) where
  pub Keeps-send_to_dlq :
      (value : String) (id : ℕ) (msg : String) → Keeps P (send_to_dlq cx fp value id msg)
  unfolding send_to_dlq
  Keeps-send_to_dlq value id msg =
      Triple-bind (Triple-wrapping _ (Triple-publish k.by_beat k.by_message _ _ _)) λ _.
        Triple-bind (Triple-update cx k _ _ (Evidence-dead (cx.uuid_string id)))
          λ _. Keeps-pure P tt

  Keeps-increment : (id : ℕ) → Keeps P (increment_job_attempts id)
  unfolding increment_job_attempts
  Keeps-increment id = Keeps-query _ k.by_beat (k.by_increment id)

  pub Keeps-send_to_retry :
      (cfg : Config) (value : String) (id n : ℕ) (msg : String)
      → Keeps P (send_to_retry cx fp cfg value id n msg)
  unfolding send_to_retry
  Keeps-send_to_retry cfg value id n msg = Triple-bind (Keeps-now P) λ t.
      Triple-bind (Keeps-draw P) λ r.
        Triple-bind
          (Triple-wrapping _ (Triple-publish_with_header k.by_beat k.by_message _ _ _ _ _))
          λ _.
            Triple-bind (Triple-update cx k _ _ (Evidence-retry cfg.topic (cx.uuid_string id)))
              λ _. Triple-bind (Keeps-increment id) λ _. Keeps-pure P tt

  Keeps-conclude :
      (cfg : Config) (value : String) (job : Job) (id : ℕ) (r : Result (Unit {0}))
      → Keeps P (conclude cx fp cfg value job id r)
  unfolding conclude
  Keeps-conclude cfg value job id (ok _) =
      Triple-bind (Keeps-update cx k _ refl refl) (λ _. Keeps-pure P tt)
  Keeps-conclude cfg value job id (err e) =
      Keeps-if (leb job.max_attempts (job.attempts + 1))
        (Triple-bind (Keeps-attempt (Keeps-send_to_dlq _ _ _)) (λ _. Triple-raise e (λ db o p. p)))
        (Triple-bind (Keeps-attempt (Keeps-send_to_retry _ _ _ _ _))
          (λ _. Triple-raise e (λ db o p. p)))

  module _ (cfg : Config)
      (handlers : (t : String) (h : Handler)
        → registry_get cfg.registry t ≡ some h
        → (j : HandlerJob) → Keeps P (h j)) where
    Keeps-dispatch :
        (msg : Message) (m : KafkaJobMsg) (id : ℕ) (job : Job) (o : Option Handler)
        → ((h : Handler) → o ≡ some h → (j : HandlerJob) → Keeps P (h j))
        → Keeps P (dispatch cx fp cfg msg m id job o)
    unfolding dispatch
    Keeps-dispatch msg m id job none h = Keeps-send_to_dlq _ _ _
    Keeps-dispatch msg m id job (some f) h =
        Triple-bind (Triple-wrapping _ (Keeps-update cx k _ refl refl)) λ _.
          Triple-bind (record { at = λ w p. p })
            λ _. Triple-bind (Keeps-attempt (h f refl _)) λ outcome.
              Triple-bind (record { at = λ w p. p })
                λ _. Keeps-conclude cfg msg.value job id outcome

    Keeps-process_owned :
        (msg : Message) (m : KafkaJobMsg) → Keeps P (process_owned cx fp cfg msg m)
    unfolding process_owned
    Keeps-process_owned msg m = Triple-bind (Keeps-lift P (cx.parse_uuid m.job_id)) λ id.
        Triple-bind (Triple-wrapping _ (Keeps-get_job cx k id))
          λ job. Keeps-dispatch msg m id job (registry_get cfg.registry m.type) (handlers m.type)

    Keeps-process_decoded :
        (msg : Message) (m : KafkaJobMsg) → Keeps P (process_decoded cx fp cfg msg m)
    unfolding process_decoded
    Keeps-process_decoded msg m =
        Keeps-if (str_eq m.tier cfg.allowed_tier) (Keeps-process_owned msg m)
          (Triple-raise _ (λ db o p. p))

    pub Keeps-process_one : (msg : Message) → Keeps P (process_one cx fp cfg msg)
    unfolding process_one
    Keeps-process_one msg =
        Triple-bind (Triple-wrapping _ (Keeps-lift P (cx.unmarshal_job msg.value)))
          λ m. Keeps-process_decoded msg m

-- A handler that is found stands in the registry.
pub All-registry_get :
    (Q : Handler → Type 0) (r : List (String × Handler)) (t : String) (h : Handler)
    → All (λ (e : String × Handler). Q e.1) r
    → registry_get r t ≡ some h
    → Q h
unfolding registry_get
All-registry_get Q [] t h a e = cc e
All-registry_get Q ((key, g) ∷ r) t h (a, rest) e = elim (Bool-cases (str_eq key t)) [
  | inl y ↦ let q : g ≡ h = cc (rw y at e) in subst Q q a
  | inr n ↦ All-registry_get Q r t h rest (rw n at e)
]

-- The worker as the commands wire it.
pub Keeps-process_one_wired :
    (cx : Codec) (fp : Float64) {P : Inv} (k : Kept cx.uuid_string P) (topic group tier : String)
    (msg : Message)
    → Keeps P (
        process_one cx fp
          (record {
            topic = topic;
            group_id = group;
            allowed_tier = tier;
            registry = build cx (wired cx);
          })
          msg)
Keeps-process_one_wired cx fp {P} k topic group tier msg =
    Keeps-process_one cx fp k _
      (λ t h.
        All-registry_get (λ f. (j : HandlerJob) → Keeps P (f j)) (build cx (wired cx)) t h
          (build-Keeps k cx (wired cx) (wired-DepsKeep cx k)))
      msg
