-- ===== src/Worker/Failing.antt =====
-- internal/worker/worker.go: one delivery of a message whose handler fails, in a calm world.
use processing_platform.Prelude.{
  ℕ, ◌+◌, ◌/◌, ◌≤◌, ◌<◌, String, ◌<>◌, ◌≡◌, refl, ap, ◌∙◌, true, false, none, some, List, [], ◌∷◌,
  ◌++◌, leb, eq_iff, arith,
}
use processing_platform.Failure.{Err, ok, err, error_text}
use processing_platform.World.{World, Message, pure, raise, lift, now, draw}
use processing_platform.Kafka.{inject}
use processing_platform.World.Calm.{
  bind-ok, bind-attempt, wrapping-ok, publish-calm, publish_with_header-calm,
}
use processing_platform.Codec.{Codec, KafkaJobMsg}
use processing_platform.Retry.{Float64, second, next_at}
use processing_platform.Jobs.State.{state_running, state_retry, state_failed}
use processing_platform.Store.Rows.{Job}
use processing_platform.Store.Sql.Jobs.{state_check, int_max}
use processing_platform.Handlers.{Handler, HandlerJob, registry_get}
use processing_platform.Worker.{
  Config, send_to_dlq, send_to_retry, conclude, dispatch, process_owned, process_decoded,
  process_one, start_heartbeat, stop_heartbeat,
}
use processing_platform.Worker.Stands.{
  Stands, Stands-to_state, Stands-increment, Stands-get_job, Stands-draw, Stands-send,
  Stands-beating,
}

-- What the handler gets of a message.
abbrev pub given : KafkaJobMsg → HandlerJob
given m = record { id = m.job_id; type = m.type; device_id = m.device_id; payload = m.payload }

abbrev pub Fails : Handler → HandlerJob → ℕ → ℕ → Type 0
Fails handle j id limit =
    (attempts : ℕ) (o : List Message) (v : World)
    → Stands id limit attempts state_running o v
    → (e : Err) × (v' : World) × (o' : List Message) × (handle j v ≡ (err e, v'))
      × Stands id limit attempts state_running o' v'

module _ (cx : Codec) (fp : Float64) (cfg : Config) where
  -- A sound message of the worker's tier on which its handler fails wherever the job is RUNNING,
  -- whatever it writes before, the job's row apart.
  pub record IsPoison (msg : Message) (id limit : ℕ) : Type 0 where
    pub decoded : KafkaJobMsg
    pub decodes : cx.unmarshal_job msg.value ≡ ok decoded
    pub owned : decoded.tier ≡ cfg.allowed_tier
    pub names : cx.parse_uuid decoded.job_id ≡ ok id
    pub handle : Handler
    pub registered : registry_get cfg.registry decoded.type ≡ some handle
    pub fails : Fails handle (given decoded) id limit

  -- The last attempt: a dead letter, and FAILED.
  dead_letter :
      {id limit attempts : ℕ} {state : String} {o : List Message} {w : World} (value msg : String)
      → Stands id limit attempts state o w
      → (w' : World) × (m : Message) × (send_to_dlq cx fp value id msg w ≡ (ok tt, w'))
        × Stands id limit attempts state_failed (m ∷ o) w'
        × (m.topic ≡ "jobs.dlq")
        × (m.key ≡ cx.uuid_string id)
  unfolding send_to_dlq state_check pure
  dead_letter {id} {w} value msg s =
      let sent = publish-calm "jobs.dlq" (cx.uuid_string id) value w s.calm in
      let (j, w', e, s') = Stands-to_state (Stands-send _ s) state_failed (some msg) refl in
      (w', _, bind-ok _ _ _ (wrapping-ok "publish dlq" _ _ sent) ∙ bind-ok _ _ _ e, s', refl, refl)

  -- An earlier one: a message on the retry topic, RETRY, and one attempt more. The message's last
  -- header is the due time after the draw `r`.
  pub retry_message :
      {id limit attempts : ℕ} {state : String} {o : List Message} {w : World} (value msg : String)
      (n : ℕ)
      → attempts < int_max
      → Stands id limit attempts state o w
      → (w' : World) × (m : Message) × (send_to_retry cx fp cfg value id n msg w ≡ (ok tt, w'))
        × Stands id limit (attempts + 1) state_retry (m ∷ o) w'
        × (m.topic ≡ cfg.topic <> ".retry")
        × (m.value ≡ value)
        × (r : ℕ) × ((draw w).0 ≡ ok r)
        × (m.headers
            ≡ inject w.trace []
              ++ ("retry-at", cx.format_int (next_at fp w.clock n r / second)) ∷ [])
  unfolding send_to_retry state_check pure now
  retry_message {id} {w} value msg n small s =
      let (r, w₁, drew, s₁, same_trace) = Stands-draw s in
      let sent =
        publish_with_header-calm (cfg.topic <> ".retry") (cx.uuid_string id) value "retry-at"
          (cx.format_int (next_at fp w.clock n r / second)) w₁ s₁.calm in
      let (j, w₂, e₂, s₂) = Stands-to_state (Stands-send _ s₁) state_retry (some msg) refl in
      let (k, w₃, e₃, s₃) = Stands-increment s₂ small in
      (
        w₃,
        _,
        bind-ok _ _ w refl
            ∙ bind-ok _ _ w drew
            ∙ bind-ok _ _ w₁ (wrapping-ok "publish retry" _ w₁ sent)
            ∙ bind-ok _ _ _ e₂
            ∙ bind-ok _ _ w₂ e₃,
        s₃,
        refl,
        refl,
        r,
        ap (λ x. x.0) drew,
        ap
            (λ ps.
              inject ps [] ++ ("retry-at", cx.format_int (next_at fp w.clock n r / second)) ∷ [])
            same_trace,
      )

  -- Up to the outcome of the handler.
  dispatch-Fails :
      {id limit attempts : ℕ} {state : String} {o : List Message} {w : World} (msg : Message)
      (m : KafkaJobMsg) (job : Job) (handle : Handler)
      → Fails handle (given m) id limit
      → Stands id limit attempts state o w
      → (e : Err) × (w' : World) × (o' : List Message) × Stands id limit attempts state_running o'
          w'
        × (dispatch cx fp cfg msg m id job (some handle) w
            ≡ conclude cx fp cfg msg.value job id (err e) w')
  unfolding dispatch state_check start_heartbeat stop_heartbeat
  dispatch-Fails {id} {w} msg m job handle fails s =
      let (j, w₁, e₁, s₁) = Stands-to_state s state_running none refl in
      let (e, v, o', h, s₂) = fails _ _ _ (Stands-beating (some id) s₁) in
      (
        e,
        record v { beating = none },
        o',
        Stands-beating none s₂,
        bind-ok _ _ w (wrapping-ok "update RUNNING" _ w e₁)
            ∙ bind-ok _ _ w₁ refl
            ∙ bind-attempt _ _ _ h
            ∙ bind-ok _ _ _ refl,
      )

  -- The worker comes to the decision between a retry and a dead letter.
  process_one-conclude :
      {id limit attempts : ℕ} {state : String} {o : List Message} {w : World} {msg : Message}
      → IsPoison msg id limit
      → (s : Stands id limit attempts state o w)
      → (e : Err) × (w' : World) × (o' : List Message) × Stands id limit attempts state_running o'
          w'
        × (process_one cx fp cfg msg w ≡ conclude cx fp cfg msg.value s.job id (err e) w')
  unfolding process_one process_decoded process_owned lift
  process_one-conclude {id} {w} {msg} p s =
      let m = p.decoded in
      let (e, w', o', s', q) = dispatch-Fails msg m s.job p.handle p.fails s in
      (
        e,
        w',
        o',
        s',
        bind-ok _ _ w (wrapping-ok "decode kafka message" _ w (ap (λ r. (r, w)) p.decodes))
            ∙ rw ((eq_iff m.tier cfg.allowed_tier).1 p.owned) (
                bind-ok _ _ w (ap (λ r. (r, w)) p.names)
                ∙ bind-ok _ _ w (wrapping-ok "get job" _ w (Stands-get_job s))
                ∙ ap (λ h. dispatch cx fp cfg msg m id s.job h w) p.registered
                ∙ q),
      )

  leb-le : (a b : ℕ) → a ≤ b → leb a b ≡ true
  leb-le a b h = ground arith

  leb-lt : (a b : ℕ) → b < a → leb a b ≡ false
  leb-lt a b h = ground arith

  -- The last attempt.
  pub process_one-dead :
      {id limit attempts : ℕ} {state : String} {o : List Message} {w : World} {msg : Message}
      → IsPoison msg id limit
      → Stands id limit attempts state o w
      → limit ≤ attempts + 1
      → (e : Err) × (w' : World) × (o' : List Message) × (m : Message) × (process_one cx fp cfg msg
            w
          ≡ (err e, w'))
        × Stands id limit attempts state_failed (m ∷ o') w'
        × (m.topic ≡ "jobs.dlq")
        × (m.key ≡ cx.uuid_string id)
  unfolding conclude raise
  process_one-dead {id} {w} {msg} p s h =
      let (e, w₁, o', s₁, q) = process_one-conclude p s in
      let (w₂, m, d, s₂, t, k) = dead_letter msg.value (error_text e) s₁ in
      (
        e,
        w₂,
        o',
        m,
        q ∙ rw (s.has_limit, s.has_attempts, leb-le _ _ h) (bind-attempt _ _ w₁ d),
        s₂,
        t,
        k,
      )

  -- An earlier one.
  pub process_one-retry :
      {id limit attempts : ℕ} {state : String} {o : List Message} {w : World} {msg : Message}
      → IsPoison msg id limit
      → Stands id limit attempts state o w
      → attempts + 1 < limit
      → limit ≤ int_max
      → (e : Err) × (w' : World) × (o' : List Message) × (m : Message) × (process_one cx fp cfg msg
            w
          ≡ (err e, w'))
        × Stands id limit (attempts + 1) state_retry (m ∷ o') w'
        × (m.topic ≡ cfg.topic <> ".retry")
        × (m.value ≡ msg.value)
  unfolding conclude raise
  process_one-retry {id} {attempts} {w} {msg} p s h small =
      let (e, w₁, o', s₁, q) = process_one-conclude p s in
      let (w₂, m, d, s₂, t, v, r, _, _) =
        retry_message msg.value (error_text e) (attempts + 1) (omega arith) s₁ in
      (
        e,
        w₂,
        o',
        m,
        q ∙ rw (s.has_limit, s.has_attempts, leb-lt _ _ h) (bind-attempt _ _ w₁ d),
        s₂,
        t,
        v,
      )
