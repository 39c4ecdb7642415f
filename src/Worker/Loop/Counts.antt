-- ===== src/Worker/Loop/Counts.antt =====
-- internal/worker/worker.go: what `Run` counts and commits, and what a failed handler becomes.
use processing_platform.Prelude.{
  ℕ, ◌+◌, String, ◌≡◌, refl, ◌∙◌, ap, inl, inr, Option, none, some, List, [], ◌∷◌, map, str_eq, leb,
  Bool-cases,
}
use processing_platform.Failure.{Err, Result, ok, err}
use processing_platform.World.{World, Message, raise, attempt, ◌>>=◌}
use processing_platform.World.Calm.{bind-ok, bind-attempt, wrapping-ok}
use processing_platform.Codec.{Codec, KafkaJobMsg}
use processing_platform.Retry.{Float64}
use processing_platform.Metrics.{Metrics, observe_duration, observe_job}
use processing_platform.Jobs.State.{state_running}
use processing_platform.Store.Rows.{Job}
use processing_platform.Handlers.{Handler, HandlerJob}
use processing_platform.Worker.{
  Config, to_state, conclude, dispatch, start_heartbeat, stop_heartbeat, process_one,
}
use processing_platform.Worker.Loop.{
  Fetch, cancelled, failed, fetched, Shift, outcome_label, turn, run,
}
use processing_platform.Router.{commit_message}

-- The messages that are fetched before the context is cancelled.
pub received : List Fetch → List Message
received [] = []
received (cancelled ∷ fs) = []
received (failed ∷ fs) = received fs
received (fetched msg ∷ fs) = msg ∷ received fs

-- Whether it is cancelled.
unfoldable pub ending : List Fetch → Option (Result (Unit {0}))
ending [] = none
ending (cancelled ∷ fs) = some (ok tt)
ending (failed ∷ fs) = ending fs
ending (fetched msg ∷ fs) = ending fs

-- The metrics that a duration leaves alone.
abbrev Counted : Metrics → Metrics → Type 0
Counted m m' =
    (m'.kafka_messages_consumed ≡ m.kafka_messages_consumed)
    × (m'.jobs_processed_total ≡ m.jobs_processed_total)

Counted-observe_duration :
    (typ tier : String) (duration : ℕ) (m : Metrics)
    → Counted m (observe_duration typ tier duration m)
unfolding observe_duration
Counted-observe_duration typ tier duration m = elim (Bool-cases (str_eq tier "realtime")) [
  | inl e ↦ rw e (refl, refl)
  | inr n ↦ elim (Bool-cases (str_eq tier "standard")) [
    | inl e ↦ rw (n, e) (refl, refl)
    | inr n₁ ↦ elim (Bool-cases (str_eq tier "bulk")) [
      | inl e ↦ rw (n, n₁, e) (refl, refl)
      | inr n₂ ↦ rw (n, n₁, n₂) (refl, refl)
    ]
  ]
]

observe_job-Counted :
    (typ tier state : String) (duration : ℕ) (m : Metrics)
    → let m' = observe_job typ tier state duration m in
      (m'.kafka_messages_consumed ≡ m.kafka_messages_consumed)
      × (m'.jobs_processed_total ≡ (typ, tier, state) ∷ m.jobs_processed_total)
unfolding observe_job
observe_job-Counted typ tier state duration m =
    Counted-observe_duration typ tier duration
      (record m { jobs_processed_total = (typ, tier, state) ∷ m.jobs_processed_total })

-- Oldest last, onto what is there.
abbrev pub onto : {A : Type 0} → List A → List A → List A
onto [] ys = ys
onto (x ∷ xs) ys = onto xs (x ∷ ys)

module _ (cx : Codec) (fp : Float64) (peek : String → String × String) (cfg : Config) where
  -- The handling of one message, and the consumer's answer to its commit.
  abbrev handled : Message → World → Result (Unit {0}) × World
  handled msg w = process_one cx fp cfg msg w

  abbrev committed : Message → World → Result (Unit {0}) × World
  committed msg w = commit_message (handled msg w).1

  -- The world after each message was processed and then committed, one after the other.
  unfoldable pub worked : List Message → World → World
  worked [] w = w
  worked (msg ∷ msgs) w = worked msgs (committed msg w).1

  -- Each message with the answer to its commit.
  unfoldable pub commits_of : List Message → World → List (Message × Result (Unit {0}))
  commits_of [] w = []
  commits_of (msg ∷ msgs) w = (msg, (committed msg w).0) ∷ commits_of msgs (committed msg w).1

  -- Each message's type and tier, with how its processing ended.
  unfoldable pub labels_of : List Message → World → List (String × String × String)
  labels_of [] w = []
  labels_of (msg ∷ msgs) w =
      ((peek msg.value).0, (peek msg.value).1, outcome_label (handled msg w).0)
      ∷ labels_of msgs (committed msg w).1

  turn-consumed :
      (msg : Message) (s : Shift)
      → (turn cx fp peek cfg msg s).metrics.kafka_messages_consumed
        ≡ (cfg.topic, cfg.group_id) ∷ s.metrics.kafka_messages_consumed
  unfolding turn
  turn-consumed msg s = (observe_job-Counted _ _ _ _ _).0

  turn-processed :
      (msg : Message) (s : Shift)
      → (turn cx fp peek cfg msg s).metrics.jobs_processed_total
        ≡ ((peek msg.value).0, (peek msg.value).1, outcome_label (handled msg s.world).0)
          ∷ s.metrics.jobs_processed_total
  unfolding turn
  turn-processed msg s = (observe_job-Counted _ _ _ _ _).1

  pub run-received :
      (fs : List Fetch) (s : Shift)
      → let r = run cx fp peek cfg fs s in
        (r.0 ≡ ending fs)
        × (r.1.world ≡ worked (received fs) s.world)
        × (r.1.commits ≡ onto (commits_of (received fs) s.world) s.commits)
        × (r.1.metrics.kafka_messages_consumed
            ≡ onto
                (map (λ m. (cfg.topic, cfg.group_id)) (received fs))
                s.metrics.kafka_messages_consumed)
        × (r.1.metrics.jobs_processed_total
            ≡ onto (labels_of (received fs) s.world) s.metrics.jobs_processed_total)
  unfolding run turn received ending worked commits_of labels_of
  run-received [] s = (refl, refl, refl, refl, refl)
  run-received (cancelled ∷ fs) s = (refl, refl, refl, refl, refl)
  run-received (failed ∷ fs) s = run-received fs s
  run-received (fetched msg ∷ fs) s =
      let s' = turn cx fp peek cfg msg s in
      let (e, v, c, k, p) = run-received fs s' in
      (
        e,
        v,
        c,
        k ∙ ap (onto (map (λ m. (cfg.topic, cfg.group_id)) (received fs))) (turn-consumed msg s),
        p ∙ ap (onto (labels_of (received fs) s'.world)) (turn-processed msg s),
      )

  conclude-err :
      (value : String) (job : Job) (id : ℕ) (e : Err) (w : World)
      → (conclude cx fp cfg value job id (err e) w).0 ≡ err e
  unfolding conclude raise attempt ◌>>=◌
  conclude-err value job id e w = elim (Bool-cases (leb job.max_attempts (job.attempts + 1))) [
    | inl t ↦ rw t refl
    | inr n ↦ rw n refl
  ]

  -- Once the job is marked RUNNING, an error of its handler is the error that the worker returns,
  -- whatever becomes of the retry message, the dead letter and their updates.
  pub dispatch-err :
      (msg : Message) (m : KafkaJobMsg) (id : ℕ) (job row : Job) (handle : Handler) (e : Err)
      (w w' : World)
      → to_state id state_running none w ≡ (ok row, w')
      → (handle
          (record { id = m.job_id; type = m.type; device_id = m.device_id; payload = m.payload })
          (record w' { beating = some id })).0
        ≡ err e
      → (dispatch cx fp cfg msg m id job (some handle) w).0 ≡ err e
  unfolding dispatch start_heartbeat stop_heartbeat
  dispatch-err msg m id job row handle e w w' running fails =
      let j : HandlerJob = record {
        id = m.job_id;
        type = m.type;
        device_id = m.device_id;
        payload = m.payload;
      } in
      ap (λ r. r.0)
        (bind-ok _ _ w (wrapping-ok "update RUNNING" _ w running)
          ∙ bind-ok _ _ w' refl
          ∙ bind-attempt _ _ _ (λ i. (fails i, (handle j (record w' { beating = some id })).1))
          ∙ bind-ok _ _ _ refl)
      ∙ conclude-err msg.value job id e _
