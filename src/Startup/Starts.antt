-- ===== src/Startup/Starts.antt =====
-- When a command starts.
use processing_platform.Prelude.{
  String, ◌≡◌, ◌⊎◌, refl, ap, subst, inl, inr, Bool, true, false, not, ◌&&◌, Option, none, some,
  List, [], ◌∷◌, str_eq, Bool-cases, arith,
}
use processing_platform.Failure.{Err, ok}
use processing_platform.Startup.{
  Resource, signals, metrics_server, tracer, pool, redis, producer, consumer, mqtt, ticker,
  http_server, Check, exporter, pool_config, pool_connect, pool_ping, redis_ping, mqtt_connect,
  mqtt_subscribe, Setting, Held, Ended, ready, exited, Boot, ◌>>=◌, ◌>>◌, bind_ended, pure, opens,
  closes, defers, exit_on_error, must_env, call, store_pinged, store_new, init, failed_with,
  wrap_failure, after_check,
}
use processing_platform.Startup.Commands.{
  Command, api, worker, ingestion, reaper, retry_router, required, observed, stored, using,
  start_worker, start_api, start_ingestion, start_reaper, start_router, start,
}
use processing_platform.Startup.Needs.{variables, checks, is_none, can_start}

-- Go on if the test is true, exit with 1 if it is false.
abbrev Stage : {A : Type 0} → Bool → Ended A × Held → Type 0
Stage true (ready a, h) = Unit
Stage true (exited n, h) = ⊥
Stage false (ready a, h) = ⊥
Stage false (exited n, h) = n ≡ 1

record Gate {A : Type 0} (b : Bool) (m : Boot A) : Type 0 where
  pub at : (h : Held) → Stage b (m h)

Stage-bind :
    {A B : Type 0} (f : A → Boot B) (b c : Bool) (r : Ended A × Held)
    → Stage b r
    → ((a : A) (h : Held) → Stage c (f a h))
    → Stage (b && c) (bind_ended r f)
Stage-bind f true c (ready a, h) s k = k a h
Stage-bind f true c (exited n, h) s k = absurd s
Stage-bind f false c (ready a, h) s k = absurd s
Stage-bind f false c (exited n, h) s k = s

Gate-bind :
    {A B : Type 0} {m : Boot A} {f : A → Boot B} {b c : Bool}
    → Gate b m
    → ((a : A) → Gate c (f a))
    → Gate (b && c) (m >>= f)
unfolding ◌>>=◌
Gate-bind {m} {f} {b} {c} g k = record { at = λ h. Stage-bind f b c (m h) (g.at h) (λ a. (k a).at) }

Gate-using : (r : Resource) → Gate true (using r)
unfolding using opens defers ◌>>=◌
Gate-using r = record { at = λ h. tt }

Gate-exit : (o : Option Err) → Gate (is_none o) (exit_on_error (failed_with o))
unfolding exit_on_error
Gate-exit none = record { at = λ h. tt }
Gate-exit (some e) = record { at = λ h. refl }

module _ (cfg : Setting) where
  Gate-required : (k : String) → Gate (not (str_eq (cfg.getenv k) "")) (required cfg k)
  unfolding must_env pure ◌>>=◌
  Gate-required k = record {
    at = λ h. elim (Bool-cases (str_eq (cfg.getenv k) "")) [ inl e ↦ rw e refl | inr e ↦ rw e tt ];
  }

  Gate-stored :
      Gate
        (is_none (cfg.failure pool_config)
          && (is_none (cfg.failure pool_connect) && is_none (cfg.failure pool_ping)))
        (stored cfg)
  unfolding stored store_new call store_pinged exit_on_error opens closes defers pure ◌>>=◌
  Gate-stored = record {
    at = by_failures (cfg.failure pool_config) (cfg.failure pool_connect) (cfg.failure pool_ping);
  }
    where
      by_failures :
          (x y z : Option Err) (h : Held)
          → Stage (is_none x && (is_none y && is_none z)) (
              bind_ended
                (after_check
                  (wrap_failure "parse pg config" (failed_with x))
                  (after_check
                    (wrap_failure "connect pg" (failed_with y))
                    (opens pool >> store_pinged (wrap_failure "pg ping" (failed_with z))))
                  h)
                (λ e. exit_on_error e >> defers (pool ∷ [])))
      by_failures (some x) y z h = refl
      by_failures none (some y) z h = refl
      by_failures none none (some z) h = refl
      by_failures none none none h = tt

  Gate-observed : Gate (is_none (cfg.failure exporter)) (observed cfg)
  unfolding observed init call exit_on_error opens defers pure ◌>>=◌
  Gate-observed = record { at = by_failure (cfg.failure exporter) }
    where
      by_failure :
          (x : Option Err) (h : Held)
          → Stage (is_none x) (
              bind_ended
                ((opens metrics_server
                    >> after_check
                        (wrap_failure "otlp exporter" (failed_with x))
                        (opens tracer >> pure (ok tt)))
                  h)
                (λ e. exit_on_error e >> defers (metrics_server ∷ tracer ∷ [])))
      by_failure none h = tt
      by_failure (some e) h = refl

  Gate-opens : (r : Resource) → Gate true (opens r)
  unfolding opens
  Gate-opens r = record { at = λ h. tt }

  Gate-defers : (rs : List Resource) → Gate true (defers rs)
  unfolding defers
  Gate-defers rs = record { at = λ h. tt }

  Gate-call : (c : Check) → Gate (is_none (cfg.failure c)) (exit_on_error (call cfg c))
  unfolding call
  Gate-call c = Gate-exit (cfg.failure c)

  Gate-worker : Gate (can_start cfg worker) (start_worker cfg)
  unfolding start_worker can_start variables checks
  Gate-worker =
      subst (λ b. Gate b (start_worker cfg)) (ground arith)
        (Gate-bind (Gate-required "POSTGRES_DSN") (λ _.
          Gate-bind (Gate-required "KAFKA_BROKERS") (λ _. Gate-bind (Gate-using signals) (λ _.
            Gate-bind (Gate-observed) (λ _.
              Gate-bind (Gate-stored)
                (λ _. Gate-bind (Gate-using consumer) (λ _. Gate-using producer)))))))

  Gate-api : Gate (can_start cfg api) (start_api cfg)
  unfolding start_api can_start variables checks
  Gate-api =
      subst (λ b. Gate b (start_api cfg)) (ground arith)
        (Gate-bind (Gate-required "POSTGRES_DSN") (λ _. Gate-bind (Gate-required "REDIS_ADDR") (λ _.
          Gate-bind (Gate-required "KAFKA_BROKERS") (λ _. Gate-bind (Gate-using signals) (λ _.
            Gate-bind (Gate-observed) (λ _. Gate-bind (Gate-stored) (λ _.
              Gate-bind (Gate-opens redis) (λ _. Gate-bind (Gate-call redis_ping) (λ _.
                Gate-bind (Gate-defers (redis ∷ []))
                  (λ _. Gate-bind (Gate-using producer) (λ _. Gate-opens http_server)))))))))))

  Gate-ingestion : Gate (can_start cfg ingestion) (start_ingestion cfg)
  unfolding start_ingestion can_start variables checks
  Gate-ingestion =
      subst (λ b. Gate b (start_ingestion cfg)) (ground arith)
        (Gate-bind (Gate-required "KAFKA_BROKERS") (λ _.
          Gate-bind (Gate-required "POSTGRES_DSN") (λ _. Gate-bind (Gate-using signals) (λ _.
            Gate-bind (Gate-using producer) (λ _. Gate-bind (Gate-stored) (λ _.
              Gate-bind (Gate-call mqtt_connect)
                (λ _. Gate-bind (Gate-using mqtt) (λ _. Gate-call mqtt_subscribe))))))))

  Gate-reaper : Gate (can_start cfg reaper) (start_reaper cfg)
  unfolding start_reaper can_start variables checks
  Gate-reaper =
      subst (λ b. Gate b (start_reaper cfg)) (ground arith)
        (Gate-bind (Gate-required "POSTGRES_DSN") (λ _.
          Gate-bind (Gate-required "KAFKA_BROKERS") (λ _. Gate-bind (Gate-using signals) (λ _.
            Gate-bind (Gate-stored)
              (λ _. Gate-bind (Gate-using producer) (λ _. Gate-using ticker))))))

  Gate-router : Gate (can_start cfg retry_router) (start_router cfg)
  unfolding start_router can_start variables checks
  Gate-router =
      subst (λ b. Gate b (start_router cfg)) (ground arith)
        (Gate-bind (Gate-required "KAFKA_BROKERS") (λ _. Gate-bind (Gate-using signals) (λ _.
          Gate-bind (Gate-using producer) (λ _.
            Gate-bind (Gate-opens consumer)
              (λ _. Gate-bind (Gate-opens consumer) (λ _. Gate-opens consumer))))))

  Gate-start : (c : Command) → Gate (can_start cfg c) (start cfg c)
  unfolding start
  Gate-start api = Gate-api
  Gate-start worker = Gate-worker
  Gate-start ingestion = Gate-ingestion
  Gate-start reaper = Gate-reaper
  Gate-start retry_router = Gate-router

  -- A command gets as far as serving exactly when its variables are set and the servers it needs
  -- answer; otherwise it exits with 1.
  pub start-can_start :
      (c : Command) (h : Held)
      → ((can_start cfg c ≡ true) × ((start cfg c h).0 ≡ ready tt))
        ⊎ ((can_start cfg c ≡ false) × ((start cfg c h).0 ≡ exited 1))
  start-can_start c h = by_stage (can_start cfg c) (start cfg c h) refl ((Gate-start c).at h)
    where
      by_stage :
          (b : Bool) (r : Ended (Unit {0}) × Held)
          → can_start cfg c ≡ b
          → Stage b r
          → ((can_start cfg c ≡ true) × (r.0 ≡ ready tt))
            ⊎ ((can_start cfg c ≡ false) × (r.0 ≡ exited 1))
      by_stage true (ready a, h) e s = inl (e, refl)
      by_stage true (exited n, h) e s = absurd s
      by_stage false (ready a, h) e s = absurd s
      by_stage false (exited n, h) e s = inr (e, ap exited s)
