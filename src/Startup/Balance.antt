-- ===== src/Startup/Balance.antt =====
-- The steps of a start keep what was opened in balance with what will be closed.
use processing_platform.Prelude.{
  ℕ, ◌+◌, String, ◌≡◌, inl, inr, Option, none, some, List, [], ◌∷◌, if◌then◌else◌, ◌==◌, arith,
  str_eq, Bool-cases,
}
use processing_platform.Failure.{Err, Result, ok, err}
use processing_platform.Startup.{
  Resource, signals, metrics_server, tracer, pool, redis, producer, consumer, mqtt, ticker,
  http_server, pool_config, pool_connect, pool_ping, exporter, Setting, Act, opened, closed, Held,
  Ended, ready, exited, Boot, ◌>>=◌, ◌>>◌, bind_ended, pure, opens, closes, defers, exit_on_error,
  must_env, call, store_pinged, store_new, init, failed_with, wrap_failure, after_check,
}
use processing_platform.Startup.Commands.{required, observed, stored, using}

-- A number for each resource, to compare them.
abbrev pub number : Resource → ℕ
number signals = 0
number metrics_server = 1
number tracer = 2
number pool = 3
number redis = 4
number producer = 5
number consumer = 6
number mqtt = 7
number ticker = 8
number http_server = 9

abbrev pub is : Resource → Resource → ℕ
is r s = if number r == number s then 1 else 0

-- How often a resource was opened, and closed, and is closed by the deferred calls.
unfoldable pub openings : Resource → List Act → ℕ
openings r [] = 0
openings r (opened s ∷ acts) = is r s + openings r acts
openings r (closed s ∷ acts) = openings r acts

unfoldable pub closings : Resource → List Act → ℕ
closings r [] = 0
closings r (opened s ∷ acts) = closings r acts
closings r (closed s ∷ acts) = is r s + closings r acts

unfoldable pub count : Resource → List Resource → ℕ
count r [] = 0
count r (s ∷ ss) = is r s + count r ss

unfoldable pub deferred : Resource → List (List Resource) → ℕ
deferred r [] = 0
deferred r (rs ∷ ds) = count r rs + deferred r ds

module _ (r : Resource) where
  -- What is open will be closed by a deferred call, but for what is listed.
  abbrev pub Balanced : List Resource → Held → Type 0
  Balanced extra h = openings r h.acts ≡ closings r h.acts + (deferred r h.defers + count r extra)

  abbrev pub Then : {A : Type 0} → (Held → Type 0) → Ended A × Held → Type 0
  Then P (ready a, h) = P h
  Then P (exited n, h) = Unit

  -- From one list of open resources to another.
  pub record Moves {A : Type 0} (before after : List Resource) (m : Boot A) : Type 0 where
    pub at : (h : Held) → Balanced before h → Then (Balanced after) (m h)

  Then-bind :
      {A B : Type 0} (P Q : Held → Type 0) (f : A → Boot B) (x : Ended A × Held)
      → Then P x
      → ((a : A) (h : Held) → P h → Then Q (f a h))
      → Then Q (bind_ended x f)
  Then-bind P Q f (ready a, h) p k = k a h p
  Then-bind P Q f (exited n, h) p k = tt

  pub Moves-bind :
      {A B : Type 0} {a b c : List Resource} {m : Boot A} {f : A → Boot B}
      → Moves a b m
      → ((x : A) → Moves b c (f x))
      → Moves a c (m >>= f)
  unfolding ◌>>=◌
  Moves-bind {b} {c} {m} {f} t k = record {
    at = λ h p. Then-bind (Balanced b) (Balanced c) f (m h) (t.at h p) (λ x. (k x).at);
  }

  pub Moves-opens : (s : Resource) (l : List Resource) → Moves l (s ∷ l) (opens s)
  unfolding opens openings closings count
  Moves-opens s l = record { at = λ h p. omega (arith, p) }

  pub Moves-closes : (s : Resource) (l : List Resource) → Moves (s ∷ l) l (closes s)
  unfolding closes openings closings count
  Moves-closes s l = record { at = λ h p. omega (arith, p) }

  pub Moves-using : (s : Resource) (l : List Resource) → Moves l l (using s)
  unfolding using opens defers openings closings count deferred ◌>>=◌
  Moves-using s l = record { at = λ h p. omega (arith, p) }

  pub Moves-exit : (e : Result (Unit {0})) (l : List Resource) → Moves l l (exit_on_error e)
  unfolding exit_on_error
  Moves-exit (ok _) l = record { at = λ h p. p }
  Moves-exit (err e) l = record { at = λ h p. tt }

  pub Moves-required : (cfg : Setting) (k : String) (l : List Resource) → Moves l l (required cfg k)
  unfolding must_env pure ◌>>=◌
  Moves-required cfg k l = record {
    at = λ h p. elim (Bool-cases (str_eq (cfg.getenv k) "")) [ inl e ↦ rw e tt | inr e ↦ rw e p ];
  }

  pub Moves-defers : (s : Resource) (l : List Resource) → Moves (s ∷ l) l (defers (s ∷ []))
  unfolding defers count deferred
  Moves-defers s l = record { at = λ h p. omega (arith, p) }

  pub Moves-stored : (cfg : Setting) (l : List Resource) → Moves l l (stored cfg)
  unfolding stored store_new call store_pinged exit_on_error opens closes defers pure openings
      closings count deferred ◌>>=◌
  Moves-stored cfg l = record {
    at = λ h.
        by_failures (cfg.failure pool_config) (cfg.failure pool_connect) (cfg.failure pool_ping) h;
  }
    where
      by_failures :
          (x y z : Option Err) (h : Held)
          → Balanced l h
          → Then (Balanced l) (
              bind_ended
                (after_check
                  (wrap_failure "parse pg config" (failed_with x))
                  (after_check
                    (wrap_failure "connect pg" (failed_with y))
                    (opens pool >> store_pinged (wrap_failure "pg ping" (failed_with z))))
                  h)
                (λ e. exit_on_error e >> defers (pool ∷ [])))
      by_failures (some x) y z h p = tt
      by_failures none (some y) z h p = tt
      by_failures none none (some z) h p = tt
      by_failures none none none h p = omega (arith, p)

  pub Moves-observed : (cfg : Setting) (l : List Resource) → Moves l l (observed cfg)
  unfolding observed init call exit_on_error opens defers pure openings closings count deferred
      ◌>>=◌
  Moves-observed cfg l = record { at = λ h. by_failure (cfg.failure exporter) h }
    where
      by_failure :
          (x : Option Err) (h : Held)
          → Balanced l h
          → Then (Balanced l) (
              bind_ended
                ((opens metrics_server
                    >> after_check
                        (wrap_failure "otlp exporter" (failed_with x))
                        (opens tracer >> pure (ok tt)))
                  h)
                (λ e. exit_on_error e >> defers (metrics_server ∷ tracer ∷ [])))
      by_failure (some e) h p = tt
      by_failure none h p = omega (arith, p)
