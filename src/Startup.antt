-- ===== src/Startup.antt =====
-- How the commands start and stop: what each opens and closes, and when it exits. A command runs in a
-- `Setting`, the variables of its environment and the errors of the calls that can fail; `os.Exit` runs no deferred
-- call, a return runs them all, the last one first.
pub mod Commands
pub mod Needs
pub mod Starts
pub mod Balance
pub mod Releases
pub mod Workers
use processing_platform.Prelude.{
  ℕ, String, Bool, true, false, Option, none, some, List, [], ◌∷◌, str_eq, if◌then◌else◌,
}
use processing_platform.Failure.{Err, Result, ok, err, wrap}

-- What is held open: `signals` is the handler of signal.NotifyContext.
pub data Resource : Type 0 where
  signals metrics_server tracer pool redis producer consumer mqtt ticker http_server : Resource

-- What may fail while a command starts.
pub data Check : Type 0 where
  exporter pool_config pool_connect pool_ping redis_ping mqtt_connect mqtt_subscribe : Check

pub record Setting : Type 0 where
  pub getenv : String → String  -- "" where the variable is unset
  pub failure : Check → Option Err  -- the error of the call, if it fails

pub data Act : Type 0 where
  opened closed : Resource → Act

-- What was opened and closed, newest first, and the deferred calls, each by what it closes.
pub record Held : Type 0 where
  pub acts : List Act
  pub defers : List (List Resource)

pub data Ended (A : Type 0) : Type 0 where
  ready : A → Ended A
  exited : ℕ → Ended A

abbrev pub Boot : Type 0 → Type 0
Boot A = Held → Ended A × Held

infixl 5 ◌>>=◌ ◌>>◌
abbrev pub bind_ended : {A B : Type 0} → Ended A × Held → (A → Boot B) → Ended B × Held
bind_ended (ready a, h) f = f a h
bind_ended (exited n, h) f = (exited n, h)

unfoldable pub ◌>>=◌ : {A B : Type 0} → Boot A → (A → Boot B) → Boot B
◌>>=◌ m f h = bind_ended (m h) f

abbrev pub ◌>>◌ : {A B : Type 0} → Boot A → Boot B → Boot B
m >> k = m >>= λ _. k

unfoldable pub pure : {A : Type 0} → A → Boot A
pure a h = (ready a, h)

unfoldable pub opens : Resource → Boot (Unit {0})
opens r h = (ready tt, record h { acts = opened r ∷ h.acts })

unfoldable pub closes : Resource → Boot (Unit {0})
closes r h = (ready tt, record h { acts = closed r ∷ h.acts })

-- `defer`.
unfoldable pub defers : List Resource → Boot (Unit {0})
defers rs h = (ready tt, record h { defers = rs ∷ h.defers })

-- `if err != nil { …; os.Exit(1) }`.
unfoldable pub exit_on_error : Result (Unit {0}) → Boot (Unit {0})
exit_on_error (ok _) h = (ready tt, h)
exit_on_error (err e) h = (exited 1, h)

abbrev pub failed_with : Option Err → Result (Unit {0})
failed_with none = ok tt
failed_with (some e) = err e

abbrev pub wrap_failure : String → Result (Unit {0}) → Result (Unit {0})
wrap_failure context (ok _) = ok tt
wrap_failure context (err e) = err (wrap context e)

abbrev pub after_check : Result (Unit {0}) → Boot (Result (Unit {0})) → Boot (Result (Unit {0}))
after_check (ok _) rest h = rest h
after_check (err e) rest h = (ready (err e), h)

-- The end of `store.New`: the pool is closed again where it does not answer.
unfoldable pub store_pinged : Result (Unit {0}) → Boot (Result (Unit {0}))
store_pinged (ok _) = pure (ok tt)
store_pinged (err e) = do closes pool; pure (err e)

module _ (cfg : Setting) where
  unfoldable pub must_env : String → Boot String
  must_env k h = if str_eq (cfg.getenv k) "" then (exited 1, h) else (ready (cfg.getenv k), h)

  unfoldable pub call : Check → Result (Unit {0})
  call c = failed_with (cfg.failure c)

  -- `store.New`.
  unfoldable pub store_new : Boot (Result (Unit {0}))
  unfolding call store_pinged
  store_new = after_check (wrap_failure "parse pg config" (call pool_config)) (
      after_check (wrap_failure "connect pg" (call pool_connect))
        (do opens pool; store_pinged (wrap_failure "pg ping" (call pool_ping))))

  -- `observability.Init`: the metrics server listens before the exporter is built.
  unfoldable pub init : Boot (Result (Unit {0}))
  unfolding call
  init = do
    opens metrics_server
    after_check (wrap_failure "otlp exporter" (call exporter)) (do opens tracer; pure (ok tt))
