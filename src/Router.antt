-- ===== src/Router.antt =====
-- cmd/retry-router: a message of a retry topic waits for its retry-at, is republished to the topic
-- of its tier, and only then committed.
pub mod Moves
pub mod RetryAt
pub mod Loop
pub mod Calm
use processing_platform.Prelude.{
  ℕ, ◌*◌, String, ◌<>◌, Bool, true, false, Option, none, some, List, [], ◌∷◌, ltb, str_eq,
  if◌then◌else◌,
}
use processing_platform.Failure.{Result, ok, err}
use processing_platform.World.{M, Message, pure, attempt, now, request, ◌>>=◌}
use processing_platform.Kafka.{publish}
use processing_platform.Codec.{Codec, ℤ, pos, negsuc}
use processing_platform.Retry.{second}

-- What became of one fetched message: `error` is what `CommitMessage` returned.
pub data Drained : Type 0 where
  cancelled : Drained
  left_uncommitted : Drained
  committed : Result (Unit {0}) → Drained

-- `time.Unix(n, 0)`, in nanoseconds; the time before 1970 is past as 1970 is.
unfoldable pub unix : ℤ → ℕ
unix (pos n) = n * second
unix (negsuc n) = 0

-- By whether there is a delay and whether the context is cancelled during the sleep.
unfoldable pub sleep : Bool → Bool → ℕ → M Bool
sleep false cancel at w = (ok true, w)
sleep true true at w = (ok false, w)
sleep true false at w = (ok true, record w { clock = at })

-- The sleep: the clock reaches `at`, or the context is cancelled first.
unfoldable pub wait_until : ℕ → Bool → M Bool
unfolding sleep
wait_until at cancel w = sleep (ltb w.clock at) cancel at w

-- `CommitMessage`: the offset is the broker's; the program reads only the error.
unfoldable pub commit_message : M (Unit {0})
commit_message = request λ _. pure tt

module _ (cx : Codec) where
  unfoldable pub parsed_or : ℕ → Option ℤ → ℕ
  parsed_or at none = at
  parsed_or at (some n) = unix n

  -- The loop over the headers: the last parseable `retry-at` counts.
  unfoldable pub read_retry_at : ℕ → List (String × String) → ℕ
  read_retry_at at [] = at
  read_retry_at at ((k, v) ∷ hs) =
      read_retry_at (if str_eq k "retry-at" then parsed_or at (cx.parse_int v) else at) hs

  unfoldable pub after_republish : Result (Unit {0}) → M Drained
  after_republish (err e) = pure left_uncommitted
  after_republish (ok _) = do r ← attempt commit_message; pure (committed r)

  unfoldable pub republish_due : String → Message → Bool → M Drained
  republish_due tier msg false = pure cancelled
  republish_due tier msg true = do
    r ← attempt (publish ("jobs." <> tier) msg.key msg.value)
    after_republish r

  -- One turn of the loop in `drain`, from a fetched message.
  unfoldable pub drain_one : String → Message → Bool → M Drained
  drain_one tier msg cancel = do
    t ← now
    due ← wait_until (read_retry_at t msg.headers) cancel
    republish_due tier msg due
