-- ===== src/Router/Loop.antt =====
-- cmd/retry-router/main.go: the loop of `drain` over what its consumer fetches.
pub mod Moved
use processing_platform.Prelude.{ℕ, suc, zero, ◌+◌, String, Bool, List, [], ◌∷◌}
use processing_platform.Failure.{Result, ok}
use processing_platform.World.{M, Message, pure, attempt, ◌>>=◌, ◌>>◌}
use processing_platform.Codec.{Codec}
use processing_platform.Retry.{second}
use processing_platform.Router.{Drained, cancelled, left_uncommitted, committed, drain_one}

-- What `FetchMessage` gives: an error after the context is cancelled, another error, or a message,
-- with whether the context is cancelled while it waits.
pub data RetryFetch : Type 0 where
  stopped : RetryFetch
  failed : RetryFetch
  got : Message → Bool → RetryFetch

abbrev pub Journal : Type 0
Journal = List (Message × Drained)

-- `time.Sleep(time.Second)`.
unfoldable pub sleep_second : M (Unit {0})
sleep_second w = (ok tt, record w { clock = w.clock + second })

-- A turn that was cancelled is the last.
unfoldable pub after_turn : Message → Drained → M Journal → M Journal
after_turn msg cancelled rest = pure ((msg, cancelled) ∷ [])
after_turn msg left_uncommitted rest = do ds ← rest; pure ((msg, left_uncommitted) ∷ ds)
after_turn msg (committed r) rest = do ds ← rest; pure ((msg, committed r) ∷ ds)

module _ (cx : Codec) where
  -- `drain`: what became of each message, in the order of the fetches.
  unfoldable pub drain : String → List RetryFetch → M Journal
  unfolding after_turn sleep_second
  drain tier [] = pure []
  drain tier (stopped ∷ fs) = pure []
  drain tier (failed ∷ fs) = do sleep_second; drain tier fs
  drain tier (got msg cancel ∷ fs) = do
    d ← drain_one cx tier msg cancel
    after_turn msg d (drain tier fs)
