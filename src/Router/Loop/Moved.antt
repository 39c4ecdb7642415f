-- ===== src/Router/Loop/Moved.antt =====
-- cmd/retry-router/main.go: what the loop moves where every request is delivered at once.
use processing_platform.Prelude.{
  ℕ, String, ◌<>◌, ◌≡◌, refl, ◌∙◌, Bool, true, false, List, [], ◌∷◌, map, All, ltb,
}
use processing_platform.Failure.{ok}
use processing_platform.World.{World, Message, pure, now}
use processing_platform.World.Calm.{request-calm, publish-calm, bind-ok, bind-attempt}
use processing_platform.Kafka.{inject}
use processing_platform.Codec.{Codec}
use processing_platform.Router.{
  committed, sleep, wait_until, read_retry_at, commit_message, after_republish, republish_due,
  drain_one,
}
use processing_platform.Router.Loop.{
  RetryFetch, stopped, failed, got, sleep_second, after_turn, drain,
}
use processing_platform.Worker.Loop.Counts.{onto}

-- The messages that are fetched before the context is cancelled.
pub fetched_before : List RetryFetch → List Message
fetched_before [] = []
fetched_before (stopped ∷ fs) = []
fetched_before (failed ∷ fs) = fetched_before fs
fetched_before (got msg cancel ∷ fs) = msg ∷ fetched_before fs

-- The context is not cancelled during a sleep.
abbrev pub Undisturbed : RetryFetch → Type 0
Undisturbed stopped = Unit
Undisturbed failed = Unit
Undisturbed (got msg cancel) = cancel ≡ false

-- The message as the router republishes it: on the tier's topic, without its headers.
abbrev pub moved : String → List (String × String) → Message → Message
moved tier trace msg = record {
  topic = "jobs." <> tier;
  key = msg.key;
  value = msg.value;
  headers = inject trace [];
}

module _ (cx : Codec) (tier : String) where
  sleep-wakes :
      (late : Bool) (at : ℕ) (w : World)
      → (c : ℕ) × (sleep late false at w ≡ (ok true, record w { clock = c }))
  unfolding sleep
  sleep-wakes false at w = (w.clock, refl)
  sleep-wakes true at w = (at, refl)

  drain_one-moves :
      (msg : Message) (w : World)
      → w.env ≡ []
      → (c : ℕ) × (drain_one cx tier msg false w ≡ (
        ok (committed (ok tt)),
        record w { clock = c; outbox = moved tier w.trace msg ∷ w.outbox },
      ))
  unfolding drain_one wait_until now republish_due after_republish commit_message pure
  drain_one-moves msg w calm =
      let at = read_retry_at cx w.clock msg.headers in
      let (c, slept) = sleep-wakes (ltb w.clock at) at w in
      (
        c,
        bind-ok _ _ w refl
            ∙ bind-ok _ _ w slept
            ∙ bind-attempt _ _ _
                (publish-calm ("jobs." <> tier) msg.key msg.value (record w { clock = c }) calm)
            ∙ bind-attempt _ _ _ (request-calm (λ _. pure tt) _ calm),
      )

  -- Where every request is delivered at once and no sleep is disturbed, the loop of a tier ends
  -- without an error and changes no table: each message that it fetches before the context is
  -- cancelled, those after a failed fetch too, it moves once and in order, with its key and value,
  -- to the tier's topic, and commits.
  pub drain-moved :
      (fs : List RetryFetch) (w : World)
      → w.env ≡ []
      → All Undisturbed fs
      → (w' : World) × (drain cx tier fs w
          ≡ (ok (map (λ m. (m, committed (ok tt))) (fetched_before fs)), w'))
        × (w'.outbox ≡ onto (map (moved tier w.trace) (fetched_before fs)) w.outbox)
        × (w'.db ≡ w.db)
  unfolding drain after_turn fetched_before pure sleep_second
  drain-moved [] w calm u = (w, refl, refl, refl)
  drain-moved (stopped ∷ fs) w calm u = (w, refl, refl, refl)
  drain-moved (failed ∷ fs) w calm (_, u) =
      let (w', e, moves, same) = drain-moved fs _ calm u in
      (w', bind-ok _ _ w refl ∙ e, moves, same)
  drain-moved (got msg true ∷ fs) w calm (d, u) = cc d
  drain-moved (got msg false ∷ fs) w calm (d, u) =
      let (c, q) = drain_one-moves msg w calm in
      let (w', e, moves, same) = drain-moved fs _ calm u in
      (w', bind-ok _ _ w q ∙ bind-ok _ _ _ e, moves, same)
