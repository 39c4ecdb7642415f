-- ===== src/Router/Calm.antt =====
-- cmd/retry-router in a world where every request is delivered at once: one message of a retry topic.
use processing_platform.Prelude.{ℕ, String, ◌<>◌, ◌≡◌, refl, ◌∙◌, Bool, true, false, List, ◌∷◌, ltb}
use processing_platform.Failure.{ok}
use processing_platform.World.{World, Message, pure, now}
use processing_platform.World.Calm.{request-calm, publish-calm, bind-ok, bind-attempt}
use processing_platform.Codec.{Codec}
use processing_platform.Router.{
  committed, sleep, wait_until, read_retry_at, commit_message, after_republish, republish_due,
  drain_one,
}
use processing_platform.Worker.Stands.{Stands, Stands-send}

Stands-clock :
    {id limit attempts : ℕ} {state : String} {o : List Message} {w : World} (t : ℕ)
    → Stands id limit attempts state o w
    → Stands id limit attempts state o (record w { clock = t })
Stands-clock t s = record {
  calm = s.calm;
  job = s.job;
  found = s.found;
  has_limit = s.has_limit;
  has_attempts = s.has_attempts;
  has_state = s.has_state;
  outbox = s.outbox;
}

-- Asleep or not, the message becomes due.
Stands-sleep :
    {id limit attempts : ℕ} {state : String} {o : List Message} {w : World} (late : Bool) (at : ℕ)
    → Stands id limit attempts state o w
    → (w' : World) × (sleep late false at w ≡ (ok true, w')) × Stands id limit attempts state o w'
unfolding sleep
Stands-sleep {w} false at s = (w, refl, s)
Stands-sleep {w} true at s = (record w { clock = at }, refl, Stands-clock at s)

-- The message is republished to the tier's topic with its value, and committed.
pub Stands-drain_one :
    (cx : Codec) (tier : String) {id limit attempts : ℕ} {state : String} {o : List Message}
    {w : World} (msg : Message)
    → Stands id limit attempts state o w
    → (w' : World) × (m : Message) × (drain_one cx tier msg false w ≡ (ok (committed (ok tt)), w'))
      × Stands id limit attempts state (m ∷ o) w'
      × (m.topic ≡ "jobs." <> tier)
      × (m.value ≡ msg.value)
unfolding drain_one wait_until now republish_due after_republish commit_message pure
Stands-drain_one cx tier {w} msg s =
    let at = read_retry_at cx w.clock msg.headers in
    let (w₁, slept, s₁) = Stands-sleep (ltb w.clock at) at s in
    let s₂ = Stands-send _ s₁ in
    (
      _,
      _,
      bind-ok _ _ w refl
          ∙ bind-ok _ _ w slept
          ∙ bind-attempt _ _ w₁ (publish-calm ("jobs." <> tier) msg.key msg.value w₁ s₁.calm)
          ∙ bind-attempt _ _ _ (request-calm (λ _. pure tt) _ s₂.calm),
      s₂,
      refl,
      refl,
    )
