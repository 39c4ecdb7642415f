-- ===== src/System/Cycle.antt =====
-- internal/worker and cmd/retry-router together: a message that goes round by the retry topic.
use processing_platform.Prelude.{
  ℕ, zero, suc, ◌+◌, ◌≤◌, String, ◌<>◌, ◌≡◌, sym, ap, subst, ◌∙◌, inl, false, List, ◌∷◌, arith,
}
use processing_platform.Failure.{Result, ok}
use processing_platform.World.{World, Message}
use processing_platform.Codec.{Codec}
use processing_platform.Retry.{Float64}
use processing_platform.Router.{committed, drain_one}
use processing_platform.Router.Calm.{Stands-drain_one}
use processing_platform.Store.Sql.Jobs.{int_max}
use processing_platform.Worker.{Config, process_one}
use processing_platform.Worker.Stands.{Stands}
use processing_platform.Worker.Failing.{IsPoison, process_one-dead, process_one-retry}
use processing_platform.Worker.Poison.{Dead}
use processing_platform.System.Kept.{Sent}

module _ (cx : Codec) (fp : Float64) (cfg : Config) (tier : String) where
  -- The worker takes the message, the router the newest message of the retry topic, the worker
  -- the message that the router republished, and so on: so many rounds, and one delivery more.
  pub data Travels : ℕ → Message → World → World → Type 0 where
    arrives :
        {msg : Message} {w w' : World} {r : Result (Unit {0})}
        → process_one cx fp cfg msg w ≡ (r, w')
        → Travels zero msg w w'
    returns :
        {n : ℕ} {msg m m' : Message} {w w₁ w₂ w' : World} {o : List Message} {r : Result (Unit {0})}
        → process_one cx fp cfg msg w ≡ (r, w₁)
        → w₁.outbox ≡ m ∷ o
        → m.topic ≡ cfg.topic <> ".retry"
        → drain_one cx tier m false w₁ ≡ (ok (committed (ok tt)), w₂)
        → w₂.outbox ≡ m' ∷ w₁.outbox
        → m'.topic ≡ cfg.topic
        → Travels n m' w₂ w'
        → Travels (suc n) msg w w'

  -- Only the value of a message makes it poison.
  IsPoison-value :
      {msg m : Message} {id limit : ℕ}
      → m.value ≡ msg.value
      → IsPoison cx fp cfg msg id limit
      → IsPoison cx fp cfg m id limit
  IsPoison-value v p = record {
    decoded = p.decoded;
    decodes = ap cx.unmarshal_job v ∙ p.decodes;
    owned = p.owned;
    names = p.names;
    handle = p.handle;
    registered = p.registered;
    fails = p.fails;
  }

  -- In a world where every request is delivered at once, a well-formed message of the worker's tier
  -- on which its handler always fails, whatever else than the job's row it writes, goes round through the router of the tier, each time as the
  -- message that the worker left on the retry topic and the router republished, as many times as
  -- its job has attempts left but one, and after the last delivery the row is FAILED and the dead
  -- letter is with the brokers, where the limit of attempts fits the column.
  pub travels-Dead :
      {id limit : ℕ} (k attempts : ℕ) (msg : Message) (state : String) (o : List Message)
      (w : World)
      → cfg.topic ≡ "jobs." <> tier
      → IsPoison cx fp cfg msg id limit
      → Stands id limit attempts state o w
      → limit ≡ attempts + suc k
      → limit ≤ int_max
      → (w' : World) × Travels k msg w w' × Dead cx fp cfg id w'
  travels-Dead {id} zero attempts msg state o w topic p s left small =
      let (e, w', o', m, q, s', t, key) = process_one-dead cx fp cfg p s (omega arith) in
      (
        w',
        arrives q,
        (
          s'.job,
          s'.found,
          s'.has_state,
          subst (Sent "jobs.dlq" (cx.uuid_string id)) (sym s'.outbox) (inl (t, key)),
        ),
      )
  travels-Dead (suc k) attempts msg state o w topic p s left small =
      let (e, w₁, o', m, q, s₁, t, v) = process_one-retry cx fp cfg p s (omega arith) small in
      let (w₂, m', q', s₂, t', v') = Stands-drain_one cx tier m s₁ in
      let (w', walk, dead) =
        travels-Dead k (attempts + 1) m' _ _ w₂ topic (IsPoison-value (v' ∙ v) p) s₂ (omega arith)
          small in
      (
        w',
        returns q s₁.outbox t q' (s₂.outbox ∙ ap (λ o. m' ∷ o) (sym s₁.outbox)) (t' ∙ sym topic)
            walk,
        dead,
      )
