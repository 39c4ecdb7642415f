-- ===== src/Router/Moves.antt =====
-- cmd/retry-router: what stands behind a commit.
use native.Mathlib.Nat.{le_trans}
use processing_platform.Prelude.{
  ℕ, ◌≤◌, String, ◌<>◌, ◌≡◌, refl, inl, inr, Bool, true, false, ltb, Bool-cases, arith,
}
use processing_platform.Failure.{Result, ok, err}
use processing_platform.World.{
  World, M, Message, Call, Fate, delivered, refused, lost, attempt, pure, ◌>>=◌, now, next_call,
  arrive, settle_as, request,
}
use processing_platform.World.Keeps.{
  Any_world, Inv, After, Triple, Keeps, Triple-bind, Triple-attempt, Triple-request, Keeps-attempt,
  Keeps-pure, Keeps-now, Triple-weaken,
}
use processing_platform.Kafka.{append, write_messages, publish}
use processing_platform.Codec.{Codec}
use processing_platform.Router.{
  Drained, cancelled, left_uncommitted, committed, sleep, wait_until, commit_message, read_retry_at,
  after_republish, republish_due, drain_one,
}
use processing_platform.System.Kept.{Sent, With, Triple-publish}

-- The brokers hold a message with the key on the topic, if the offset was committed.
abbrev pub Moved : String → String → Drained → Inv
Moved topic key cancelled db o = Unit
Moved topic key left_uncommitted db o = Unit
Moved topic key (committed r) db o = Sent topic key o

-- A request takes time, and gives none back.
settle-clock :
    {A : Type 0} (op : M A)
    → ((v : World) → (op v).1.clock ≡ v.clock)
    → (f : Fate) (c : Call) (w : World) → w.clock ≤ (settle_as f c op (arrive c w)).1.clock
unfolding settle_as arrive
settle-clock op same delivered c w = omega (arith, same (arrive c w))
settle-clock op same refused c w = omega arith
settle-clock op same lost c w = omega (arith, same (arrive c w))

request-clock :
    {A : Type 0} (op : Call → M A)
    → ((c : Call) (v : World) → (op c v).1.clock ≡ v.clock)
    → (w : World) → w.clock ≤ (request op w).1.clock
unfolding request
request-clock op same w = let c = next_call w.env in settle-clock (op c) (same c) c.fate c w

write-clock : (m : Message) (w : World) → w.clock ≤ (write_messages m w).1.clock
unfolding write_messages
write-clock m w = request-clock (λ _. append m) (λ c v. refl) w

publish-clock :
    (topic key value : String) (w : World) → w.clock ≤ (publish topic key value w).1.clock
unfolding publish
publish-clock topic key value w = write-clock _ w

not-ltb : (a b : ℕ) → ltb a b ≡ false → b ≤ a
not-ltb a b h = ground arith

After-any :
    {A : Type 0} (r : Result A) (w : World) → After (λ _. Any_world) Any_world r w.db w.outbox
After-any (ok a) w = tt
After-any (err e) w = tt

module _ (cx : Codec) where
  Moved-after_republish :
      (topic key : String) (r : Result (Unit {0}))
      → Triple
          (After (λ _. With Any_world (Sent topic key)) Any_world r)
          (after_republish cx r)
          (Moved topic key)
          Any_world
  unfolding after_republish commit_message pure
  Moved-after_republish topic key (err e) = record { at = λ w p. tt }
  Moved-after_republish topic key (ok _) =
      Triple-bind {Q = λ _. With Any_world (Sent topic key)}
        (Triple-weaken (λ db o p. p) (λ a db o p. p) (λ db o p. tt)
          (Keeps-attempt (
            Triple-request _ (record { beat = λ t id db o p. p }) (λ c. Keeps-pure _ tt)
              (λ db o p. p) (λ a db o p. p))))
        (λ r. record { at = λ w p. p.1 })

  Moved-republish_due :
      (tier : String) (msg : Message) (due : Bool)
      → Triple Any_world (republish_due cx tier msg due) (Moved ("jobs." <> tier) msg.key) Any_world
  unfolding republish_due pure
  Moved-republish_due tier msg false = record { at = λ w p. tt }
  Moved-republish_due tier msg true =
      Triple-bind
        (Triple-attempt (
          Triple-publish (record { beat = λ t id db o p. p }) (λ m db o p. p) ("jobs." <> tier)
            msg.key msg.value))
        (λ r. Moved-after_republish ("jobs." <> tier) msg.key r)

  Moved-result :
      (topic key : String) (r : Result Drained) (w : World) (c : Result (Unit {0}))
      → After (Moved topic key) Any_world r w.db w.outbox
      → r ≡ ok (committed c)
      → Sent topic key w.outbox
  Moved-result topic key (ok cancelled) w c h e = cc e
  Moved-result topic key (ok left_uncommitted) w c h e = cc e
  Moved-result topic key (ok (committed x)) w c h e = h
  Moved-result topic key (err x) w c h e = cc e

  after_republish-clock :
      (r : Result (Unit {0})) (w : World) → w.clock ≤ (after_republish cx r w).1.clock
  unfolding after_republish commit_message pure attempt ◌>>=◌
  after_republish-clock (err e) w = omega arith
  after_republish-clock (ok _) w = request-clock {A = Unit {0}} (λ _. pure tt) (λ c v. refl) w

  republish_due-clock :
      (tier : String) (msg : Message) (w : World)
      → w.clock ≤ (republish_due cx tier msg true w).1.clock
  unfolding republish_due attempt ◌>>=◌
  republish_due-clock tier msg w =
      le_trans (publish-clock ("jobs." <> tier) msg.key msg.value w) (after_republish-clock _ _)

  waited-clock :
      (tier : String) (msg : Message) (cancel : Bool) (at : ℕ) (w : World) (c : Result (Unit {0}))
      → let r = (wait_until at cancel >>= republish_due cx tier msg) w in
        r.0 ≡ ok (committed c) → at ≤ r.1.clock
  unfolding wait_until sleep ◌>>=◌ pure republish_due
  waited-clock tier msg cancel at w c e = elim (Bool-cases (ltb w.clock at)) [
    | inr n ↦ rw n (le_trans (not-ltb w.clock at n) (republish_due-clock tier msg w))
    | inl b ↦ elim (Bool-cases cancel) [
      | inl q ↦ cc (rw (b, q, sleep, republish_due) at e)
      | inr q ↦ rw (b, q) (republish_due-clock tier msg (record w { clock = at }))
    ]
  ]

  Keeps-wait : (at : ℕ) (cancel : Bool) → Keeps Any_world (wait_until at cancel)
  Keeps-wait at cancel = record { at = λ w _. let r = wait_until at cancel w in After-any r.0 r.1 }

  pub Moved-drain_one :
      (tier : String) (msg : Message) (cancel : Bool)
      → Triple Any_world (drain_one cx tier msg cancel) (Moved ("jobs." <> tier) msg.key) Any_world
  unfolding drain_one
  Moved-drain_one tier msg cancel = Triple-bind (Keeps-now Any_world) (λ t.
      Triple-bind (Keeps-wait (read_retry_at cx t msg.headers) cancel)
        (λ due. Moved-republish_due tier msg due))

  drain_one-clock :
      (tier : String) (msg : Message) (cancel : Bool) (w : World) (c : Result (Unit {0}))
      → let r = drain_one cx tier msg cancel w in
        r.0 ≡ ok (committed c) → read_retry_at cx w.clock msg.headers ≤ r.1.clock
  unfolding drain_one ◌>>=◌ now
  drain_one-clock tier msg cancel w c e =
      waited-clock tier msg cancel (read_retry_at cx w.clock msg.headers) w c e

  -- When one turn of the drain commits a message of a retry topic, the brokers hold a message with
  -- its key on the topic of the tier, and the time that the message named is past.
  pub drain_one-committed :
      (tier : String) (msg : Message) (cancel : Bool) (w : World) (c : Result (Unit {0}))
      → let r = drain_one cx tier msg cancel w in
        r.0 ≡ ok (committed c)
        → Sent ("jobs." <> tier) msg.key r.1.outbox
          × (read_retry_at cx w.clock msg.headers ≤ r.1.clock)
  drain_one-committed tier msg cancel w c e =
      let r = drain_one cx tier msg cancel w in
      (
        Moved-result ("jobs." <> tier) msg.key r.0 r.1 c ((Moved-drain_one tier msg cancel).at w tt)
            e,
        drain_one-clock tier msg cancel w c e,
      )
