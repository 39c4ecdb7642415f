-- ===== src/Scenarios/Keys.antt =====
-- A concrete Redis whose clock stands still, and two submissions with one key.
use processing_platform.Prelude.{
  ℕ, String, ◌≡◌, ◌≢◌, refl, ap, inl, inr, Bool, true, false, Option, none, some, [], ◌∷◌, str_eq,
  eq_iff, if◌then◌else◌, Bool-cases, arith, map,
}
use processing_platform.Failure.{Result, ok}
use processing_platform.Idempotency.{
  Redis, Claims, parsed_winner, winner, claimed, acquire, redis_acquirer,
}
use processing_platform.Idempotency.Claims.{acquire-once}
use processing_platform.Idempotency.Once.{submit_job-once}
use processing_platform.Jobs.State.{state_queued}
use processing_platform.Codec.{SubmitJobRequest}
use processing_platform.Jobs.Types.{type_remote_command, valid, tier_for}
use processing_platform.Jobs.Key.{validate_idempotency_key, key_char}
use processing_platform.World.{
  World, pure, attempt, ◌>>=◌, request, arrive, settle_as, query, run_statement,
}
use processing_platform.Kafka.{publish, write_messages}
use processing_platform.Store.Sql.Base.{has_device, find_job}
use processing_platform.Store.Sql.Jobs
use processing_platform.Store.Sql.Jobs.{
  new_job, same_key, update_job, set_state, state_check, coalesce,
}
use processing_platform.Store.Queries.{create_job, update_job_state}
use processing_platform.Submitter.{job_params}
use processing_platform.Api.{
  Response, submitted, reply, queued_response, after_publish, after_create, respond_new,
  respond_acquired, submit_checked, submit_bound, submit_job,
}
use processing_platform.Api.Once.{Untouched}
use processing_platform.System.Identity.{identity}
use processing_platform.Scenarios.Texts.{texts, unary, size}
use processing_platform.Scenarios.Plant.{world}

abbrev Server : Type 0
Server = String → Option (String × ℕ)

abbrev with_entry : String → String → ℕ → Server → Server
with_entry k v life s j = if str_eq k j then some (v, life) else s j

abbrev set_on : Option (String × ℕ) → String → String → ℕ → Server → Result Bool × Server
set_on none k v life s = (ok true, with_entry k v life s)
set_on (some e) k v life s = (ok false, s)

abbrev value_in : Option (String × ℕ) → Option String
value_in none = none
value_in (some (v, t)) = some v

set-stays :
    (o : Option (String × ℕ)) (k v : String) (life : ℕ) (s : Server) (j u : String) (t : ℕ)
    → s k ≡ o
    → s j ≡ some (u, t)
    → (set_on o k v life s).1 j ≡ some (u, t)
set-stays (some x) k v life s j u t q e = e
set-stays none k v life s j u t q e = elim (Bool-cases (str_eq k j)) [
  | inl y ↦ let p : k ≡ j = (eq_iff k j).0 y in cc (q, e, p)
  | inr n ↦ rw n e
]

set-sets :
    (o : Option (String × ℕ)) (k v : String) (life : ℕ) (s : Server)
    → (set_on o k v life s).0 ≡ ok true
    → (set_on o k v life s).1 k ≡ some (v, life)
set-sets (some x) k v life s e = cc e
set-sets none k v life s e = rw ((eq_iff k k).1 refl) refl

set-free :
    (o : Option (String × ℕ)) (k v : String) (life : ℕ) (s : Server) (x : String × ℕ)
    → (set_on o k v life s).0 ≡ ok true
    → o ≢ some x
set-free none k v life s x e = λ q. cc q
set-free (some y) k v life s x e = cc e

fst_of : Option (String × ℕ) → Option String
fst_of none = none
fst_of (some (v, t)) = some v

value_reads :
    (o : Option (String × ℕ)) (u v : String) (t : ℕ)
    → ok (value_in o) ≡ ok (some v)
    → o ≡ some (u, t)
    → v ≡ u
unfolding fst_of
value_reads none u v t e f = cc f
value_reads (some (x, y)) u v t e f = cc (e, ap fst_of f)

abbrev still : Redis
still = record {
  Server = Server;
  time = λ s. 0;
  entry = λ s k. s k;
  set_nx = λ k v life s. set_on (s k) k v life s;
  get = λ k s. (ok (value_in (s k)), s);
  set_nx-time = λ k v life s. omega arith;
  set_nx-stays = λ k v life s j u t e. inl (set-stays (s k) k v life s j u t refl e);
  get-time = λ k s. omega arith;
  get-stays = λ k s j u t e. inl e;
  set_nx-sets = λ k v life s e. (life, omega arith, inl (set-sets (s k) k v life s e));
  set_nx-free = λ k v life s u t e f. absurd (set-free (s k) k v life s (u, t) e f);
  get-reads = λ k s u v t e f. value_reads (s k) u v t e f;
}

abbrev start : Claims texts still
start = (8 ∷ 9 ∷ [], λ k. none)

acquire-once_example : ◌≡◌ {A = Bool} false false × ◌≡◌ {A = ℕ} 8 8
unfolding acquire claimed winner parsed_winner size unary
acquire-once_example =
    acquire-once still texts "key-0002" start (acquire texts still "key-0002" start).1 8 8 false
      refl (record { time_le = omega arith; stays = λ k v t e. inl e }) (omega arith) refl

abbrev request_read : SubmitJobRequest
request_read = record {
  type = type_remote_command;
  device_id = "d1";
  idempotency_key = "key-0002";
  payload = "key-0002";
}

abbrev first : (Result Response × World) × Claims texts still
first = submit_job texts (redis_acquirer texts still) "key-0002" start world

abbrev queued : Response
queued = reply 202 (submitted (unary 0) state_queued)

submit_job-once_example :
    let second = submit_job texts (redis_acquirer texts still) "key-0002" first.1 first.0.1 in
    Untouched first.0.1.outbox (map identity first.0.1.db.jobs) second.0.1.db second.0.1.outbox
unfolding pure attempt ◌>>=◌ request arrive settle_as query run_statement publish write_messages
    has_device find_job new_job same_key update_job set_state state_check create_job
    update_job_state Jobs.create_job Jobs.update_job_state queued_response after_publish
    after_create respond_new respond_acquired submit_checked submit_bound submit_job valid tier_for
    validate_idempotency_key key_char job_params unary acquire claimed
submit_job-once_example =
    submit_job-once texts still "key-0002" "key-0002" request_read request_read start first.1 world
      first.0.1 queued refl refl refl refl refl
      (record { time_le = omega arith; stays = λ k v t e. inl e }) (omega arith)
