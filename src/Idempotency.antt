-- ===== src/Idempotency.antt =====
-- internal/idempotency/idempotency.go: the claim of an idempotency key in Redis. Redis itself is a
-- parameter, with what its documentation says of SET NX EX and GET.
pub mod Claims
pub mod Once
use processing_platform.Prelude.{
  ℕ, ◌+◌, ◌*◌, ◌≤◌, String, ◌<>◌, ◌≡◌, ◌⊎◌, Bool, true, false, Option, none, some, List, [], ◌∷◌,
}
use processing_platform.Failure.{Err, Result, ok, err, new, wrap}
use processing_platform.Codec.{Codec}
use processing_platform.Api.{Acquirer}

-- Operations take time, and other clients may act meanwhile.
pub record Redis : Type 1 where
  pub Server : Type 0
  pub time : Server → ℕ  -- nanoseconds
  pub entry : Server → String → Option (String × ℕ)  -- the value, and when it expires
  pub set_nx : String → String → ℕ → Server → Result Bool × Server  -- key, value, lifetime
  pub get : String → Server → Result (Option String) × Server  -- `ok none` is redis.Nil
  -- No operation turns the clock back, or touches an entry that has not expired.
  pub set_nx-time : (k v : String) (ttl : ℕ) (s : Server) → time s ≤ time (set_nx k v ttl s).1
  pub set_nx-stays :
      (k v : String) (ttl : ℕ) (s : Server) (j u : String) (t : ℕ)
      → entry s j ≡ some (u, t)
      → (entry (set_nx k v ttl s).1 j ≡ some (u, t)) ⊎ (t ≤ time (set_nx k v ttl s).1)
  pub get-time : (k : String) (s : Server) → time s ≤ time (get k s).1
  pub get-stays :
      (k : String) (s : Server) (j u : String) (t : ℕ)
      → entry s j ≡ some (u, t)
      → (entry (get k s).1 j ≡ some (u, t)) ⊎ (t ≤ time (get k s).1)
  -- A SET NX that answers true has set the entry, to live as long as asked; one that was there
  -- before had expired.
  pub set_nx-sets :
      (k v : String) (ttl : ℕ) (s : Server)
      → (set_nx k v ttl s).0 ≡ ok true
      → (t : ℕ) × (time s + ttl ≤ t)
        × ((entry (set_nx k v ttl s).1 k ≡ some (v, t)) ⊎ (t ≤ time (set_nx k v ttl s).1))
  pub set_nx-free :
      (k v : String) (ttl : ℕ) (s : Server) (u : String) (t : ℕ)
      → (set_nx k v ttl s).0 ≡ ok true
      → entry s k ≡ some (u, t)
      → t ≤ time (set_nx k v ttl s).1
  -- A GET that answers reads the entry.
  pub get-reads :
      (k : String) (s : Server) (u v : String) (t : ℕ)
      → (get k s).0 ≡ ok (some v)
      → entry (get k s).1 k ≡ some (u, t)
      → v ≡ u

abbrev pub key_prefix : String
key_prefix = "idem:"

-- Twenty-four hours, in nanoseconds.
abbrev pub ttl : ℕ
ttl = 24 * 3600 * 1000000000

module _ (cx : Codec) (rd : Redis) where
  -- What uuid.New() will draw, and the server.
  abbrev pub Claims : Type 0
  Claims = List ℕ × rd.Server

  abbrev pub draw_uuid : List ℕ → ℕ × List ℕ
  draw_uuid [] = (0, [])
  draw_uuid (u ∷ us) = (u, us)

  unfoldable pub parsed_winner : String → Result ℕ → Result (ℕ × Bool)
  parsed_winner existing (ok id) = ok (id, false)
  parsed_winner existing (err e) = err (wrap ("parsing stored job id " <> cx.quote existing) e)

  -- After the GET.
  unfoldable pub winner : Result (Option String) → Result (ℕ × Bool)
  unfolding parsed_winner
  winner (ok (some existing)) = parsed_winner existing (cx.parse_uuid existing)
  winner (ok none) = err (new "idempotency key vanished mid-flight")
  winner (err e) = err (wrap "redis GET" e)

  -- After the SETNX.
  unfoldable pub claimed : String → ℕ → Result Bool × rd.Server → Result (ℕ × Bool) × rd.Server
  unfolding winner
  claimed redis_key id (ok true, s) = (ok (id, true), s)
  claimed redis_key id (ok false, s) = (winner (rd.get redis_key s).0, (rd.get redis_key s).1)
  claimed redis_key id (err e, s) = (err (wrap "redis SETNX" e), s)

  -- `RedisAcquirer.Acquire`.
  unfoldable pub acquire : String → Claims → Result (ℕ × Bool) × Claims
  unfolding claimed
  acquire key (uuids, s) =
      let (id, rest) = draw_uuid uuids in
      let r =
        claimed (key_prefix <> key) id (rd.set_nx (key_prefix <> key) (cx.uuid_string id) ttl s) in
      (r.0, (rest, r.1))

  abbrev pub redis_acquirer : Acquirer
  redis_acquirer = record { Server = Claims; acquire = acquire }
