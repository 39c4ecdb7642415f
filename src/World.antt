-- ===== src/World.antt =====
-- The state that the processes share and the effects by which they change it. A process is an
-- action of the monad `M`: it answers with a result or a Go error, and leaves a new world.
--
-- What the program does not control comes as the list `env`, one `Call` for each request to a
-- server, in order; past its end every request is delivered at once. `delivered`: it took effect
-- and was answered. `refused`: it did not take effect, and the caller has an error. `lost`: it took
-- effect, but the answer was lost, and the caller has an error.
-- A heartbeat goroutine that is running may write before any request (`beat`).
pub mod Keeps
pub mod Calm
use processing_platform.Prelude.{
  ℕ, ◌+◌, ◌/◌, String, Bool, false, Option, none, some, List, [], ◌∷◌, if◌then◌else◌,
}
use processing_platform.Failure.{Err, Result, ok, err, fault, deadline_exceeded, wrap}
use processing_platform.Store.Rows.{Db}
use processing_platform.Store.Sql.Base.{Stamp, Statement}
use processing_platform.Store.Sql.Jobs.{heartbeat}

-- A Kafka message: `kafka.Message` of segmentio/kafka-go, the fields that the program reads.
pub record Message : Type 0 where
  pub topic : String
  pub key : String
  pub value : String
  pub headers : List (String × String)

-- An HTTP POST that was sent.
pub record Request : Type 0 where
  pub path : String
  pub body : String

pub data Fate : Type 0 where
  delivered refused lost : Fate

pub record Call : Type 0 where
  pub fate : Fate
  pub elapsed : ℕ  -- nanoseconds
  pub late : Bool  -- an error is context.DeadlineExceeded
  pub beat : Bool
  pub uuid : ℕ
  pub text : String  -- the text of an error
  pub locked : List ℕ
  pub status : ℕ  -- the status and the body of an HTTP response
  pub body : String

abbrev pub prompt_call : Call
prompt_call = record {
  fate = delivered;
  elapsed = 0;
  late = false;
  beat = false;
  uuid = 0;
  text = "";
  locked = [];
  status = 200;
  body = "";
}

pub record World : Type 0 where
  pub db : Db
  pub outbox : List Message  -- what the brokers hold, newest first
  pub requests : List Request  -- the HTTP requests that arrived, newest first
  pub clock : ℕ  -- nanoseconds
  pub beating : Option ℕ  -- the job whose heartbeat goroutine runs
  pub trace : List (String × String)  -- what the trace propagator injects
  pub env : List Call
  pub draws : List ℕ  -- what math/rand draws, as bit patterns of float64

abbrev pub M : Type 0 → Type 0
M A = World → Result A × World

unfoldable pub pure : {A : Type 0} → A → M A
pure a w = (ok a, w)

unfoldable pub raise : {A : Type 0} → Err → M A
raise e w = (err e, w)

infixl 5 ◌>>=◌ ◌>>◌
abbrev pub bind_result : {A B : Type 0} → Result A × World → (A → M B) → Result B × World
bind_result (ok a, w) f = f a w
bind_result (err e, w) f = (err e, w)

unfoldable pub ◌>>=◌ : {A B : Type 0} → M A → (A → M B) → M B
◌>>=◌ m f w = bind_result (m w) f

abbrev pub ◌>>◌ : {A B : Type 0} → M A → M B → M B
m >> k = m >>= λ _. k

-- The Go error of `m` as a value.
unfoldable pub attempt : {A : Type 0} → M A → M (Result A)
attempt m w = (ok (m w).0, (m w).1)

unfoldable pub lift : {A : Type 0} → Result A → M A
lift r w = (r, w)

-- `if err != nil { return fmt.Errorf("context: %w", err) }`.
abbrev pub wrapping_result : {A : Type 0} → String → Result A × World → Result A × World
wrapping_result context (ok a, w) = (ok a, w)
wrapping_result context (err e, w) = (err (wrap context e), w)

unfoldable pub wrapping : {A : Type 0} → String → M A → M A
wrapping context m w = wrapping_result context (m w)

unfoldable pub now : M ℕ
now w = (ok w.clock, w)

abbrev pub take_draw : List ℕ → World → Result ℕ × World
take_draw [] w = (ok 0, w)
take_draw (d ∷ ds) w = (ok d, record w { draws = ds })

-- `rand.Float64()`.
unfoldable pub draw : M ℕ
draw w = take_draw w.draws w

abbrev pub next_call : List Call → Call
next_call [] = prompt_call
next_call (c ∷ cs) = c

abbrev pub later_calls : List Call → List Call
later_calls [] = []
later_calls (c ∷ cs) = cs

-- Postgres keeps microseconds.
abbrev pub micros : ℕ → ℕ
micros t = t / 1000

beat_db : Option ℕ → Bool → ℕ → Db → Db
unfolding heartbeat
beat_db none b t db = db
beat_db (some id) b t db = if b then heartbeat t id db else db

-- The world when a request arrives: time has passed, and a heartbeat may have been written.
unfoldable pub arrive : Call → World → World
unfolding beat_db
arrive c w = record w {
  db = beat_db w.beating c.beat (micros (w.clock + c.elapsed)) w.db;
  clock = w.clock + c.elapsed;
  env = later_calls w.env;
}

unfoldable pub failure : Call → Err
failure c = if c.late then deadline_exceeded else fault c.text

-- How a request ends, from what the server did with it.
unfoldable pub settle_as : {A : Type 0} → Fate → Call → M A → M A
unfolding failure
settle_as delivered c op w = op w
settle_as refused c op w = (err (failure c), w)
settle_as lost c op w = (err (failure c), (op w).1)

-- One request to a server.
unfoldable pub request : {A : Type 0} → (Call → M A) → M A
unfolding arrive settle_as
request op w = let c = next_call w.env in settle_as c.fate c (op c) (arrive c w)

abbrev pub stamp_of : Call → World → Stamp
stamp_of c w = record { now = micros w.clock; uuid = c.uuid; text = c.text; locked = c.locked }

-- A statement of Postgres, run on the tables.
unfoldable pub run_statement : {A : Type 0} → Statement A → Call → M A
run_statement st c w = ((st (stamp_of c w) w.db).0, record w { db = (st (stamp_of c w) w.db).1 })

-- A statement sent through the pool.
unfoldable pub query : {A : Type 0} → Statement A → M A
query st = request (run_statement st)
