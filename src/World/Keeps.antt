-- ===== src/World/Keeps.antt =====
-- Triples over actions, whatever the servers answer: a precondition, what holds after a result and
-- what holds after an error. The conditions speak of the tables and of what the brokers hold, so
-- the clock, the answers to come and the heartbeat goroutine are left to the environment.
use processing_platform.Prelude.{
  ℕ, ◌+◌, String, Bool, true, false, if◌then◌else◌, Option, none, some, List, [], ◌∷◌,
}
use processing_platform.Failure.{Err, Result, ok, err}
use processing_platform.Store.Rows.{Db}
use processing_platform.Store.Sql.Jobs.{heartbeat}
use processing_platform.World.{
  World, M, Message, Call, Fate, delivered, refused, lost, ◌>>=◌, bind_result, attempt, wrapping,
  wrapping_result, draw, take_draw, beat_db, micros, next_call, arrive, settle_as, request, pure,
  raise, lift, now,
}

abbrev pub Inv : Type 1
Inv = Db → List Message → Type 0

-- Nothing is asked of the world.
abbrev pub Any_world : Inv
Any_world db o = Unit

-- What holds after a result `ok a`, or after an error.
abbrev pub After : {A : Type 0} → (A → Inv) → Inv → Result A → Inv
After Q E (ok a) = Q a
After Q E (err e) = E

pub record Triple {A : Type 0} (P : Inv) (m : M A) (Q : A → Inv) (E : Inv) : Type 0 where
  pub at : (w : World) → P w.db w.outbox → After Q E (m w).0 (m w).1.db (m w).1.outbox

-- What holds before still holds after, with a result or an error.
abbrev pub Keeps : {A : Type 0} → Inv → M A → Type 0
Keeps P m = Triple P m (λ _. P) P

-- A heartbeat that is written at any moment keeps P.
pub record KeepsBeat (P : Inv) : Type 0 where
  pub beat :
      (t id : ℕ) (db : Db) (outbox : List Message) → P db outbox → P (heartbeat t id db) outbox

After-bind :
    {A B : Type 0} (Q : A → Inv) (E : Inv) (S : B → Inv) (f : A → M B)
    → ((a : A) → Triple (Q a) (f a) S E)
    → (r : Result A) (w : World) → After Q E r w.db w.outbox
    → let (r', w') = bind_result (r, w) f in After S E r' w'.db w'.outbox
After-bind Q E S f h (ok a) w q = (h a).at w q
After-bind Q E S f h (err e) w q = q

After-wrapping :
    {A : Type 0} (Q : A → Inv) (E : Inv) (context : String) (r : Result A) (w : World)
    → After Q E r w.db w.outbox
    → let (r', w') = wrapping_result context (r, w) in After Q E r' w'.db w'.outbox
After-wrapping Q E context (ok a) w q = q
After-wrapping Q E context (err e) w q = q

After-weaken :
    {A : Type 0} (Q Q' : A → Inv) (E E' : Inv)
    → ((a : A) (db : Db) (o : List Message) → Q a db o → Q' a db o)
    → ((db : Db) (o : List Message) → E db o → E' db o)
    → (r : Result A) (db : Db) (o : List Message) → After Q E r db o
    → After Q' E' r db o
After-weaken Q Q' E E' q e (ok a) db o h = q a db o h
After-weaken Q Q' E E' q e (err x) db o h = e db o h

-- A lost answer: whatever the server did, its condition implies the error condition.
After-lost :
    {A : Type 0} (Q : A → Inv) (E : Inv)
    → ((a : A) (db : Db) (o : List Message) → Q a db o → E db o)
    → (r : Result A) (db : Db) (o : List Message) → After Q E r db o
    → E db o
After-lost Q E qe (ok a) db o h = qe a db o h
After-lost Q E qe (err x) db o h = h

After-draw :
    (P : Inv) (ds : List ℕ) (w : World)
    → P w.db w.outbox
    → let (r, w') = take_draw ds w in After {A = ℕ} (λ _. P) P r w'.db w'.outbox
After-draw P [] w p = p
After-draw P (d ∷ ds) w p = p

pub Triple-bind :
    {A B : Type 0} {P E : Inv} {Q : A → Inv} {S : B → Inv} {m : M A} {f : A → M B}
    → Triple P m Q E
    → ((a : A) → Triple (Q a) (f a) S E)
    → Triple P (m >>= f) S E
unfolding ◌>>=◌
Triple-bind {E} {Q} {S} {m} {f} t h = record {
  at = λ w p. After-bind Q E S f h (m w).0 (m w).1 (t.at w p);
}

pub Triple-wrapping :
    {A : Type 0} {P E : Inv} {Q : A → Inv} {m : M A} (context : String)
    → Triple P m Q E
    → Triple P (wrapping context m) Q E
unfolding wrapping
Triple-wrapping {E} {Q} {m} context t = record {
  at = λ w p. After-wrapping Q E context (m w).0 (m w).1 (t.at w p);
}

pub Triple-attempt :
    {A : Type 0} {P E S : Inv} {Q : A → Inv} {m : M A}
    → Triple P m Q E
    → Triple P (attempt m) (After Q E) S
unfolding attempt
Triple-attempt t = record { at = t.at }

-- With one condition throughout, `attempt` forgets which of the two it was.
pub Keeps-attempt : {A : Type 0} {P : Inv} {m : M A} → Keeps P m → Keeps P (attempt m)
unfolding attempt
Keeps-attempt {A} {P} {m} t = record {
  at = λ w p. After-lost (λ _. P) P (λ a db o q. q) (m w).0 _ _ (t.at w p);
}

pub Triple-weaken :
    {A : Type 0} {P P' E E' : Inv} {Q Q' : A → Inv} {m : M A}
    → ((db : Db) (o : List Message) → P' db o → P db o)
    → ((a : A) (db : Db) (o : List Message) → Q a db o → Q' a db o)
    → ((db : Db) (o : List Message) → E db o → E' db o)
    → Triple P m Q E
    → Triple P' m Q' E'
Triple-weaken {E} {E'} {Q} {Q'} {m} p q e t = record {
  at = λ w h. After-weaken Q Q' E E' q e (m w).0 _ _ (t.at w (p _ _ h));
}

pub Keeps-draw : (P : Inv) → Keeps P draw
unfolding draw
Keeps-draw P = record { at = λ w p. After-draw P w.draws w p }

pub Keeps-pure : {A : Type 0} (P : Inv) (a : A) → Keeps P (pure a)
unfolding pure
Keeps-pure P a = record { at = λ w p. p }

pub Keeps-now : (P : Inv) → Keeps P now
unfolding now
Keeps-now P = record { at = λ w p. p }

pub Triple-raise :
    {A : Type 0} {P E : Inv} {Q : A → Inv} (e : Err)
    → ((db : Db) (o : List Message) → P db o → E db o)
    → Triple P (raise {A = A} e) Q E
unfolding raise
Triple-raise e pe = record { at = λ w p. pe _ _ p }

After-lift :
    {A : Type 0} (P : Inv) (r : Result A) (db : Db) (o : List Message)
    → P db o
    → After (λ _. P) P r db o
After-lift P (ok a) db o p = p
After-lift P (err e) db o p = p

pub Keeps-lift : {A : Type 0} (P : Inv) (r : Result A) → Keeps P (lift r)
unfolding lift
Keeps-lift P r = record { at = λ w p. After-lift P r _ _ p }

arrive-Inv :
    (P : Inv)
    → KeepsBeat P
    → (c : Call) (w : World) → P w.db w.outbox
    → P (arrive c w).db (arrive c w).outbox
unfolding arrive
arrive-Inv P k c w p = go w.beating c.beat
  where
    go : (o : Option ℕ) (b : Bool) → P (beat_db o b (micros (w.clock + c.elapsed)) w.db) w.outbox
    go none b = p
    go (some id) true = k.beat _ id _ _ p
    go (some id) false = p

module _ {A : Type 0} (P : Inv) (Q : A → Inv) (E : Inv) (c : Call) (op : M A) where
  -- The request takes effect or not, and its answer may be lost: the error condition must follow
  -- from both conditions.
  After-settle :
      Triple P op Q E
      → ((db : Db) (o : List Message) → P db o → E db o)
      → ((a : A) (db : Db) (o : List Message) → Q a db o → E db o)
      → (f : Fate) (w : World) → P w.db w.outbox
      → let (r, w') = settle_as f c op w in After Q E r w'.db w'.outbox
  unfolding settle_as
  After-settle t pe qe delivered w p = t.at w p
  After-settle t pe qe refused w p = pe _ _ p
  After-settle t pe qe lost w p = After-lost Q E qe _ _ _ (t.at w p)

pub Triple-request :
    {A : Type 0} {P E : Inv} {Q : A → Inv} (op : Call → M A)
    → KeepsBeat P
    → ((c : Call) → Triple P (op c) Q E)
    → ((db : Db) (o : List Message) → P db o → E db o)
    → ((a : A) (db : Db) (o : List Message) → Q a db o → E db o)
    → Triple P (request op) Q E
unfolding request
Triple-request {P} {E} {Q} op beat t pe qe = record {
  at = λ w p.
      let c = next_call w.env in
      After-settle P Q E c (op c) (t c) pe qe c.fate (arrive c w) (arrive-Inv P beat c w p);
}

pub Keeps-if :
    {A : Type 0} {P : Inv} {m n : M A} (b : Bool)
    → Keeps P m
    → Keeps P n
    → Keeps P (if b then m else n)
Keeps-if true x y = x
Keeps-if false x y = y

-- What is kept holds of the world that the action leaves.
pub Keeps-apply :
    {A : Type 0} {P : Inv} {m : M A}
    → Keeps P m
    → (w : World) → P w.db w.outbox
    → P (m w).1.db (m w).1.outbox
Keeps-apply {P} {m} t w p = After-lost (λ _. P) P (λ a db o q. q) (m w).0 _ _ (t.at w p)
