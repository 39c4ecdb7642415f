-- ===== src/World/Calm.antt =====
-- A world in which every request is delivered at once: what each effect does there.
use processing_platform.Prelude.{
  ℕ, ◌+◌, String, ◌≡◌, refl, sym, ap, ◌∙◌, false, Option, none, some, [], ◌∷◌, ◌++◌, arith,
}
use processing_platform.Failure.{Result, ok}
use processing_platform.World.{
  World, M, Message, Call, prompt_call, ◌>>=◌, attempt, wrapping, beat_db, next_call, later_calls,
  arrive, settle_as, request, stamp_of, run_statement, query, micros,
}
use processing_platform.Kafka.{append, write_messages, publish, publish_with_header, inject}
use processing_platform.Store.Rows.{Db}
use processing_platform.Store.Sql.Base.{Stamp, Statement}

beat-calm : (o : Option ℕ) (t : ℕ) (db : Db) → beat_db o false t db ≡ db
unfolding beat_db
beat-calm none t db = refl
beat-calm (some id) t db = refl

-- No time passes and no heartbeat is written.
arrive-calm : (w : World) → w.env ≡ [] → arrive prompt_call w ≡ w
unfolding arrive
arrive-calm w e =
    let clock_path : w.clock + 0 ≡ w.clock = omega arith in
    let env_path : later_calls w.env ≡ w.env = ap later_calls e ∙ sym e in
    λ i. record w {
      db = beat-calm w.beating (micros (w.clock + 0)) w.db i;
      clock = clock_path i;
      env = env_path i;
    }

pub request-calm :
    {A : Type 0} (op : Call → M A) (w : World) → w.env ≡ [] → request op w ≡ op prompt_call w
unfolding request settle_as
request-calm op w e =
    let call_path : next_call w.env ≡ prompt_call = ap next_call e in
    ap (λ c. settle_as c.fate c (op c) (arrive c w)) call_path
    ∙ ap (op prompt_call) (arrive-calm w e)

abbrev pub calm_stamp : World → Stamp
calm_stamp w = stamp_of prompt_call w

pub query-calm :
    {A : Type 0} (st : Statement A) (w : World)
    → w.env ≡ []
    → query st w ≡ ((st (calm_stamp w) w.db).0, record w { db = (st (calm_stamp w) w.db).1 })
unfolding query run_statement
query-calm st w e = request-calm (run_statement st) w e

write-calm :
    (m : Message) (w : World)
    → w.env ≡ []
    → write_messages m w ≡ (ok tt, record w { outbox = m ∷ w.outbox })
unfolding write_messages
write-calm m w e = request-calm (λ _. append m) w e

pub publish-calm :
    (topic key value : String) (w : World)
    → w.env ≡ []
    → publish topic key value w ≡ (
      ok tt,
      record w {
        outbox =
            record { topic = topic; key = key; value = value; headers = inject w.trace [] }
            ∷ w.outbox;
      },
    )
unfolding publish
publish-calm topic key value w e = write-calm _ w e

pub publish_with_header-calm :
    (topic key value hk hv : String) (w : World)
    → w.env ≡ []
    → publish_with_header topic key value hk hv w ≡ (
      ok tt,
      record w {
        outbox =
            record {
              topic = topic;
              key = key;
              value = value;
              headers = inject w.trace [] ++ (hk, hv) ∷ [];
            }
            ∷ w.outbox;
      },
    )
unfolding publish_with_header
publish_with_header-calm topic key value hk hv w e = write-calm _ w e

-- A bind steps through a result that is known.
pub bind-ok :
    {A B : Type 0} (m : M A) (f : A → M B) (w : World) {a : A} {w' : World}
    → m w ≡ (ok a, w')
    → (m >>= f) w ≡ f a w'
unfolding ◌>>=◌
bind-ok m f w e = rw e refl

pub bind-attempt :
    {A B : Type 0} (m : M A) (f : Result A → M B) (w : World) {r : Result A} {w' : World}
    → m w ≡ (r, w')
    → (attempt m >>= f) w ≡ f r w'
unfolding ◌>>=◌ attempt
bind-attempt m f w e = rw e refl

pub wrapping-ok :
    {A : Type 0} (context : String) (m : M A) (w : World) {a : A} {w' : World}
    → m w ≡ (ok a, w')
    → wrapping context m w ≡ (ok a, w')
unfolding wrapping
wrapping-ok context m w e = rw e refl

-- The first request draws this uuid, and then the world is calm.
pub request-first :
    {A : Type 0} (u : ℕ) (op : Call → M A) (w : World)
    → w.env ≡ record prompt_call { uuid = u } ∷ []
    → request op w ≡ op (record prompt_call { uuid = u }) (record w { env = [] })
unfolding request settle_as arrive
request-first u op w e =
    let c : Call = record prompt_call { uuid = u } in
    let call_path : next_call w.env ≡ c = ap next_call e in
    let clock_path : w.clock + 0 ≡ w.clock = omega arith in
    let env_path : later_calls w.env ≡ [] = ap later_calls e in
    ap (λ d. settle_as d.fate d (op d) (arrive d w)) call_path
    ∙ ap (op c) (λ i. record w {
      db = beat-calm w.beating (micros (w.clock + 0)) w.db i;
      clock = clock_path i;
      env = env_path i;
    })

pub query-first :
    {A : Type 0} (u : ℕ) (st : Statement A) (w : World)
    → w.env ≡ record prompt_call { uuid = u } ∷ []
    → query st w ≡ (
        let s = stamp_of (record prompt_call { uuid = u }) w in
        ((st s w.db).0, record w { db = (st s w.db).1; env = [] }))
unfolding query run_statement
query-first u st w e = request-first u (run_statement st) w e
