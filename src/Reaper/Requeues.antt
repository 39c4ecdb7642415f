-- ===== src/Reaper/Requeues.antt =====
-- cmd/reaper/main.go: what `requeue` does with one row, where every request is delivered at once.
use processing_platform.Prelude.{
  ℕ, ◌+◌, ◌<◌, ◌<>◌, ◌≡◌, ◌⊎◌, refl, ap, sym, subst, ◌∙◌, inl, inr, true, false, none, some, List,
  [], ◌∷◌, ltb, Any, Bool-cases, Option-cases, arith,
}
use processing_platform.Failure.{Err, Result, ok, err, no_rows, violation, int_range}
use processing_platform.World.{World, M, Message, pure, ◌>>=◌}
use processing_platform.World.Calm.{query-calm, calm_stamp, publish-calm, bind-ok}
use processing_platform.Codec.{Codec}
use processing_platform.Kafka.{publish}
use processing_platform.Store.Rows.{Db, Job, ReapStaleJobsRow}
use processing_platform.Store.Sql.Base.{find_job}
use processing_platform.Store.Sql.Jobs
use processing_platform.Store.Sql.Jobs.{update_job, requeued, attempts_fit, int_max}
use processing_platform.Store.Queries.{requeue_job}
use processing_platform.Worker.Stands.{changed, update_job-found, lt-ltb}
use processing_platform.Reaper.{job_message, republish, requeue}

ltb-lt : (a b : ℕ) → ltb a b ≡ true → a < b
ltb-lt a b h = ground arith

bind-err :
    {A B : Type 0} (m : M A) (f : A → M B) (w : World) {e : Err} {w' : World}
    → m w ≡ (err e, w')
    → (m >>= f) w ≡ (err e, w')
unfolding ◌>>=◌
bind-err m f w e = rw e refl

module _ (cx : Codec) where
  -- The brokers hold the announcement of the job.
  abbrev pub Announced : Job → List Message → Type 0
  Announced j o =
      Any
        (λ (m : Message).
          (m.topic ≡ "jobs." <> j.tier) × (m.value ≡ cx.marshal_object (job_message cx j)))
        o

  -- The job has used up its attempts, or is announced.
  abbrev pub Told : Job → List Message → Type 0
  Told j o = (j.max_attempts < j.attempts) ⊎ Announced j o

  -- Nothing is changed, since the row is not there or its counter is full.
  pub record Refused (s : ReapStaleJobsRow) (w w' : World) : Type 0 where
    pub same_db : w'.db ≡ w.db
    pub same_outbox : w'.outbox ≡ w.outbox
    pub full : (k : Job) → find_job s.id w.db ≡ some k → k.attempts < int_max → ⊥

  -- The row is requeued, and told of.
  pub record Requeued (s : ReapStaleJobsRow) (w w' : World) : Type 0 where
    pub time : ℕ
    pub row : Job
    pub found : find_job s.id w.db ≡ some row
    pub new_db : w'.db ≡ changed s.id (requeued time) w.db
    pub told : Told (requeued time row) w'.outbox
    pub grown : (w'.outbox ≡ w.outbox) ⊎ ((m : Message) × (w'.outbox ≡ m ∷ w.outbox))

  pub record Outcome (s : ReapStaleJobsRow) (w : World) : Type 0 where
    pub end : World
    pub result : Result (Unit {0})
    pub ends : requeue cx s w ≡ (result, end)
    pub calm : end.env ≡ []
    pub way : Refused s w end ⊎ Requeued s w end

  module _ (s : ReapStaleJobsRow) (w : World) (calm : w.env ≡ []) where
    refuses :
        (x : Err)
        → Jobs.requeue_job s.id (calm_stamp w) w.db ≡ (err x, w.db)
        → ((k : Job) → find_job s.id w.db ≡ some k → k.attempts < int_max → ⊥)
        → Outcome s w
    unfolding requeue requeue_job
    refuses x e full = record {
      end = w;
      result = err x;
      ends = bind-err _ _ w (
          query-calm (Jobs.requeue_job s.id) w calm
          ∙ ap (λ (r : Result Job × Db). (r.0, record w { db = r.1 })) e);
      calm = calm;
      way = inl (record { same_db = refl; same_outbox = refl; full = full });
    }

    missing : find_job s.id w.db ≡ none → Outcome s w
    unfolding Jobs.requeue_job attempts_fit update_job
    missing e =
        refuses no_rows (rw (e, Jobs.requeue_job, attempts_fit, update_job) refl)
          (λ k f l. cc (e, f))

    -- The counter is full.
    unfit : (k : Job) → find_job s.id w.db ≡ some k → ltb k.attempts int_max ≡ false → Outcome s w
    unfolding Jobs.requeue_job attempts_fit
    unfit k e n =
        refuses (violation int_range (calm_stamp w).text)
          (rw (e, Jobs.requeue_job, attempts_fit, n) refl)
          (λ j f l.
            let q : k ≡ j = cc (e, f) in
            cc (n, lt-ltb k.attempts int_max (subst (λ (x : Job). x.attempts < int_max) (sym q) l)))

    abbrev after_update : World
    after_update = record w { db = changed s.id (requeued (calm_stamp w).now) w.db }

    -- The update goes through.
    updates :
        (k : Job)
        → find_job s.id w.db ≡ some k
        → ltb k.attempts int_max ≡ true
        → requeue_job s.id w ≡ (ok (requeued (calm_stamp w).now k), after_update)
    unfolding requeue_job Jobs.requeue_job attempts_fit
    updates k e fits =
        query-calm (Jobs.requeue_job s.id) w calm
        ∙ rw (Jobs.requeue_job, attempts_fit, e, fits)
            (ap (λ (r : _). (r.0, record w { db = r.1 }))
              (update_job-found s.id (requeued (calm_stamp w).now) w.db k e))

    announces :
        (k : Job)
        → ltb k.max_attempts (k.attempts + 1) ≡ false
        → republish cx (requeued (calm_stamp w).now k) after_update
          ≡ publish
              ("jobs." <> k.tier)
              k.device_id
              (cx.marshal_object (job_message cx k))
              after_update
    unfolding republish requeued job_message
    announces k left = rw left refl

    fit : (k : Job) → find_job s.id w.db ≡ some k → ltb k.attempts int_max ≡ true → Outcome s w
    unfolding requeue republish requeued pure job_message
    fit k e fits =
        let t = (calm_stamp w).now in
        elim (Bool-cases (ltb k.max_attempts (k.attempts + 1))) [
          | inl spent ↦ record {
            end = after_update;
            result = ok tt;
            ends = bind-ok _ _ w (updates k e fits) ∙ rw spent refl;
            calm = calm;
            way = inr (record {
              time = t;
              row = k;
              found = e;
              new_db = refl;
              told = inl (ltb-lt _ _ spent);
              grown = inl refl;
            });
          }
          | inr left ↦ record {
            end = _;
            result = ok tt;
            ends =
                bind-ok _ _ w (updates k e fits)
                ∙ announces k left
                ∙ publish-calm _ _ _ after_update calm;
            calm = calm;
            way = inr (record {
              time = t;
              row = k;
              found = e;
              new_db = refl;
              told = inr (inl (refl, refl));
              grown = inr (_, refl);
            });
          }
        ]

    pub requeue-Outcome : Outcome s w
    requeue-Outcome = elim (Option-cases (find_job s.id w.db)) [
      | inl e ↦ missing e
      | inr (k, e) ↦ elim (Bool-cases (ltb k.attempts int_max)) [
        | inl fits ↦ fit k e fits
        | inr n ↦ unfit k e n
      ]
    ]
