-- ===== src/Submitter/Duplicate.antt =====
-- internal/jobsubmitter/submitter.go: a key and a type have one row.
use processing_platform.Prelude.{
  String, ◌≡◌, refl, ap, ◌∙◌, inl, inr, true, List, [], ◌∷◌, ◌==◌, eq_iff, any, Any, Any-weaken,
  Any-update, map, Bool-cases, arith,
}
use processing_platform.Failure.{Err, Result, ok, err}
use processing_platform.World.{World, Message, ◌>>◌}
use processing_platform.World.Keeps.{
  Any_world, Inv, After, Triple, KeepsBeat, Triple-bind, Triple-wrapping, Triple-weaken, Keeps-lift,
  Keeps-attempt, Keeps-pure,
}
use processing_platform.Codec.{Codec}
use processing_platform.Jobs.Types.{tier_for}
use processing_platform.Store.Rows.{Db, Job, CreateJobParams}
use processing_platform.Store.Sql.Base.{Stamp}
use processing_platform.Store.Sql.Jobs
use processing_platform.Store.Sql.Jobs.{same_key, heartbeat, beaten}
use processing_platform.Store.Queries.{create_job, update_job_state}
use processing_platform.Submitter.{tier_result, job_params, announce, mark_queued, submit}
use processing_platform.System.Kept.{Triple-query, Keeps-query, Triple-publish}
use processing_platform.System.Identity.{identity, HasJob, HasJob-Kept, HasJob-update_job_state}
use processing_platform.Api.Inserted.{IsFresh, create_job-Inserted, Triple-given}
use processing_platform.Api.Once.{Untouched, Untouched-beat}

module _ (key typ : String) where
  -- A row has the key and the type.
  abbrev pub HasKey : Inv
  HasKey db o = Any (λ (j : Job). (j.idempotency_key ≡ key) × (j.type ≡ typ)) db.jobs

  any-same_key :
      (js : List Job)
      → Any (λ (j : Job). (j.idempotency_key ≡ key) × (j.type ≡ typ)) js
      → any (same_key key typ) js ≡ true
  unfolding same_key
  any-same_key [] a = absurd a
  any-same_key (j ∷ js) (inl (k, t)) =
      ground (arith, eq_iff j.idempotency_key key, eq_iff j.type typ, k, t)
  any-same_key (j ∷ js) (inr r) =
      rw (any-same_key js r)
        (elim (Bool-cases (same_key key typ j)) [ inl e ↦ rw e refl | inr e ↦ rw e refl ])

  module _ (w : World) where
    -- The key and the type have a row, and nothing was added since `w`.
    abbrev Taken : Inv
    Taken db o = HasKey db o × Untouched w.outbox (map identity w.db.jobs) db o

    Taken-beat : KeepsBeat Taken
    unfolding heartbeat beaten
    Taken-beat = record {
      beat = λ t id db o p. (
        Any-update (λ (j : Job). (j.idempotency_key ≡ key) × (j.type ≡ typ)) (λ j. j.id == id)
            (beaten t) (λ x q. q) db.jobs p.0,
        (Untouched-beat w.outbox (map identity w.db.jobs)).beat t id db o p.1,
      );
    }

    create_job-Taken :
        (p : CreateJobParams) (s : Stamp) (db : Db) (o : List Message)
        → p.idempotency_key ≡ key
        → p.type ≡ typ
        → Taken db o
        → After (λ _. λ d q. ⊥) Taken (Jobs.create_job p s db).0 (Jobs.create_job p s db).1 o
    unfolding Jobs.create_job
    create_job-Taken p s db o k t h =
        let full : any (same_key p.idempotency_key p.type) db.jobs ≡ true =
          rw (k, t) (any-same_key db.jobs h.0) in
        elim (Bool-cases (any (λ (j : Job). j.id == s.uuid) db.jobs)) [
          | inl e ↦ rw e h
          | inr e ↦ rw (e, full) h
        ]

    submit-Taken :
        (cx : Codec) (device_id payload : String)
        → Triple Taken (submit cx typ device_id key payload) (λ _. λ d q. ⊥) Taken
    unfolding submit create_job job_params
    submit-Taken cx device_id payload =
        Triple-bind (Triple-wrapping "tier" (Keeps-lift Taken (tier_result cx typ (tier_for typ))))
          (λ tier.
            Triple-bind
              (Triple-wrapping "create job" (
                Triple-query (Jobs.create_job (job_params cx typ tier device_id payload key))
                  Taken-beat (λ s db o h. create_job-Taken _ s db o refl refl h) (λ db o h. h)
                  (λ a db o h. absurd h)))
              (λ job. record { at = λ w h. absurd h }))

module _ (cx : Codec) (typ device_id key payload : String) where
  failed :
      (P : Inv) (r : Result (Unit {0})) (db : Db) (o : List Message)
      → After (λ _. λ d q. ⊥) P r db o
      → ((e : Err) × (r ≡ err e)) × P db o
  failed P (ok a) db o h = absurd h
  failed P (err e) db o h = ((e, refl), h)

  -- Where a row has the key and the type, a submission fails, and adds and changes nothing: no
  -- message is sent, no row is added, and no row is changed in what identifies it.
  pub submit-duplicate :
      (w : World)
      → HasKey key typ w.db w.outbox
      → let r = submit cx typ device_id key payload w in
        ((e : Err) × (r.0 ≡ err e)) × Untouched w.outbox (map identity w.db.jobs) r.1.db r.1.outbox
  submit-duplicate w h =
      let r = submit cx typ device_id key payload w in
      let (f, t) = failed (Taken key typ w) r.0 r.1.db r.1.outbox (
        (submit-Taken key typ w cx device_id payload).at w
          (h, record { same_outbox = refl; same_jobs = refl })) in
      (f, t.1)

  HasKey-of_fresh :
      (tier : String) (j : Job) (db : Db) (o : List Message)
      → IsFresh (job_params cx typ tier device_id payload key) j
      → HasJob (identity j) db o
      → HasKey key typ db o
  unfolding job_params
  HasKey-of_fresh tier j db o f h =
      Any-weaken (λ (k : Job). identity k ≡ identity j)
        (λ (k : Job). (k.idempotency_key ≡ key) × (k.type ≡ typ))
        (λ k e. (ap (λ i. i.idempotency_key) e ∙ f.idempotency_key, ap (λ i. i.type) e ∙ f.type))
        db.jobs h

  HasJob-beat : (job : Job) → KeepsBeat (HasJob (identity job))
  HasJob-beat job = (HasJob-Kept (identity job) {u = cx.uuid_string}).by_beat

  announced :
      (tier : String) (job : Job)
      → IsFresh (job_params cx typ tier device_id payload key) job
      → Triple
          (HasJob (identity job))
          (announce cx tier device_id job >> mark_queued cx job)
          (λ _. HasKey key typ)
          Any_world
  unfolding announce mark_queued update_job_state
  announced tier job f =
      Triple-bind
        (Triple-wrapping "publish" (
          Triple-weaken {Q' = λ _. HasJob (identity job)} (λ db o p. p) (λ a db o q. q.0)
            (λ db o e. tt) (Triple-publish (HasJob-beat job) (λ m db o p. p) _ _ _)))
        (λ _.
          Triple-weaken (λ db o p. p) (λ a db o q. HasKey-of_fresh tier job db o f q) (λ db o e. tt)
            (Triple-bind
              (Keeps-attempt (
                Keeps-query (Jobs.update_job_state _) (HasJob-beat job)
                  (λ s db o p. HasJob-update_job_state (identity job) _ s db o p)))
              (λ r. Keeps-pure (HasJob (identity job)) tt)))

  -- A submission that succeeds has left a row with its key and type.
  pub submit-HasKey :
      Triple Any_world (submit cx typ device_id key payload) (λ _. HasKey key typ) Any_world
  unfolding submit create_job
  submit-HasKey =
      Triple-bind
        (Triple-wrapping "tier" (Keeps-lift Any_world (tier_result cx typ (tier_for typ))))
        (λ tier.
          Triple-bind
            (Triple-wrapping "create job" (
              Triple-query (Jobs.create_job (job_params cx typ tier device_id payload key))
                (record { beat = λ t id db o p. p })
                (λ s db o p.
                  create_job-Inserted (job_params cx typ tier device_id payload key) s db o)
                (λ db o p. p) (λ a db o p. tt)))
            (λ job. Triple-given (λ f. announced tier job f)))
