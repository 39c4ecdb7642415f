-- ===== src/System/Programs/Base.antt =====
-- The requests that the programs share, and the submitter and the clients of the handlers.
use processing_platform.Prelude.{ℕ, String, ◌≡◌, refl, sym, subst, false, List, str_eq, eq_iff}
use processing_platform.Failure.{Result, ok, err}
use processing_platform.Jobs.Types.{tier_for}
use processing_platform.Jobs.State.{state_retry, state_failed}
use processing_platform.World.{Message, query, run_statement, stamp_of}
use processing_platform.World.Keeps.{
  Inv, Triple, Keeps, After, Triple-bind, Triple-wrapping, Keeps-attempt, Keeps-pure, Keeps-lift,
  Triple-weaken, Triple-request,
}
use processing_platform.Kafka.{publish}
use processing_platform.Codec.{Codec}
use processing_platform.Store.Sql.Jobs
use processing_platform.Store.Sql.Reads.{db-get_job, db-get_job_by_idempotency_key}
use processing_platform.Store.Rows.{Db, CreateJobParams, UpdateJobStateParams}
use processing_platform.Store.Queries.{
  create_job, get_job, get_job_by_idempotency_key, update_job_state,
}
use processing_platform.Submitter.{tier_result, announce, mark_queued, submit}
use processing_platform.Clients
use processing_platform.Wiring.{wired}
use processing_platform.System.Kept.{Kept, Keeps-query, Triple-publish, Evidence, With}
use processing_platform.System.Programs.Handlers.{DepsKeep}

pub differ : (a b : String) → str_eq a b ≡ false → ¬ (a ≡ b)
differ a b n e = cc (n, (eq_iff a b).1 e)

-- No evidence is wanted for the other states.
pub no-Evidence :
    (key state : String) (o : List Message)
    → str_eq state state_retry ≡ false
    → str_eq state state_failed ≡ false
    → Evidence key state o
no-Evidence key state o r f = record {
  retry = λ e. absurd (differ _ _ r e);
  dead = λ e. absurd (differ _ _ f e);
}

After-const :
    {A : Type 0} (P : Inv) (r : Result A) (db : Db) (o : List Message)
    → P db o
    → After (λ _. P) P r db o
After-const P (ok a) db o p = p
After-const P (err e) db o p = p

module _ (cx : Codec) {P : Inv} (k : Kept cx.uuid_string P) where
  -- A publication keeps P, sent or not.
  pub Keeps-publish : (t key v : String) → Keeps P (publish t key v)
  Keeps-publish t key v =
      Triple-weaken (λ db o p. p) (λ a db o p. p.0) (λ db o p. p)
        (Triple-publish k.by_beat k.by_message t key v)

  -- An update of the state keeps P where its evidence is there.
  pub Triple-update :
      (p : UpdateJobStateParams) (R : List Message → Type 0)
      → ((o : List Message) → R o → Evidence (cx.uuid_string p.id) p.state o)
      → Triple (With P R) (update_job_state p) (λ _. P) P
  unfolding update_job_state query run_statement
  Triple-update p R ev =
      Triple-request (run_statement (Jobs.update_job_state p))
        (record { beat = λ t id db o q. (k.by_beat.beat t id db o q.0, q.1) })
        (λ c. record {
          at = λ w q.
              After-const P _ _ _
                (k.by_update_job_state p (stamp_of c w) w.db w.outbox (ev _ q.1) q.0);
        })
        (λ db o q. q.0) (λ a db o q. q)

  pub Keeps-update :
      (p : UpdateJobStateParams)
      → str_eq p.state state_retry ≡ false
      → str_eq p.state state_failed ≡ false
      → Keeps P (update_job_state p)
  Keeps-update p r f =
      Triple-weaken (λ db o q. (q, tt)) (λ a db o q. q) (λ db o q. q)
        (Triple-update p (λ _. Unit {0}) (λ o _. no-Evidence _ _ o r f))

  pub Keeps-get_job : (id : ℕ) → Keeps P (get_job id)
  unfolding get_job
  Keeps-get_job id =
      Keeps-query _ k.by_beat (λ s db o p. subst (λ d. P d o) (sym (db-get_job id s db)) p)

  pub Keeps-get_job_by_idempotency_key :
      (key type : String) → Keeps P (get_job_by_idempotency_key key type)
  unfolding get_job_by_idempotency_key
  Keeps-get_job_by_idempotency_key key type =
      Keeps-query _ k.by_beat
        (λ s db o p. subst (λ d. P d o) (sym (db-get_job_by_idempotency_key key type s db)) p)

  pub Keeps-create_job : (p : CreateJobParams) → Keeps P (create_job p)
  unfolding create_job
  Keeps-create_job p = Keeps-query _ k.by_beat (k.by_create_job p)

  pub Keeps-submit : (t d key p : String) → Keeps P (submit cx t d key p)
  unfolding submit announce mark_queued
  Keeps-submit t d key p =
      Triple-bind (Triple-wrapping _ (Keeps-lift P (tier_result cx t (tier_for t)))) λ tier.
        Triple-bind (Triple-wrapping _ (Keeps-create_job _)) λ job.
          Triple-bind (Triple-wrapping _ (Keeps-publish _ _ _))
            λ _. Triple-bind (Keeps-attempt (Keeps-update _ refl refl)) λ _. Keeps-pure P tt

  Keeps-post : (context path body : String) → Keeps P (Clients.post cx context path body)
  unfolding Clients.post Clients.answer
  Keeps-post context path body =
      Triple-request (Clients.answer cx context path body) k.by_beat
        (λ c. record { at = λ w p. After-const P _ _ _ p }) (λ db o p. p) (λ a db o p. p)

  Keeps-get_health : (d : String) → Keeps P (Clients.get_health cx d)
  unfolding Clients.get_health
  Keeps-get_health d = Triple-bind (Keeps-post _ _ _) (λ b. Keeps-lift P (cx.unmarshal_health b))

  Keeps-push_firmware : (d v : String) → Keeps P (Clients.push_firmware cx d v)
  unfolding Clients.push_firmware
  Keeps-push_firmware d v = Triple-bind (Keeps-post _ _ _) (λ b. Keeps-pure P tt)

  Keeps-post_alert : (s m p : String) → Keeps P (Clients.post_alert cx s m p)
  unfolding Clients.post_alert
  Keeps-post_alert s m p = Triple-bind (Keeps-post _ _ _) (λ b. Keeps-pure P tt)

  -- The dependencies of the handlers, as the workers wire them.
  pub wired-DepsKeep : DepsKeep P (wired cx)
  unfolding Clients.send_command
  wired-DepsKeep = record {
    send_command = λ d c a. Keeps-post _ _ _;
    get_health = Keeps-get_health;
    push_firmware = Keeps-push_firmware;
    post_alert = Keeps-post_alert;
    submit = Keeps-submit;
  }
