-- ===== src/Api/Once.antt =====
-- cmd/api/main.go with internal/idempotency: a key creates one job.
use processing_platform.Prelude.{
  ℕ, String, ◌≡◌, ◌≢◌, ◌∙◌, refl, sym, subst, ap, inl, inr, Bool, true, false, Option, none, some,
  List, ◌==◌, map, map-update, arith, Bool-cases,
}
use processing_platform.Failure.{Result, ok, err}
use processing_platform.World.{World, Message, pure, attempt, ◌>>=◌}
use processing_platform.World.Keeps.{
  Keeps, KeepsBeat, Triple-bind, Keeps-attempt, Keeps-pure, Keeps-apply,
}
use processing_platform.Codec.{Codec, SubmitJobRequest}
use processing_platform.Jobs.Types.{valid, tier_for}
use processing_platform.Jobs.Key.{validate_idempotency_key}
use processing_platform.Store.Rows.{Db, Job}
use processing_platform.Store.Sql.Jobs.{heartbeat, beaten}
use processing_platform.Store.Sql.Reads.{db-get_job_by_idempotency_key}
use processing_platform.Store.Queries.{get_job_by_idempotency_key}
use processing_platform.Api.{
  Acquirer, Response, internal, existing_response, respond_existing, respond_acquired,
  submit_checked, submit_bound, submit_job,
}
use processing_platform.Api.Honoured.{bad_request}
use processing_platform.System.Kept.{Keeps-query}
use processing_platform.System.Identity.{Identity, identity}

-- No message and no row was added, and no row was changed in what identifies it.
pub record Untouched (o : List Message) (js : List Identity) (db : Db) (o' : List Message)
    : Type 0 where
  pub same_outbox : o' ≡ o
  pub same_jobs : map identity db.jobs ≡ js

pub Untouched-beat : (o : List Message) (js : List Identity) → KeepsBeat (Untouched o js)
unfolding heartbeat beaten
Untouched-beat o js = record {
  beat = λ t id db q u. record {
    same_outbox = u.same_outbox;
    same_jobs =
        rw (map-update identity (λ j. j.id == id) (beaten t) (λ x. refl) db.jobs) u.same_jobs;
  };
}

module _ (cx : Codec) (acq : Acquirer) where
  other-status : (r resp : Response) → ok r ≡ ok resp → r.status ≢ 202 → ¬ (resp.status ≡ 202)
  other-status r resp q n s = let p : r ≡ resp = cc q in n (ap (λ (x : Response). x.status) p ∙ s)

  existing-status : (r : Result Job) → (existing_response cx r).status ≢ 202
  unfolding existing_response
  existing-status (err e) = λ q. omega (arith, q)
  existing-status (ok j) = λ q. omega (arith, q)

  -- A 202 comes from a claim that won.
  won :
      (req : SubmitJobRequest) (tier : String) (c : Result (ℕ × Bool)) (w : World) (resp : Response)
      → (respond_acquired cx acq req tier c w).0 ≡ ok resp
      → resp.status ≡ 202
      → (id : ℕ) × (c ≡ ok (id, true))
  unfolding respond_acquired respond_existing pure attempt ◌>>=◌
  won req tier (err e) w resp q s = absurd (other-status internal resp q (λ z. omega (arith, z)) s)
  won req tier (ok (id, true)) w resp q s = (id, refl)
  won req tier (ok (id, false)) w resp q s =
      let r = (get_job_by_idempotency_key req.idempotency_key req.type w).0 in
      absurd (other-status (existing_response cx r) resp q (existing-status r) s)

  -- What is left of a submission whose key is not won.
  lost-Untouched :
      (req : SubmitJobRequest) (tier : String) (c : Result (ℕ × Bool)) (o : List Message)
      (js : List Identity)
      → ((id : ℕ) → c ≢ ok (id, true))
      → Keeps (Untouched o js) (respond_acquired cx acq req tier c)
  unfolding respond_acquired respond_existing get_job_by_idempotency_key
  lost-Untouched req tier (err e) o js n = Keeps-pure _ _
  lost-Untouched req tier (ok (id, true)) o js n = absurd (n id refl)
  lost-Untouched req tier (ok (id, false)) o js n =
      Triple-bind
        (Keeps-attempt (
          Keeps-query _ (Untouched-beat o js) (λ s db q u.
            subst (λ d. Untouched o js d q) (sym (db-get_job_by_idempotency_key _ _ s db)) u)))
        (λ r. Keeps-pure _ _)

  -- What a submission that is answered 202 did first.
  abbrev Won : String → acq.Server → (Result Response × World) × acq.Server → Type 0
  Won body srv r =
      (req : SubmitJobRequest) × (id : ℕ) × (cx.bind_submit body ≡ ok req)
      × ((acq.acquire req.idempotency_key srv).0 ≡ ok (id, true))
      × (r.1 ≡ (acq.acquire req.idempotency_key srv).1)

  Won-checked :
      (body : String) (req : SubmitJobRequest) (t : Option String) (srv : acq.Server) (w : World)
      (resp : Response)
      → cx.bind_submit body ≡ ok req
      → let r = submit_checked cx acq req t srv w in
        r.0.0 ≡ ok resp → resp.status ≡ 202 → Won body srv r
  unfolding submit_checked
  Won-checked body req none srv w resp b e s = absurd (bad_request _ resp e s)
  Won-checked body req (some tier) srv w resp b e s =
      let (id, c) = won req tier (acq.acquire req.idempotency_key srv).0 w resp e s in
      (req, id, b, c, refl)

  Won-bound :
      (body : String) (b : Result SubmitJobRequest) (srv : acq.Server) (w : World) (resp : Response)
      → cx.bind_submit body ≡ b
      → let r = submit_bound cx acq b srv w in r.0.0 ≡ ok resp → resp.status ≡ 202 → Won body srv r
  unfolding submit_bound
  Won-bound body (err x) srv w resp b e s = absurd (bad_request _ resp e s)
  Won-bound body (ok req) srv w resp b e s = elim (Bool-cases (valid req.type)) [
    | inr n ↦ absurd (bad_request _ resp (rw n at e) s)
    | inl v ↦ elim (Bool-cases (validate_idempotency_key req.idempotency_key)) [
      | inr n ↦ absurd (bad_request _ resp (rw (v, n) at e) s)
      | inl f ↦ rw (v, f) (Won-checked body req (tier_for req.type) srv w resp b (rw (v, f) at e) s)
    ]
  ]

  pub submit_job-Won :
      (body : String) (srv : acq.Server) (w : World) (resp : Response)
      → let r = submit_job cx acq body srv w in r.0.0 ≡ ok resp → resp.status ≡ 202 → Won body srv r
  unfolding submit_job
  submit_job-Won body srv w resp e s = Won-bound body (cx.bind_submit body) srv w resp refl e s

  abbrev Same : World → (Result Response × World) × acq.Server → Type 0
  Same w r = Untouched w.outbox (map identity w.db.jobs) r.0.1.db r.0.1.outbox

  Untouched-self : (w : World) → Untouched w.outbox (map identity w.db.jobs) w.db w.outbox
  Untouched-self w = record { same_outbox = refl; same_jobs = refl }

  Same-checked :
      (req : SubmitJobRequest) (t : Option String) (srv : acq.Server) (w : World)
      → ((submit_checked cx acq req t srv w).1 ≡ (acq.acquire req.idempotency_key srv).1
          → (id : ℕ) → (acq.acquire req.idempotency_key srv).0 ≢ ok (id, true))
      → Same w (submit_checked cx acq req t srv w)
  unfolding submit_checked
  Same-checked req none srv w n = Untouched-self w
  Same-checked req (some tier) srv w n =
      Keeps-apply
        (lost-Untouched req tier (acq.acquire req.idempotency_key srv).0 w.outbox
          (map identity w.db.jobs) (n refl))
        w (Untouched-self w)

  -- A submission that does not win its key leaves messages and rows alone. The premise may use
  -- that the server is the one that the claim left.
  pub submit_job-Same :
      (body : String) (req : SubmitJobRequest) (srv : acq.Server) (w : World)
      → cx.bind_submit body ≡ ok req
      → ((submit_job cx acq body srv w).1 ≡ (acq.acquire req.idempotency_key srv).1
          → (id : ℕ) → (acq.acquire req.idempotency_key srv).0 ≢ ok (id, true))
      → Same w (submit_job cx acq body srv w)
  unfolding submit_job submit_bound
  submit_job-Same body req srv w b n = elim (Bool-cases (valid req.type)) [
    | inr x ↦ rw (b, submit_bound, x) (Untouched-self w)
    | inl v ↦ elim (Bool-cases (validate_idempotency_key req.idempotency_key)) [
      | inr x ↦ rw (b, submit_bound, v, x) (Untouched-self w)
      | inl f ↦
          rw (b, submit_bound, v, f)
            (Same-checked req (tier_for req.type) srv w (rw (b, submit_bound, v, f) at n))
    ]
  ]
