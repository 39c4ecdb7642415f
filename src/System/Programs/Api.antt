-- ===== src/System/Programs/Api.antt =====
-- The API keeps what its effects keep, over any server of idempotency keys.
use processing_platform.Prelude.{String, Bool, true, false, Option, none, some}
use processing_platform.Failure.{Result, ok, err}
use processing_platform.World.{World}
use processing_platform.World.Keeps.{Keeps, Triple-bind, Keeps-attempt, Keeps-pure, Keeps-apply}
use processing_platform.Codec.{Codec, SubmitJobRequest}
use processing_platform.Jobs.Types.{valid, tier_for}
use processing_platform.Jobs.Key.{validate_idempotency_key}
use processing_platform.Store.Rows.{Job}
use processing_platform.Api.{
  Acquirer, Response, respond_existing, after_publish, after_create, respond_new, respond_acquired,
  submit_checked, submit_bound, submit_job, lookup_parsed, get_job_response,
}
use processing_platform.System.Kept.{Kept}
use processing_platform.System.Programs.Base.{
  Keeps-publish, Keeps-update, Keeps-create_job, Keeps-get_job, Keeps-get_job_by_idempotency_key,
}
use processing_platform.Prelude.{ℕ, refl, Bool-cases, inl, inr}

module _ (cx : Codec) {P : _} (k : Kept cx.uuid_string P) where
  Keeps-after_publish : (j : Job) (r : Result (Unit {0})) → Keeps P (after_publish cx j r)
  unfolding after_publish
  Keeps-after_publish j (err e) = Keeps-pure P _
  Keeps-after_publish j (ok _) =
      Triple-bind (Keeps-attempt (Keeps-update cx k _ refl refl)) (λ r. Keeps-pure P _)

  Keeps-after_create :
      (req : SubmitJobRequest) (tier : String) (r : Result Job)
      → Keeps P (after_create cx req tier r)
  unfolding after_create
  Keeps-after_create req tier (err e) = Keeps-pure P _
  Keeps-after_create req tier (ok job) =
      Triple-bind (Keeps-attempt (Keeps-publish cx k _ _ _)) (λ r. Keeps-after_publish job r)

  Keeps-respond_new : (req : SubmitJobRequest) (tier : String) → Keeps P (respond_new cx req tier)
  unfolding respond_new
  Keeps-respond_new req tier =
      Triple-bind (Keeps-attempt (Keeps-create_job cx k _)) (λ r. Keeps-after_create req tier r)

  Keeps-respond_existing : (req : SubmitJobRequest) → Keeps P (respond_existing cx req)
  unfolding respond_existing
  Keeps-respond_existing req =
      Triple-bind (Keeps-attempt (Keeps-get_job_by_idempotency_key cx k _ _)) (λ r. Keeps-pure P _)

  Keeps-lookup_parsed : (r : Result ℕ) → Keeps P (lookup_parsed cx r)
  unfolding lookup_parsed
  Keeps-lookup_parsed (err e) = Keeps-pure P _
  Keeps-lookup_parsed (ok id) =
      Triple-bind (Keeps-attempt (Keeps-get_job cx k id)) (λ r. Keeps-pure P _)

  pub Keeps-get_job_response : (id : String) → Keeps P (get_job_response cx id)
  unfolding get_job_response
  Keeps-get_job_response id = Keeps-lookup_parsed (cx.parse_uuid id)

  module _ (acq : Acquirer) where
    Keeps-respond_acquired :
        (req : SubmitJobRequest) (tier : String) (r : Result (ℕ × Bool))
        → Keeps P (respond_acquired cx acq req tier r)
    unfolding respond_acquired
    Keeps-respond_acquired req tier (err e) = Keeps-pure P _
    Keeps-respond_acquired req tier (ok (id, true)) = Keeps-respond_new req tier
    Keeps-respond_acquired req tier (ok (id, false)) = Keeps-respond_existing req

    -- Where a submission leaves the world.
    abbrev Leaves : (Result Response × World) × acq.Server → Type 0
    Leaves r = P r.0.1.db r.0.1.outbox

    submit_checked-Leaves :
        (req : SubmitJobRequest) (tier : Option String) (srv : acq.Server) (w : World)
        → P w.db w.outbox
        → Leaves (submit_checked cx acq req tier srv w)
    unfolding submit_checked
    submit_checked-Leaves req none srv w p = p
    submit_checked-Leaves req (some tier) srv w p =
        Keeps-apply (Keeps-respond_acquired req tier _) w p

    submit_bound-Leaves :
        (r : Result SubmitJobRequest) (srv : acq.Server) (w : World)
        → P w.db w.outbox
        → Leaves (submit_bound cx acq r srv w)
    unfolding submit_bound
    submit_bound-Leaves (err e) srv w p = p
    submit_bound-Leaves (ok req) srv w p = elim (Bool-cases (valid req.type)) [
      | inr n ↦ rw n p
      | inl v ↦ elim (Bool-cases (validate_idempotency_key req.idempotency_key)) [
        | inr n ↦ rw (v, n) p
        | inl f ↦ rw (v, f) (submit_checked-Leaves req (tier_for req.type) srv w p)
      ]
    ]

    pub submit_job-Leaves :
        (body : String) (srv : acq.Server) (w : World)
        → P w.db w.outbox
        → let r = submit_job cx acq body srv w in P r.0.1.db r.0.1.outbox
    unfolding submit_job
    submit_job-Leaves body srv w p = submit_bound-Leaves (cx.bind_submit body) srv w p
