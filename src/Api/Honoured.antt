-- ===== src/Api/Honoured.antt =====
-- cmd/api/main.go: what a 202 of POST /jobs promises.
use processing_platform.Prelude.{
  String, ◌≡◌, refl, ap, subst, inl, inr, arith, Option, none, some, List, Bool-cases,
}
use processing_platform.Failure.{Result, ok, err}
use processing_platform.World.{World, Message}
use processing_platform.World.Keeps.{Any_world, Inv, After}
use processing_platform.Jobs.Types.{valid, tier_for}
use processing_platform.Jobs.Key.{validate_idempotency_key}
use processing_platform.Codec.{Codec, SubmitJobRequest}
use processing_platform.Store.Rows.{Db}
use processing_platform.Api.{
  Acquirer, Response, Body, reply, submit_checked, submit_bound, submit_job,
}
use processing_platform.Api.Accepted.{Granted, Promises, Promises-respond_acquired}

Promises-result :
    (P : Response → Inv) (r : Result Response) (db : Db) (o : List Message) (resp : Response)
    → After P Any_world r db o
    → r ≡ ok resp
    → P resp db o
Promises-result P (err e) db o resp h q = cc q
Promises-result P (ok x) db o resp h q = let p : x ≡ resp = cc q in subst (λ z. P z db o) p h

pub bad_request : (x : Body) (resp : Response) → ok (reply 400 x) ≡ ok resp → resp.status ≡ 202 → ⊥
bad_request x resp e s =
    let p : reply 400 x ≡ resp = cc e in
    let q : 400 ≡ resp.status = ap (λ z. z.status) p in omega (arith, q, s)

module _ (cx : Codec) (acq : Acquirer) where
  -- What stands behind an accepted submission.
  abbrev pub Honoured : String → Response → Inv
  Honoured body resp db o =
      (req : SubmitJobRequest) × (tier : String) × (cx.bind_submit body ≡ ok req)
      × (tier_for req.type ≡ some tier)
      × Granted cx req tier resp db o

  Honoured-checked :
      (body : String) (req : SubmitJobRequest) (t : Option String) (srv : acq.Server) (w : World)
      (resp : Response)
      → cx.bind_submit body ≡ ok req
      → tier_for req.type ≡ t
      → let r = submit_checked cx acq req t srv w in
        r.0.0 ≡ ok resp → resp.status ≡ 202 → Honoured body resp r.0.1.db r.0.1.outbox
  unfolding submit_checked
  Honoured-checked body req none srv w resp b t e s = absurd (bad_request _ resp e s)
  Honoured-checked body req (some tier) srv w resp b t e s = (
    req,
    tier,
    b,
    t,
    Promises-result (Promises cx req tier) _ _ _ resp
        ((Promises-respond_acquired cx req tier acq (acq.acquire req.idempotency_key srv).0).at w
          tt)
        e s,
  )

  Honoured-bound :
      (body : String) (b : Result SubmitJobRequest) (srv : acq.Server) (w : World) (resp : Response)
      → cx.bind_submit body ≡ b
      → let r = submit_bound cx acq b srv w in
        r.0.0 ≡ ok resp → resp.status ≡ 202 → Honoured body resp r.0.1.db r.0.1.outbox
  unfolding submit_bound
  Honoured-bound body (err x) srv w resp b e s = absurd (bad_request _ resp e s)
  Honoured-bound body (ok req) srv w resp b e s = elim (Bool-cases (valid req.type)) [
    | inr n ↦ absurd (bad_request _ resp (rw n at e) s)
    | inl v ↦ elim (Bool-cases (validate_idempotency_key req.idempotency_key)) [
      | inr n ↦ absurd (bad_request _ resp (rw (v, n) at e) s)
      | inl f ↦
          rw (v, f)
            (Honoured-checked body req (tier_for req.type) srv w resp b refl (rw (v, f) at e) s)
    ]
  ]

  -- Whatever the faults: after a 202, the body was a request of a type with a tier, the table has a
  -- fresh row for it with the id of the answer, type, tier, device, key and three attempts as asked
  -- and the payload as a jsonb column keeps it, and the message that announces this row, its value
  -- included, is on the topic of the tier unless the answer says ACCEPTED.
  pub submit_job-Honoured :
      (body : String) (srv : acq.Server) (w : World) (resp : Response)
      → let r = submit_job cx acq body srv w in
        r.0.0 ≡ ok resp → resp.status ≡ 202 → Honoured body resp r.0.1.db r.0.1.outbox
  unfolding submit_job
  submit_job-Honoured body srv w resp e s =
      Honoured-bound body (cx.bind_submit body) srv w resp refl e s
