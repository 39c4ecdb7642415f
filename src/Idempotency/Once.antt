-- ===== src/Idempotency/Once.antt =====
-- cmd/api/main.go over internal/idempotency: two submissions with one key.
use processing_platform.Prelude.{◌+◌, ◌<◌, String, ◌≡◌, ◌∙◌, sym, subst, ap, map, true}
use processing_platform.Failure.{ok}
use processing_platform.World.{World}
use processing_platform.Codec.{Codec, SubmitJobRequest}
use processing_platform.Api.{Response, submit_job}
use processing_platform.Api.Once.{Untouched, submit_job-Won, submit_job-Same}
use processing_platform.Idempotency.{Redis, Claims, ttl, acquire, redis_acquirer}
use processing_platform.Idempotency.Claims.{Later, acquire-once}
use processing_platform.System.Identity.{identity}

module _ (cx : Codec) (rd : Redis) where
  -- After a submission that was answered 202, another one with the same key, whatever its type and
  -- whatever other clients did between the two, that ends within a day of the first one's start
  -- sends no message and adds no row, and changes no row in what identifies it.
  pub submit_job-once :
      (body body' : String) (req req' : SubmitJobRequest) (srv srv' : Claims cx rd) (w w' : World)
      (resp : Response)
      → cx.bind_submit body ≡ ok req
      → cx.bind_submit body' ≡ ok req'
      → req'.idempotency_key ≡ req.idempotency_key
      → let first = submit_job cx (redis_acquirer cx rd) body srv w in
        let second = submit_job cx (redis_acquirer cx rd) body' srv' w' in
        first.0.0 ≡ ok resp
        → resp.status ≡ 202
        → Later rd first.1.1 srv'.1
        → rd.time second.1.1 < rd.time srv.1 + ttl
        → Untouched w'.outbox (map identity w'.db.jobs) second.0.1.db second.0.1.outbox
  submit_job-once body body' req req' srv srv' w w' resp b b' same e s between soon =
      let acq = redis_acquirer cx rd in
      let (r, id, c, claim, left) = submit_job-Won cx acq body srv w resp e s in
      let p : r ≡ req = cc (c, b) in
      let key = r.idempotency_key in
      let k : req'.idempotency_key ≡ key =
        same ∙ ap (λ (x : SubmitJobRequest). x.idempotency_key) (sym p) in
      submit_job-Same cx acq body' req' srv' w' b' (λ at_claim id' again.
        let left' = at_claim ∙ ap (λ j. (acquire cx rd j srv').1) k in
        let no =
          acquire-once rd cx key srv srv' id id' true claim
            (subst (λ (x : Claims cx rd). Later rd x.1 srv'.1) left between)
            (subst (λ (x : Claims cx rd). rd.time x.1 < rd.time srv.1 + ttl) left' soon)
            (subst (λ j. (acquire cx rd j srv').0 ≡ ok (id', true)) k again) in
        cc no.0)
