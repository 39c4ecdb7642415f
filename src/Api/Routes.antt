-- ===== src/Api/Routes.antt =====
-- cmd/api/main.go: the route POST /jobs behind the back-pressure middleware.
use processing_platform.Prelude.{ℕ, String, ◌≡◌, ◌⊎◌, refl, inl, inr, Option-cases}
use processing_platform.Failure.{Result}
use processing_platform.World.{World}
use processing_platform.Codec.{Codec, ℤ}
use processing_platform.GoMap.{GoMap}
use processing_platform.LagCache.{LagCache}
use processing_platform.LagCache.Gate.{HttpRequest, Overload, overloaded, backpressure}
use processing_platform.LagCache.Limits.{Overloads, overloaded-Overloads}
use processing_platform.Api.{Acquirer, Response, submit_job}

-- `stopped` has the status, the header Retry-After and the body.
pub data Answer : Type 0 where
  stopped : ℕ → String → Overload → Answer
  answered : Result Response → Answer

abbrev pub post_request : String → HttpRequest
post_request body = record { method = "POST"; full_path = "/jobs"; body = body }

module _ (cx : Codec) (acq : Acquirer) (decode_type : String → Result String) (cache : LagCache)
    (thresholds : GoMap ℤ) where
  abbrev pub Outcome : Type 0
  Outcome = (Answer × World) × acq.Server

  abbrev pub passed : (Result Response × World) × acq.Server → Outcome
  passed ((r, w), srv) = ((answered r, w), srv)

  abbrev pub refused : acq.Server → World → Overload → Outcome
  refused srv w o = ((stopped 503 "5" o, w), srv)

  unfoldable pub post_jobs : String → acq.Server → World → Outcome
  post_jobs body srv w =
      backpressure decode_type cache thresholds (refused srv w)
        (λ req. passed (submit_job cx acq req.body srv w)) (post_request body)

  -- A submission that overloads its tier is answered 503 with Retry-After 5, the tier, its lag and
  -- its threshold, and changes nothing; any other is answered as by `submitJob` alone, with the
  -- same body.
  pub post_jobs-Overloads :
      (body : String) (srv : acq.Server) (w : World)
      → ((o : Overload) × Overloads decode_type cache thresholds (post_request body) o
          × (post_jobs body srv w ≡ refused srv w o))
        ⊎ (((o : Overload) → ¬ Overloads decode_type cache thresholds (post_request body) o)
            × (post_jobs body srv w ≡ passed (submit_job cx acq body srv w)))
  unfolding post_jobs backpressure
  post_jobs-Overloads body srv w =
      let req = post_request body in
      elim (Option-cases (overloaded decode_type cache thresholds req)) [
        | inl n ↦ inr (
          (λ o v. cc (n, (overloaded-Overloads decode_type cache thresholds req o).1 v)),
          rw (n, backpressure) refl,
        )
        | inr (o, e) ↦ inl (
          o,
          (overloaded-Overloads decode_type cache thresholds req o).0 e,
          rw (e, backpressure) refl,
        )
      ]
