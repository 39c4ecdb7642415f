-- ===== src/Startup/Workers.antt =====
-- cmd/worker-realtime, worker-standard and worker-bulk with internal/worker's `Run`.
use processing_platform.Prelude.{String, ◌≡◌, sym, subst, ◌∙◌, true, some, List, [], ◌∷◌, arith}
use processing_platform.Failure.{Result, ok}
use processing_platform.Codec.{Codec}
use processing_platform.Retry.{Float64}
use processing_platform.Worker.{Config}
use processing_platform.Worker.Loop.{Fetch, cancelled, failed, fetched, Shift, run}
use processing_platform.Worker.Loop.Counts.{ending, run-received}
use processing_platform.Startup.{Resource, Setting, ready}
use processing_platform.Startup.Commands.{worker, main}
use processing_platform.Startup.Needs.{can_start}
use processing_platform.Startup.Balance.{openings, closings, count}
use processing_platform.Startup.Releases.{main-releases}

ending-ok :
    (fs : List Fetch) (served : Result (Unit {0})) → ending fs ≡ some served → served ≡ ok tt
unfolding ending
ending-ok [] served e = cc e
ending-ok (cancelled ∷ fs) served e = cc e
ending-ok (failed ∷ fs) served e = ending-ok fs served e
ending-ok (fetched m ∷ fs) served e = ending-ok fs served e

main-closes :
    (cfg : Setting)
    → can_start cfg worker ≡ true
    → let m = main cfg worker (ok tt) in
      (m.0 ≡ ready tt) × ((r : Resource) → openings r m.1.acts ≡ closings r m.1.acts)
unfolding count
main-closes cfg can =
    let (back, closed) = main-releases cfg worker can in (back, λ r. omega (arith, closed r))

-- A worker that has started never exits with 1: whatever it fetches and whatever becomes of it, when
-- `worker.Run` comes back, `main` returns, and has closed each resource as often as it opened it.
pub main-run :
    (cx : Codec) (fp : Float64) (peek : String → String × String) (w : Config) (fs : List Fetch)
    (s : Shift) (cfg : Setting) (served : Result (Unit {0}))
    → can_start cfg worker ≡ true
    → (run cx fp peek w fs s).0 ≡ some served
    → let m = main cfg worker served in
      (m.0 ≡ ready tt) × ((r : Resource) → openings r m.1.acts ≡ closings r m.1.acts)
main-run cx fp peek w fs s cfg served can back =
    let good : served ≡ ok tt =
      ending-ok fs served (sym (run-received cx fp peek w fs s).0 ∙ back) in
    subst
      (λ o.
        let m = main cfg worker o in
        (m.0 ≡ ready tt) × ((r : Resource) → openings r m.1.acts ≡ closings r m.1.acts))
      (sym good) (main-closes cfg can)
