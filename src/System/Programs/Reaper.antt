-- ===== src/System/Programs/Reaper.antt =====
-- The reaper and the retry router keep what their effects keep.
use processing_platform.Prelude.{ℕ, String, sym, subst, Bool, true, false, List, [], ◌∷◌, ltb}
use processing_platform.Failure.{Result, ok, err}
use processing_platform.World.{Message}
use processing_platform.World.Keeps.{
  Keeps, Triple-bind, Keeps-attempt, Keeps-pure, Keeps-now, Keeps-if, Triple-request,
}
use processing_platform.Codec.{Codec}
use processing_platform.Store.Rows.{Job, ReapStaleJobsRow}
use processing_platform.Store.Sql.Reads.{db-reap_stale_jobs}
use processing_platform.Store.Queries.{requeue_job, reap_stale_jobs}
use processing_platform.Reaper.{republish, requeue, requeue_all, scan_once}
use processing_platform.Router.{
  sleep, wait_until, commit_message, after_republish, republish_due, drain_one,
}
use processing_platform.System.Kept.{Kept, Keeps-query}
use processing_platform.System.Programs.Base.{Keeps-publish}

module _ (cx : Codec) {P : _} (k : Kept cx.uuid_string P) where
  Keeps-republish : (j : Job) → Keeps P (republish cx j)
  unfolding republish
  Keeps-republish j =
      Keeps-if (ltb j.max_attempts j.attempts) (Keeps-pure P tt) (Keeps-publish cx k _ _ _)

  Keeps-requeue : (s : ReapStaleJobsRow) → Keeps P (requeue cx s)
  unfolding requeue requeue_job
  Keeps-requeue s =
      Triple-bind (Keeps-query _ k.by_beat (k.by_requeue s.id)) (λ job. Keeps-republish job)

  Keeps-requeue_all : (rows : List ReapStaleJobsRow) → Keeps P (requeue_all cx rows)
  unfolding requeue_all
  Keeps-requeue_all [] = Keeps-pure P tt
  Keeps-requeue_all (s ∷ rest) =
      Triple-bind (Keeps-attempt (Keeps-requeue s)) (λ _. Keeps-requeue_all rest)

  pub Keeps-scan_once : Keeps P (scan_once cx)
  unfolding scan_once reap_stale_jobs
  Keeps-scan_once =
      Triple-bind
        (Keeps-query _ k.by_beat
          (λ s db o p. subst (λ d. P d o) (sym (db-reap_stale_jobs _ _ s db)) p))
        (λ rows. Keeps-requeue_all rows)

  Keeps-sleep : (b cancel : Bool) (at : ℕ) → Keeps P (sleep b cancel at)
  unfolding sleep
  Keeps-sleep false cancel at = record { at = λ w p. p }
  Keeps-sleep true true at = record { at = λ w p. p }
  Keeps-sleep true false at = record { at = λ w p. p }

  Keeps-wait_until : (at : ℕ) (cancel : Bool) → Keeps P (wait_until at cancel)
  unfolding wait_until
  Keeps-wait_until at cancel = record {
    at = λ w p. (Keeps-sleep (ltb w.clock at) cancel at).at w p;
  }

  Keeps-after_republish : (r : Result (Unit {0})) → Keeps P (after_republish cx r)
  unfolding after_republish commit_message
  Keeps-after_republish (err e) = Keeps-pure P _
  Keeps-after_republish (ok _) =
      Triple-bind
        (Keeps-attempt
          (Triple-request _ k.by_beat (λ c. Keeps-pure P tt) (λ db o p. p) (λ a db o p. p)))
        (λ r. Keeps-pure P _)

  Keeps-republish_due :
      (tier : String) (msg : Message) (due : Bool) → Keeps P (republish_due cx tier msg due)
  unfolding republish_due
  Keeps-republish_due tier msg false = Keeps-pure P _
  Keeps-republish_due tier msg true =
      Triple-bind (Keeps-attempt (Keeps-publish cx k _ _ _)) (λ r. Keeps-after_republish r)

  pub Keeps-drain_one :
      (tier : String) (msg : Message) (cancel : Bool) → Keeps P (drain_one cx tier msg cancel)
  unfolding drain_one
  Keeps-drain_one tier msg cancel =
      Triple-bind (Keeps-now P)
        λ t. Triple-bind (Keeps-wait_until _ cancel) λ due. Keeps-republish_due tier msg due
