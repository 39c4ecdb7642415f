-- ===== src/System/Invariants.antt =====
-- The invariants of the running system.
use processing_platform.Prelude.{
  ℕ, String, ◌≡◌, refl, inr, true, Option, none, some, List, ◌∷◌, str_eq,
}
use processing_platform.World.{Message}
use processing_platform.World.Keeps.{Inv}
use processing_platform.Jobs.State.{state_accepted, state_queued, state_running, is_terminal}
use processing_platform.Store.Rows.{Job}
use processing_platform.Store.Sound.{IsSound}
use processing_platform.Store.Sound.JobStatements
use processing_platform.Store.Sound.OtherStatements
use processing_platform.Store.Sql.Jobs.{coalesce, new_job, set_state, add_attempt, requeued, beaten}
use processing_platform.System.Kept.{Kept, Evidence}
use processing_platform.System.Rows.{Rows, Rows-Kept}
use processing_platform.System.Programs.Base.{no-Evidence}

abbrev pub Sound : Inv
Sound db o = IsSound db

pub Sound-Kept : {u : ℕ → String} → Kept u Sound
Sound-Kept = record {
  by_beat = record { beat = λ t id db o h. JobStatements.heartbeat-IsSound t id db h };
  by_message = λ m db o h. h;
  by_create_job = λ p s db o h. JobStatements.create_job-IsSound p s db h;
  by_update_job_state = λ p s db o ev h. JobStatements.update_job_state-IsSound p s db h;
  by_increment = λ id s db o h. JobStatements.add_attempt-IsSound id s db h;
  by_requeue = λ id s db o h. JobStatements.requeue_job-IsSound id s db h;
  by_create_device = λ id s db o h. OtherStatements.create_device-IsSound id s db h;
  by_touch_device = λ id s db o h. OtherStatements.touch_device-IsSound id s db h;
  by_device_firmware = λ id v s db o h. OtherStatements.update_device_firmware-IsSound id v s db h;
  by_metric = λ p s db o h. OtherStatements.insert_device_metric-IsSound p s db h;
  by_firmware = λ p s db o h. OtherStatements.insert_firmware_attempt-IsSound p s db h;
  by_audit = λ p s db o h. OtherStatements.insert_command_audit-IsSound p s db h;
  by_alert = λ p s db o h. OtherStatements.insert_alert-IsSound p s db h;
}

-- A row in RETRY has its message on a retry topic, a row in FAILED its dead letter.
abbrev pub Backed : (ℕ → String) → Inv
Backed u = Rows (λ o j. Evidence (u j.id) j.state o)

Evidence-more :
    (key state : String) (m : Message) (o : List Message)
    → Evidence key state o
    → Evidence key state (m ∷ o)
Evidence-more key state m o e = record { retry = λ p. inr (e.retry p); dead = λ p. inr (e.dead p) }

pub Backed-Kept : {u : ℕ → String} → Kept u (Backed u)
unfolding new_job set_state add_attempt requeued beaten
Backed-Kept {u} = Rows-Kept (record {
  by_new_job = λ p s o. no-Evidence (u s.uuid) state_accepted o refl refl;
  by_message = λ m o j e. Evidence-more (u j.id) j.state m o e;
  by_beaten = λ t o j e. e;
  by_set_state = λ p t o j ev e. ev;
  by_add_attempt = λ t o j e. e;
  by_requeued = λ t o j e. no-Evidence (u j.id) state_queued o refl refl;
})

-- A row that is RUNNING has its start, and a row that is SUCCESS or FAILED its finish.
pub record IsDated (o : List Message) (j : Job) : Type 0 where
  pub started : str_eq j.state state_running ≡ true → (t : ℕ) × (j.started_at ≡ some t)
  pub finished : is_terminal j.state ≡ true → (t : ℕ) × (j.finished_at ≡ some t)

coalesce-some : (x : Option ℕ) (t : ℕ) → (u : ℕ) × (coalesce x (some t) ≡ some u)
unfolding coalesce
coalesce-some none t = (t, refl)
coalesce-some (some u) t = (u, refl)

pub Dated-Kept : {u : ℕ → String} → Kept u (Rows IsDated)
unfolding new_job set_state add_attempt requeued beaten is_terminal
Dated-Kept {u} = Rows-Kept (record {
  by_new_job = λ p s o. record { started = λ e. cc e; finished = λ e. cc e };
  by_message = λ m o j e. record { started = e.started; finished = e.finished };
  by_beaten = λ t o j e. record { started = e.started; finished = e.finished };
  by_set_state = λ p t o j ev e. record {
    started = λ q. rw q (coalesce-some j.started_at t);
    finished = λ q. (t, rw q refl);
  };
  by_add_attempt = λ t o j e. record { started = e.started; finished = e.finished };
  by_requeued = λ t o j e. record { started = λ q. cc q; finished = λ q. cc q };
})
