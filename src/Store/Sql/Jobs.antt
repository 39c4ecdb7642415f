-- ===== src/Store/Sql/Jobs.antt =====
-- The statements on `jobs`, but for the reaper's scan.
use processing_platform.Prelude.{
  ℕ, ◌+◌, String, Bool, true, ◌&&◌, ◌||◌, Option, none, some, ◌∷◌, ltb, ◌==◌, str_eq, if◌then◌else◌,
  find, any, update,
}
use processing_platform.Failure.{
  Result, ok, err, violation, no_rows, primary_key, unique_key, foreign_key, check_constraint,
  int_range,
}
use processing_platform.Jobs.State.{
  state_accepted, state_queued, state_running, state_success, state_failed, state_retry,
}
use processing_platform.Store.Rows.{Db, Job, CreateJobParams, UpdateJobStateParams}
use processing_platform.Store.Sql.Base.{Stamp, Statement, has_device, find_job}

-- CHECK (state IN ('ACCEPTED','QUEUED','RUNNING','SUCCESS','FAILED','RETRY')).
unfoldable pub state_check : String → Bool
state_check s =
    str_eq s state_accepted
    || str_eq s state_queued
    || str_eq s state_running
    || str_eq s state_success
    || str_eq s state_failed
    || str_eq s state_retry

-- The row that INSERT returns; the parameters' payload is what the jsonb column keeps already.
unfoldable pub new_job : CreateJobParams → Stamp → Job
new_job p s = record {
  id = s.uuid;
  type = p.type;
  tier = p.tier;
  device_id = p.device_id;
  state = state_accepted;
  payload = p.payload;
  idempotency_key = p.idempotency_key;
  attempts = 0;
  max_attempts = p.max_attempts;
  last_error = none;
  heartbeat_at = none;
  started_at = none;
  finished_at = none;
  created_at = s.now;
  updated_at = s.now;
}

-- The unique index on (idempotency_key, type).
unfoldable pub same_key : String → String → Job → Bool
same_key key type j = str_eq j.idempotency_key key && str_eq j.type type

-- INSERT INTO jobs: the primary key, the unique index and the reference to devices are checked.
unfoldable pub create_job : CreateJobParams → Statement Job
unfolding new_job same_key has_device find_job
create_job p s db =
    if any (λ j. j.id == s.uuid) db.jobs
    then (err (violation primary_key s.text), db)
    else if any (same_key p.idempotency_key p.type) db.jobs
    then (err (violation unique_key s.text), db)
    else if has_device p.device_id db
    then (ok (new_job p s), record db { jobs = new_job p s ∷ db.jobs })
    else (err (violation foreign_key s.text), db)

abbrev pub returning : Option Job → Db → Result Job × Db
returning none db = (err no_rows, db)
returning (some j) db = (ok j, db)

unfoldable pub get_job : ℕ → Statement Job
unfolding find_job
get_job id s db = returning (find_job id db) db

unfoldable pub get_job_by_idempotency_key : String → String → Statement Job
unfolding same_key
get_job_by_idempotency_key key type s db = returning (find (same_key key type) db.jobs) db

-- UPDATE jobs SET … WHERE id = … RETURNING …
unfoldable pub update_job : ℕ → (Job → Job) → Db → Result Job × Db
unfolding find_job
update_job id f db = elim (find_job id db) [
  | none ↦ (err no_rows, db)
  | some j ↦ (ok (f j), record db { jobs = update (λ k. k.id == id) f db.jobs })
]

unfoldable pub coalesce : {A : Type 0} → Option A → Option A → Option A
coalesce none y = y
coalesce (some x) y = some x

-- The SET list of UpdateJobState.
unfoldable pub set_state : UpdateJobStateParams → ℕ → Job → Job
unfolding coalesce
set_state p now j = record j {
  state = p.state;
  updated_at = now;
  started_at = coalesce j.started_at (if str_eq p.state state_running then some now else none);
  finished_at =
      if str_eq p.state state_success || str_eq p.state state_failed
      then some now
      else j.finished_at;
  last_error = coalesce p.last_error j.last_error;
}

-- The CHECK is violated only where a row is updated.
unfoldable pub update_job_state : UpdateJobStateParams → Statement Job
unfolding set_state update_job state_check
update_job_state p s db =
    if state_check p.state
    then update_job p.id (set_state p s.now) db
    else elim (find_job p.id db) [
      | none ↦ (err no_rows, db)
      | some _ ↦ (err (violation check_constraint s.text), db)
    ]

-- `attempts + 1` in an INT column: out of range is an error of the statement.
abbrev pub int_max : ℕ
int_max = 2147483647

unfoldable pub attempts_fit : ℕ → Db → Bool
attempts_fit id db = elim (find_job id db) [ none ↦ true | some j ↦ ltb j.attempts int_max ]

unfoldable pub add_attempt : ℕ → Job → Job
add_attempt now j = record j { attempts = j.attempts + 1; updated_at = now }

unfoldable pub increment_job_attempts : ℕ → Statement Job
unfolding add_attempt update_job attempts_fit
increment_job_attempts id s db =
    if attempts_fit id db
    then update_job id (add_attempt s.now) db
    else (err (violation int_range s.text), db)

-- The SET list of RequeueJob.
unfoldable pub requeued : ℕ → Job → Job
requeued now j = record j {
  state = state_queued;
  attempts = j.attempts + 1;
  heartbeat_at = none;
  started_at = none;
  updated_at = now;
}

unfoldable pub requeue_job : ℕ → Statement Job
unfolding requeued update_job attempts_fit
requeue_job id s db =
    if attempts_fit id db
    then update_job id (requeued s.now) db
    else (err (violation int_range s.text), db)

unfoldable pub beaten : ℕ → Job → Job
beaten now j = record j { heartbeat_at = some now }

-- The worker's UPDATE jobs SET heartbeat_at = NOW() WHERE id = …
unfoldable pub heartbeat : ℕ → ℕ → Db → Db
unfolding beaten
heartbeat now id db = record db { jobs = update (λ j. j.id == id) (beaten now) db.jobs }
