-- ===== src/Store/Sql/Reads.antt =====
-- The queries leave the tables as they are.
use processing_platform.Prelude.{ℕ, String, ◌≡◌, refl, Option, none, some, find}
use processing_platform.Store.Rows.{Db, Job}
use processing_platform.Store.Sql.Base.{Stamp, find_job}
use processing_platform.Store.Sql.Jobs.{returning, get_job, same_key, get_job_by_idempotency_key}
use processing_platform.Store.Sql.Stale.{reap_stale_jobs}

db-returning : (o : Option Job) (db : Db) → (returning o db).1 ≡ db
db-returning none db = refl
db-returning (some j) db = refl

pub db-get_job : (id : ℕ) (s : Stamp) (db : Db) → (get_job id s db).1 ≡ db
unfolding get_job
db-get_job id s db = db-returning (find_job id db) db

pub db-get_job_by_idempotency_key :
    (key type : String) (s : Stamp) (db : Db) → (get_job_by_idempotency_key key type s db).1 ≡ db
unfolding get_job_by_idempotency_key
db-get_job_by_idempotency_key key type s db = db-returning (find (same_key key type) db.jobs) db

pub db-reap_stale_jobs :
    (interval limit : ℕ) (s : Stamp) (db : Db) → (reap_stale_jobs interval limit s db).1 ≡ db
unfolding reap_stale_jobs
db-reap_stale_jobs interval limit s db = refl
