-- ===== src/Store/Sql/Stale.antt =====
-- ReapStaleJobs: the RUNNING jobs whose heartbeat is old, oldest first, locked rows skipped.
use processing_platform.Prelude.{
  ℕ, ◌+◌, Bool, true, false, ◌&&◌, not, Option, none, some, List, [], ◌∷◌, ltb, leb, ◌==◌, str_eq,
  if◌then◌else◌, any, filter, take, map,
}
use processing_platform.Failure.{ok}
use processing_platform.Jobs.State.{state_running}
use processing_platform.Store.Rows.{Job, ReapStaleJobsRow}
use processing_platform.Store.Sql.Base.{Statement}

-- `heartbeat_at < NOW() - interval`; a comparison with NULL is not true.
unfoldable pub heartbeat_before : Option ℕ → ℕ → ℕ → Bool
heartbeat_before none interval now = false
heartbeat_before (some h) interval now = ltb (h + interval) now

unfoldable pub stale : ℕ → ℕ → Job → Bool
unfolding heartbeat_before
stale interval now j = str_eq j.state state_running && heartbeat_before j.heartbeat_at interval now

-- ORDER BY heartbeat_at ASC, by insertion; NULL sorts last in Postgres.
unfoldable pub older : Option ℕ → Option ℕ → Bool
older none _ = false
older (some a) none = true
older (some a) (some b) = leb a b

unfoldable pub insert_by_heartbeat : Job → List Job → List Job
unfolding older
insert_by_heartbeat j [] = j ∷ []
insert_by_heartbeat j (k ∷ ks) =
    let rest = k ∷ insert_by_heartbeat j ks in
    if older j.heartbeat_at k.heartbeat_at then j ∷ k ∷ ks else rest

unfoldable pub order_by_heartbeat : List Job → List Job
unfolding insert_by_heartbeat
order_by_heartbeat [] = []
order_by_heartbeat (j ∷ js) = insert_by_heartbeat j (order_by_heartbeat js)

unfoldable pub reap_row : Job → ReapStaleJobsRow
reap_row j = record {
  id = j.id;
  type = j.type;
  tier = j.tier;
  attempts = j.attempts;
  max_attempts = j.max_attempts;
}

unfoldable pub reap_stale_jobs : ℕ → ℕ → Statement (List ReapStaleJobsRow)
unfolding stale order_by_heartbeat reap_row
reap_stale_jobs interval limit s db =
    let found =
      filter (λ j. stale interval s.now j && not (any (λ id. id == j.id) s.locked)) db.jobs in
    (ok (map reap_row (take limit (order_by_heartbeat found))), db)
