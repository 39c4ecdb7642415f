-- ===== src/Scenarios/Turns.antt =====
-- Single turns of the processes at concrete inputs.
use processing_platform.Prelude.{◌≡◌, ◌≤◌, refl, false, some, List, [], ◌∷◌, All, length}
use processing_platform.Failure.{ok}
use processing_platform.Jobs.State.{state_running}
use processing_platform.World.{pure, now, attempt, ◌>>=◌, request, arrive, settle_as}
use processing_platform.Kafka.{publish, write_messages}
use processing_platform.Store.Rows.{Db, ReapStaleJobsRow}
use processing_platform.Store.Sql.Base.{Stamp}
use processing_platform.Store.Sql.Stale.{reap_stale_jobs}
use processing_platform.Reaper.Scan.{FromOverdue, reap_stale_jobs-Overdue}
use processing_platform.Router.{
  sleep, wait_until, commit_message, read_retry_at, after_republish, republish_due, drain_one,
  parsed_or, unix,
}
use processing_platform.Router.Moves.{drain_one-committed}
use processing_platform.System.Kept.{Sent}
use processing_platform.Scenarios.Texts.{texts, size, unary}
use processing_platform.Scenarios.Plant.{job, tables, world, job_written}

abbrev overdue_tables : Db
overdue_tables = record tables {
  jobs = record job { state = state_running; heartbeat_at = some 5 } ∷ job ∷ [];
}

abbrev stamp : Stamp
stamp = record { now = 90000000; uuid = 0; text = ""; locked = [] }

reap_stale_jobs-Overdue_example :
    (rows : List ReapStaleJobsRow) × (reap_stale_jobs 60000000 50 stamp overdue_tables
      ≡ (ok rows, overdue_tables))
    × (length rows ≤ 50)
    × All (FromOverdue 60000000 90000000 overdue_tables.jobs) rows
reap_stale_jobs-Overdue_example = reap_stale_jobs-Overdue 60000000 50 stamp overdue_tables

drain_one-committed_example :
    let r = drain_one texts "realtime" job_written false world in
    Sent "jobs.realtime" "d1" r.1.outbox
    × (read_retry_at texts world.clock job_written.headers ≤ r.1.clock)
unfolding drain_one now wait_until sleep ◌>>=◌ attempt republish_due publish write_messages request
    arrive settle_as after_republish commit_message pure read_retry_at parsed_or unix size unary
drain_one-committed_example =
    drain_one-committed texts "realtime" job_written false world (ok tt) refl
