-- ===== src/Scenarios.antt =====
-- Runs of the whole system at concrete inputs.
mod Texts
mod Floats
mod Plant
mod Turns
mod Answers
mod Keys
mod Lags
mod Deliveries
mod Devices
mod Starts
mod Rounds
mod Signals
use processing_platform.Prelude.{
  ℕ, String, ◌≡◌, ◌≢◌, ◌↔◌, refl, true, none, some, List, [], ◌∷◌, All, Any, inl, ◌≤◌, ◌*◌, ◌/◌,
  ◌^◌, str_eq, if◌then◌else◌, arith,
}
use processing_platform.Jobs.State.{
  state_running, state_success, state_retry, state_failed, invalid_transition, transition,
  is_terminal,
}
use processing_platform.Jobs.Types.{type_remote_command, valid, tier_for}
use processing_platform.Jobs.Graph.{Edge, transition-is_terminal, transition-Edge}
use processing_platform.Jobs.Tiers.{IsTier, tier_for-valid}
use processing_platform.Retry.{second, delay}
use processing_platform.Retry.Bounds.{delay_bounds}
use processing_platform.Kafka.{get, set}
use processing_platform.Kafka.Headers.{get-set}
use processing_platform.Store.Rows.{Job}
use processing_platform.Store.Sound.{IsSound}
use processing_platform.System.Kept.{Evidence}
use processing_platform.System.Identity.{identity}
use processing_platform.System.Invariants.{IsDated}
use processing_platform.System.Run.{run}
use processing_platform.System.Reach.{run-IsSound, run-Evidence, run-IsDated, run-HasJob}
use processing_platform.Scenarios.Texts.{texts}
use processing_platform.Scenarios.Floats.{halves}
use processing_platform.Scenarios.Plant.{
  counter, job, system, events, tables-IsSound, jobs-Evidence, jobs-IsDated,
}

run-IsSound_example : IsSound (run texts halves counter events system).world.db
run-IsSound_example = run-IsSound texts halves counter events system tables-IsSound

run-Evidence_example :
    let s' = run texts halves counter events system in
    All (λ (j : Job). Evidence (texts.uuid_string j.id) j.state s'.world.outbox) s'.world.db.jobs
run-Evidence_example = run-Evidence texts halves counter events system jobs-Evidence

run-IsDated_example :
    let s' = run texts halves counter events system in
    All (IsDated s'.world.outbox) s'.world.db.jobs
run-IsDated_example = run-IsDated texts halves counter events system jobs-IsDated

run-HasJob_example :
    Any
      (λ (j : Job). identity j ≡ identity job)
      (run texts halves counter events system).world.db.jobs
run-HasJob_example = run-HasJob texts halves counter events system (identity job) (inl refl)

transition-Edge_example :
    (transition state_running state_retry ≡ none) ↔ Edge state_running state_retry
transition-Edge_example = transition-Edge state_running state_retry

transition-is_terminal_example :
    transition state_success state_retry ≡ some (invalid_transition state_success state_retry)
unfolding is_terminal
transition-is_terminal_example = transition-is_terminal state_success state_retry refl

tier_for-valid_example :
    (valid type_remote_command ≡ true
      → (tier : String) × (tier_for type_remote_command ≡ some tier) × IsTier tier)
    × ((tier : String)
        → tier_for type_remote_command ≡ some tier
        → valid type_remote_command ≡ true)
tier_for-valid_example = tier_for-valid type_remote_command

delay_bounds_example :
    (5 ^ 2 * second / 2 ≤ delay halves 3 1) × (delay halves 3 1 ≤ 5 ^ 2 * second * 3 / 2)
delay_bounds_example = delay_bounds halves 2 1 (omega arith) (omega arith)

get-set_example :
    get (set "traceparent" "01" (("a", "b") ∷ [])) "a"
    ≡ (if str_eq "traceparent" "a" then "01" else get (("a", "b") ∷ []) "a")
get-set_example = get-set "traceparent" "01" "a" (("a", "b") ∷ [])
