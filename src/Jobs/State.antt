-- ===== src/Jobs/State.antt =====
-- internal/jobs/state.go: the states of a job and the table of allowed transitions.
use processing_platform.Prelude.{
  String, Bool, true, false, Option, none, some, List, [], ◌∷◌, if◌then◌else◌, str_eq, ◌||◌,
}

abbrev pub state_accepted : String
state_accepted = "ACCEPTED"

abbrev pub state_queued : String
state_queued = "QUEUED"

abbrev pub state_running : String
state_running = "RUNNING"

abbrev pub state_success : String
state_success = "SUCCESS"

abbrev pub state_failed : String
state_failed = "FAILED"

abbrev pub state_retry : String
state_retry = "RETRY"

-- A Go map literal, read by its keys.
lookup : {V : Type 0} → String → List (String × V) → Option V
lookup k [] = none
lookup k ((j, v) ∷ m) = if str_eq k j then some v else lookup k m

unfoldable pub valid_transitions : List (String × List (String × Bool))
valid_transitions =
    (state_accepted, (state_queued, true) ∷ (state_failed, true) ∷ [])
    ∷ (state_queued, (state_running, true) ∷ (state_failed, true) ∷ [])
    ∷ (state_running, (state_success, true) ∷ (state_failed, true) ∷ (state_retry, true) ∷ [])
    ∷ (state_retry, (state_queued, true) ∷ (state_failed, true) ∷ [])
    ∷ (state_success, [])
    ∷ (state_failed, [])
    ∷ []

pub data TransitionError : Type 0 where
  unknown_source : String → TransitionError
  invalid_transition : String → String → TransitionError

-- A missing key of the inner map reads as `false`.
read_flag : Option Bool → Bool
read_flag none = false
read_flag (some b) = b

allowed : String → Option (List (String × Bool)) → String → Option TransitionError
unfolding lookup read_flag
allowed from none to = some (unknown_source from)
allowed from (some row) to =
    if read_flag (lookup to row) then none else some (invalid_transition from to)

-- `Transition`: `none` is Go's nil error.
unfoldable pub transition : String → String → Option TransitionError
unfolding lookup valid_transitions allowed
transition from to = allowed from (lookup from valid_transitions) to

unfoldable pub is_terminal : String → Bool
is_terminal s = str_eq s state_success || str_eq s state_failed
