-- ===== src/Jobs/Graph.antt =====
-- What the transition table of internal/jobs/state.go allows.
use processing_platform.Prelude.{
  String, ◌≡◌, refl, sym, ◌↔◌, inl, inr, subst, true, false, none, some, eq_iff, str_eq, Bool-cases,
}
use processing_platform.Jobs.State.{
  state_accepted, state_queued, state_running, state_success, state_failed, state_retry,
  unknown_source, invalid_transition, transition, is_terminal,
}

-- The states that can go straight to FAILED.
pub data MayFail : String → Type 0 where
  accepted_fails : {s : String} → s ≡ state_accepted → MayFail s
  queued_fails : {s : String} → s ≡ state_queued → MayFail s
  running_fails : {s : String} → s ≡ state_running → MayFail s
  retry_fails : {s : String} → s ≡ state_retry → MayFail s

-- The diagram of the state machine.
pub data Edge : String → String → Type 0 where
  publish : {s t : String} → s ≡ state_accepted → t ≡ state_queued → Edge s t
  start : {s t : String} → s ≡ state_queued → t ≡ state_running → Edge s t
  finish : {s t : String} → s ≡ state_running → t ≡ state_success → Edge s t
  backoff : {s t : String} → s ≡ state_running → t ≡ state_retry → Edge s t
  again : {s t : String} → s ≡ state_retry → t ≡ state_queued → Edge s t
  fail : {s t : String} → MayFail s → t ≡ state_failed → Edge s t

-- From SUCCESS and FAILED every transition is rejected, with the error that names both states.
pub transition-is_terminal :
    (s t : String) → is_terminal s ≡ true → transition s t ≡ some (invalid_transition s t)
unfolding transition is_terminal
transition-is_terminal s t h = elim (Bool-cases (str_eq s state_success)) [
  | inl e ↦ rw ((eq_iff _ _).0 e) refl
  | inr n ↦ rw ((eq_iff _ _).0 (rw n at h)) refl
]

MayFail-transition : {s : String} → MayFail s → transition s state_failed ≡ none
unfolding transition
MayFail-transition (accepted_fails p) = rw p refl
MayFail-transition (queued_fails p) = rw p refl
MayFail-transition (running_fails p) = rw p refl
MayFail-transition (retry_fails p) = rw p refl

Edge-transition : {s t : String} → Edge s t → transition s t ≡ none
unfolding transition
Edge-transition (publish p q) = rw (p, q) refl
Edge-transition (start p q) = rw (p, q) refl
Edge-transition (finish p q) = rw (p, q) refl
Edge-transition (backoff p q) = rw (p, q) refl
Edge-transition (again p q) = rw (p, q) refl
Edge-transition (fail m q) = rw q (MayFail-transition m)

from_accepted : (t : String) → transition state_accepted t ≡ none → Edge state_accepted t
unfolding transition
from_accepted t h = elim (Bool-cases (str_eq t state_queued)) [
  | inl e ↦ publish refl ((eq_iff _ _).0 e)
  | inr n ↦ elim (Bool-cases (str_eq t state_failed)) [
    | inl e ↦ fail (accepted_fails refl) ((eq_iff _ _).0 e)
    | inr n₁ ↦ cc (rw (n, n₁) at h)
  ]
]

from_queued : (t : String) → transition state_queued t ≡ none → Edge state_queued t
unfolding transition
from_queued t h = elim (Bool-cases (str_eq t state_running)) [
  | inl e ↦ start refl ((eq_iff _ _).0 e)
  | inr n ↦ elim (Bool-cases (str_eq t state_failed)) [
    | inl e ↦ fail (queued_fails refl) ((eq_iff _ _).0 e)
    | inr n₁ ↦ cc (rw (n, n₁) at h)
  ]
]

from_running : (t : String) → transition state_running t ≡ none → Edge state_running t
unfolding transition
from_running t h = elim (Bool-cases (str_eq t state_success)) [
  | inl e ↦ finish refl ((eq_iff _ _).0 e)
  | inr n ↦ elim (Bool-cases (str_eq t state_failed)) [
    | inl e ↦ fail (running_fails refl) ((eq_iff _ _).0 e)
    | inr n₁ ↦ elim (Bool-cases (str_eq t state_retry)) [
      | inl e ↦ backoff refl ((eq_iff _ _).0 e)
      | inr n₂ ↦ cc (rw (n, n₁, n₂) at h)
    ]
  ]
]

from_retry : (t : String) → transition state_retry t ≡ none → Edge state_retry t
unfolding transition
from_retry t h = elim (Bool-cases (str_eq t state_queued)) [
  | inl e ↦ again refl ((eq_iff _ _).0 e)
  | inr n ↦ elim (Bool-cases (str_eq t state_failed)) [
    | inl e ↦ fail (retry_fails refl) ((eq_iff _ _).0 e)
    | inr n₁ ↦ cc (rw (n, n₁) at h)
  ]
]

-- The rows by a computed test on the source.
along :
    (c : String)
    → ((t : String) → transition c t ≡ none → Edge c t)
    → (s t : String) → str_eq s c ≡ true
    → transition s t ≡ none
    → Edge s t
along c row s t e h = let p = (eq_iff s c).0 e in subst (λ x. Edge x t) (sym p) (row t (rw p at h))

from_unknown :
    (s t : String)
    → str_eq s state_accepted ≡ false
    → str_eq s state_queued ≡ false
    → str_eq s state_running ≡ false
    → str_eq s state_retry ≡ false
    → is_terminal s ≡ false
    → transition s t ≡ some (unknown_source s)
unfolding transition is_terminal
from_unknown s t n n₁ n₂ n₃ m = elim (Bool-cases (str_eq s state_success)) [
  | inl e ↦ cc (rw e at m)
  | inr p ↦ elim (Bool-cases (str_eq s state_failed)) [
    | inl e ↦ cc (rw (p, e) at m)
    | inr q ↦ rw (n, n₁, n₂, n₃, p, q) refl
  ]
]

-- `Transition` returns nil exactly along the edges of the diagram, for any two strings.
pub transition-Edge : (s t : String) → (transition s t ≡ none) ↔ Edge s t
transition-Edge s t = (forth, Edge-transition)
  where
    forth : transition s t ≡ none → Edge s t
    forth h = elim (Bool-cases (str_eq s state_accepted)) [
      | inl e ↦ along state_accepted from_accepted s t e h
      | inr n ↦ elim (Bool-cases (str_eq s state_queued)) [
        | inl e ↦ along state_queued from_queued s t e h
        | inr n₁ ↦ elim (Bool-cases (str_eq s state_running)) [
          | inl e ↦ along state_running from_running s t e h
          | inr n₂ ↦ elim (Bool-cases (str_eq s state_retry)) [
            | inl e ↦ along state_retry from_retry s t e h
            | inr n₃ ↦ elim (Bool-cases (is_terminal s)) [
              | inl m ↦ cc (transition-is_terminal s t m)
              | inr m ↦ cc (from_unknown s t n n₁ n₂ n₃ m)
            ]
          ]
        ]
      ]
    ]
