-- ===== src/DevSim/Active.antt =====
-- What a device leaves in the metrics.
use processing_platform.Prelude.{
  ℕ, zero, suc, ◌+◌, String, ◌≡◌, refl, ap, ◌∙◌, inl, inr, arith, true, false, ◌&&◌, List, [], ◌∷◌,
  length, ltb, if◌then◌else◌, Bool-cases, Option-cases,
}
use processing_platform.Codec.{ℤ, pos, negsuc}
use processing_platform.DevSim.{
  Token, Turn, Sim, Flow, goes_on, returned, panicked, token_failed, succ_ℤ, pred_ℤ, inc, dec,
  jitter, publish, turn_waited, loop, when_goes_on, deferred, run_device,
}

-- Where a device is after some turns.
data Place : Type 0 where
  on_line stopped stopped_offline : Place

place : List Turn → Place
place [] = on_line
place (t ∷ ts) =
    let rest = place ts in
    if t.done then stopped else if t.offline && t.done_offline then stopped_offline else rest

-- The gauge, from what it was before the device started.
gauge_at : Place → ℤ → ℤ
gauge_at on_line n = succ_ℤ n
gauge_at stopped n = n
gauge_at stopped_offline n = pred_ℤ n

-- The gauge of a device that connects: `gauge_at` the place where its turns leave it.
pub expected_active : List Turn → ℤ → ℤ
unfolding place gauge_at
expected_active ts n = gauge_at (place ts) n

pred_ℤ-succ_ℤ : (n : ℤ) → pred_ℤ (succ_ℤ n) ≡ n
pred_ℤ-succ_ℤ (pos n) = refl
pred_ℤ-succ_ℤ (negsuc zero) = refl
pred_ℤ-succ_ℤ (negsuc (suc n)) = refl

succ_ℤ-pred_ℤ : (n : ℤ) → succ_ℤ (pred_ℤ n) ≡ n
succ_ℤ-pred_ℤ (pos zero) = refl
succ_ℤ-pred_ℤ (pos (suc n)) = refl
succ_ℤ-pred_ℤ (negsuc n) = refl

-- A publication leaves the gauge alone, and counts what it handed over.
publish-active :
    (device_id : String) (t : Turn) (s : Sim)
    → (publish device_id t s).devices_active ≡ s.devices_active
unfolding publish
publish-active device_id t s = elim (Bool-cases (token_failed t.token)) [
  | inl e ↦ rw e refl
  | inr e ↦ rw e refl
]

Counted : Sim → Type 0
Counted s = length s.handed ≡ s.published_total + s.failed_total

publish-Counted :
    (device_id : String) (t : Turn) (s : Sim) → Counted s → Counted (publish device_id t s)
unfolding publish Counted
publish-Counted device_id t s c = elim (Bool-cases (token_failed t.token)) [
  | inl e ↦ rw e (omega (arith, c))
  | inr e ↦ rw e (omega (arith, c))
]

module _ (device_id : String) (interval_min interval_max : ℕ) where
  loop-active :
      (ts : List Turn) (s : Sim) (n : ℤ)
      → ltb interval_min interval_max ≡ true
      → s.devices_active ≡ succ_ℤ n
      → (deferred (loop device_id interval_min interval_max ts s)).0.devices_active
        ≡ gauge_at (place ts) n
  unfolding loop place deferred gauge_at turn_waited jitter
  loop-active [] s n positive e = e
  loop-active (t ∷ ts) s n positive e = rw positive (elim (Bool-cases t.done) [
    | inl d ↦ rw d (rw e (pred_ℤ-succ_ℤ n))
    | inr d ↦ elim (Bool-cases t.offline) [
      | inl o ↦ elim (Bool-cases t.done_offline) [
        | inl x ↦ rw (d, o, x) (rw e (ap pred_ℤ (pred_ℤ-succ_ℤ n)))
        | inr x ↦
            rw (d, o, x)
              (loop-active ts (inc (dec s)) n positive (succ_ℤ-pred_ℤ s.devices_active ∙ e))
      ]
      | inr o ↦
          rw (d, o)
            (loop-active ts (publish device_id t s) n positive (publish-active device_id t s ∙ e))
    ]
  ])

  loop-Counted :
      (ts : List Turn) (s : Sim)
      → Counted s
      → Counted (loop device_id interval_min interval_max ts s).0
  unfolding loop turn_waited Counted
  loop-Counted [] s c = c
  loop-Counted (t ∷ ts) s c = elim (Option-cases (jitter interval_min interval_max t.draw)) [
    | inl n ↦ rw n c
    | inr (wait, w) ↦ rw w (elim (Bool-cases t.done) [
      | inl d ↦ rw d c
      | inr d ↦ elim (Bool-cases t.offline) [
        | inl o ↦ elim (Bool-cases t.done_offline) [
          | inl x ↦ rw (d, o, x) c
          | inr x ↦ rw (d, o, x) (loop-Counted ts (inc (dec s)) c)
        ]
        | inr o ↦
            rw (d, o) (loop-Counted ts (publish device_id t s) (publish-Counted device_id t s c))
      ]
    ])
  ]

-- A device that connects adds one to the gauge while it runs and takes it away when the context is
-- cancelled; but one that is cancelled while it is offline leaves the gauge one below what it was.
-- Either way, when the longest interval is above the shortest.
pub run_device-active :
    (device_id : String) (connected : Token) (interval_min interval_max : ℕ) (ts : List Turn)
    (s : Sim)
    → token_failed connected ≡ false
    → ltb interval_min interval_max ≡ true
    → (run_device device_id connected interval_min interval_max ts s).0.devices_active
      ≡ expected_active ts s.devices_active
unfolding run_device expected_active
run_device-active device_id connected interval_min interval_max ts s k positive =
    rw k (loop-active device_id interval_min interval_max ts (inc s) s.devices_active positive refl)

dec-Counted : (f : Flow) (s : Sim) → Counted s → Counted (when_goes_on f s (dec s))
unfolding Counted
dec-Counted goes_on s c = c
dec-Counted returned s c = c
dec-Counted panicked s c = c

-- However the device ends, each message that it handed to the MQTT client is counted once, as
-- published or as failed, when that held before it started.
pub run_device-counts :
    (device_id : String) (connected : Token) (interval_min interval_max : ℕ) (ts : List Turn)
    (s : Sim)
    → length s.handed ≡ s.published_total + s.failed_total
    → let s' = (run_device device_id connected interval_min interval_max ts s).0 in
      length s'.handed ≡ s'.published_total + s'.failed_total
unfolding run_device deferred Counted
run_device-counts device_id connected interval_min interval_max ts s c =
    elim (Bool-cases (token_failed connected)) [
      | inl e ↦ rw e c
      | inr e ↦ rw e (
          let l = loop device_id interval_min interval_max ts (inc s) in
          dec-Counted l.1 l.0 (loop-Counted device_id interval_min interval_max ts (inc s) c))
    ]
