-- ===== src/DevSim.antt =====
-- cmd/devsim/main.go: one simulated device, `runDevice`. What the MQTT client, the clock and
-- math/rand answer in a pass of the loop is a `Turn`; durations are not negative.
pub mod Active
use processing_platform.Prelude.{
  ℕ, zero, suc, ◌+◌, String, ◌<>◌, Bool, true, false, ◌&&◌, Option, none, some, List, [], ◌∷◌, ltb,
  if◌then◌else◌,
}
use processing_platform.Codec.{ℤ, pos, negsuc}

-- A token of the MQTT client: whether `WaitTimeout` saw it complete, and whether it has an error.
pub record Token : Type 0 where
  pub completed : Bool
  pub has_error : Bool

pub record Turn : Type 0 where
  pub draw : ℕ  -- what `rand.Int63n` draws
  pub done : Bool  -- the context is cancelled while the device waits
  pub offline : Bool  -- `rand.Float64() < failureRate`
  pub done_offline : Bool  -- the context is cancelled while the device is offline
  pub payload : String
  pub token : Token

-- The metrics, and what was handed to `client.Publish`, newest first.
pub record Sim : Type 0 where
  pub published_total : ℕ
  pub failed_total : ℕ
  pub devices_active : ℤ
  pub handed : List (String × String)

pub data Flow : Type 0 where
  goes_on returned panicked : Flow

-- `token.WaitTimeout(d) && token.Error() != nil`.
unfoldable pub token_failed : Token → Bool
token_failed token = token.completed && token.has_error

abbrev pub succ_ℤ : ℤ → ℤ
succ_ℤ (pos n) = pos (suc n)
succ_ℤ (negsuc zero) = pos 0
succ_ℤ (negsuc (suc n)) = negsuc n

abbrev pub pred_ℤ : ℤ → ℤ
pred_ℤ (pos zero) = negsuc 0
pred_ℤ (pos (suc n)) = pos n
pred_ℤ (negsuc n) = negsuc (suc n)

abbrev pub inc : Sim → Sim
inc s = record s { devices_active = succ_ℤ s.devices_active }

abbrev pub dec : Sim → Sim
dec s = record s { devices_active = pred_ℤ s.devices_active }

unfoldable pub device_topic : String → String
device_topic device_id = "devices/" <> (device_id <> "/telemetry")

-- `none`: `rand.Int63n` panics.
unfoldable pub jitter : ℕ → ℕ → ℕ → Option ℕ
jitter interval_min interval_max draw =
    if ltb interval_min interval_max then some (interval_min + draw) else none

unfoldable pub publish : String → Turn → Sim → Sim
unfolding token_failed device_topic
publish device_id t s =
    let s' = record s { handed = (device_topic device_id, t.payload) ∷ s.handed } in
    if token_failed t.token
    then record s' { failed_total = suc s.failed_total }
    else record s' { published_total = suc s.published_total }

-- The select and what follows it, once the wait was drawn.
unfoldable pub turn_waited : String → Option ℕ → Turn → Sim → Sim × Flow
unfolding publish
turn_waited device_id none t s = (s, panicked)
turn_waited device_id (some wait) t s =
    if t.done
    then (s, returned)
    else if t.offline
    then (if t.done_offline then (dec s, returned) else (inc (dec s), goes_on))
    else (publish device_id t s, goes_on)

abbrev pub when_goes_on : {A : Type 0} → Flow → A → A → A
when_goes_on goes_on rest now = rest
when_goes_on returned rest now = now
when_goes_on panicked rest now = now

-- The loop; past the end of the turns it still runs.
unfoldable pub loop : String → ℕ → ℕ → List Turn → Sim → Sim × Flow
unfolding turn_waited
loop device_id interval_min interval_max [] s = (s, goes_on)
loop device_id interval_min interval_max (t ∷ ts) s =
    let r = turn_waited device_id (jitter interval_min interval_max t.draw) t s in
    let rest = loop device_id interval_min interval_max ts r.0 in when_goes_on r.1 rest r

-- `defer devicesActive.Dec()`.
unfoldable pub deferred : Sim × Flow → Sim × Flow
deferred r = (when_goes_on r.1 r.0 (dec r.0), r.1)

unfoldable pub run_device : String → Token → ℕ → ℕ → List Turn → Sim → Sim × Flow
unfolding loop deferred token_failed
run_device device_id connected interval_min interval_max ts s =
    if token_failed connected
    then (s, returned)
    else deferred (loop device_id interval_min interval_max ts (inc s))
