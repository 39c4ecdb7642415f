-- ===== src/Ingestion/Once.antt =====
-- cmd/ingestion: a device has one telemetry job a minute.
use processing_platform.Prelude.{
  ◌/◌, String, ◌≡◌, ◌<>◌, sym, ap, ◌∙◌, inl, inr, List, [], ◌∷◌, Any, Any-weaken, map, refl,
}
use processing_platform.Failure.{Err, Result, ok, err}
use processing_platform.World.{World, Message}
use processing_platform.World.Keeps.{Any_world, Inv, After}
use processing_platform.Codec.{Codec}
use processing_platform.Jobs.Types.{type_telemetry_processing}
use processing_platform.Retry.{second}
use processing_platform.Store.Rows.{Db, Job}
use processing_platform.System.Identity.{Identity, identity, HasJob}
use processing_platform.Api.Once.{Untouched}
use processing_platform.Submitter.Duplicate.{HasKey, submit-HasKey, submit-duplicate}
use processing_platform.DevSim.{device_topic}
use processing_platform.Ingestion.{ingest_key, payload_of, handle_message}
use processing_platform.Ingestion.Topics.{NoSlash, handle_message-topic}

HasJob-of_key :
    (key typ : String) (js : List Job)
    → Any (λ (j : Job). (j.idempotency_key ≡ key) × (j.type ≡ typ)) js
    → (i : Identity) × (i.idempotency_key ≡ key)
      × (i.type ≡ typ)
      × Any (λ (j : Job). identity j ≡ i) js
HasJob-of_key key typ [] a = absurd a
HasJob-of_key key typ (j ∷ js) (inl (k, t)) = (identity j, k, t, inl refl)
HasJob-of_key key typ (j ∷ js) (inr a) =
    let (i, k, t, h) = HasJob-of_key key typ js a in (i, k, t, inr h)

key-of_HasJob :
    (key typ : String) (i : Identity) (js : List Job)
    → i.idempotency_key ≡ key
    → i.type ≡ typ
    → Any (λ (j : Job). identity j ≡ i) js
    → Any (λ (j : Job). (j.idempotency_key ≡ key) × (j.type ≡ typ)) js
key-of_HasJob key typ i js k t a =
    Any-weaken (λ (j : Job). identity j ≡ i)
      (λ (j : Job). (j.idempotency_key ≡ key) × (j.type ≡ typ))
      (λ j e. (ap (λ x. x.idempotency_key) e ∙ k, ap (λ x. x.type) e ∙ t)) js a

-- No row of the jobs was lost from one world to the other.
abbrev pub Remains : World → World → Type 0
Remains w w' = (i : Identity) → HasJob i w.db w.outbox → HasJob i w'.db w'.outbox

HasKey-Remains :
    (key typ : String) (w w' : World)
    → Remains w w'
    → HasKey key typ w.db w.outbox
    → HasKey key typ w'.db w'.outbox
HasKey-Remains key typ w w' r h =
    let (i, k, t, a) = HasJob-of_key key typ w.db.jobs h in
    key-of_HasJob key typ i w'.db.jobs k t (r i a)

After-ok :
    (Q : Inv) (r : Result (Unit {0})) (db : Db) {o : List Message}
    → After (λ _. Q) Any_world r db o
    → r ≡ ok tt
    → Q db o
After-ok Q (ok a) db h e = h
After-ok Q (err x) db h e = cc e

-- Once a message of a device has been ingested, a message of the same device in the same minute of
-- the clock, in any later world that still has the rows of the jobs, is refused with an error: no
-- message is sent, no row is added, and no row is changed in what identifies it. The device id has
-- no '/'.
pub handle_message-once :
    (cx : Codec) (device_id raw raw' : String) (w v : World)
    → NoSlash device_id
    → let r = handle_message cx (device_topic device_id) raw w in
      r.0 ≡ ok tt
      → Remains r.1 v
      → v.clock / second / 60 ≡ w.clock / second / 60
      → let s = handle_message cx (device_topic device_id) raw' v in
        ((e : Err) × (s.0 ≡ err e)) × Untouched v.outbox (map identity v.db.jobs) s.1.db s.1.outbox
unfolding ingest_key
handle_message-once cx device_id raw raw' w v n e r same =
    let key = ingest_key cx device_id w.clock in
    let payload = payload_of raw cx.quote (cx.unmarshal_raw raw) in
    let first = handle_message-topic cx device_id raw w n in
    let there : HasKey key type_telemetry_processing v.db v.outbox =
      HasKey-Remains key type_telemetry_processing
        (handle_message cx (device_topic device_id) raw w).1 v r
        (rw first (
          After-ok (HasKey key type_telemetry_processing) _ _
            ((submit-HasKey cx type_telemetry_processing device_id key payload).at w tt)
            (ap (λ x. x.0) (sym first) ∙ e))) in
    let keys : ingest_key cx device_id v.clock ≡ key =
      ap (λ m. "mqtt-" <> (device_id <> ("-" <> cx.format_int m))) same in
    rw (handle_message-topic cx device_id raw' v n, keys)
      (submit-duplicate cx type_telemetry_processing device_id key _ v there)
