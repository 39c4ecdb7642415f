-- ===== src/System/Kept.antt =====
-- A condition on the tables and on the brokers' messages that every effect of the program keeps:
-- one field for each kind of effect, with what the program has done before it.
use processing_platform.Prelude.{ℕ, String, ◌<>◌, ◌≡◌, refl, inl, Option, List, ◌∷◌, Any}
use processing_platform.Failure.{Result, ok, err}
use processing_platform.Jobs.State.{state_retry, state_failed}
use processing_platform.World.{Message, query, run_statement, stamp_of}
use processing_platform.World.Keeps.{Inv, After, Triple, Keeps, KeepsBeat, Triple-request}
use processing_platform.Kafka.{append, write_messages, publish, publish_with_header}
use processing_platform.Store.Rows.{
  Db, CreateJobParams, UpdateJobStateParams, InsertDeviceMetricParams, InsertFirmwareAttemptParams,
  InsertCommandAuditParams, InsertAlertParams,
}
use processing_platform.Store.Sql.Base.{Stamp, Statement}
use processing_platform.Store.Sql.Devices
use processing_platform.Store.Sql.Jobs
use processing_platform.Store.Sql.Records

-- A message with this key waits on the retry topic of a tier, or among the dead letters.
abbrev pub WaitsForRetry : String → Message → Type 0
WaitsForRetry key m = (t : String) × (m.topic ≡ t <> ".retry") × (m.key ≡ key)

abbrev pub IsDeadLetter : String → Message → Type 0
IsDeadLetter key m = (m.topic ≡ "jobs.dlq") × (m.key ≡ key)

-- A move to RETRY or to FAILED comes after the message that it stands for.
pub record Evidence (key : String) (state : String) (outbox : List Message) : Type 0 where
  pub retry : state ≡ state_retry → Any (WaitsForRetry key) outbox
  pub dead : state ≡ state_failed → Any (IsDeadLetter key) outbox

pub record Kept (uuid_string : ℕ → String) (P : Inv) : Type 0 where
  pub by_beat : KeepsBeat P
  pub by_message : (m : Message) (db : Db) (o : List Message) → P db o → P db (m ∷ o)
  pub by_create_job :
      (p : CreateJobParams) (s : Stamp) (db : Db) (o : List Message)
      → P db o
      → P (Jobs.create_job p s db).1 o
  pub by_update_job_state :
      (p : UpdateJobStateParams) (s : Stamp) (db : Db) (o : List Message)
      → Evidence (uuid_string p.id) p.state o
      → P db o
      → P (Jobs.update_job_state p s db).1 o
  pub by_increment :
      (id : ℕ) (s : Stamp) (db : Db) (o : List Message)
      → P db o
      → P (Jobs.increment_job_attempts id s db).1 o
  pub by_requeue :
      (id : ℕ) (s : Stamp) (db : Db) (o : List Message) → P db o → P (Jobs.requeue_job id s db).1 o
  pub by_create_device :
      (id : String) (s : Stamp) (db : Db) (o : List Message)
      → P db o
      → P (Devices.create_device id s db).1 o
  pub by_touch_device :
      (id : String) (s : Stamp) (db : Db) (o : List Message)
      → P db o
      → P (Devices.touch_device id s db).1 o
  pub by_device_firmware :
      (id : String) (v : Option String) (s : Stamp) (db : Db) (o : List Message)
      → P db o
      → P (Devices.update_device_firmware id v s db).1 o
  pub by_metric :
      (p : InsertDeviceMetricParams) (s : Stamp) (db : Db) (o : List Message)
      → P db o
      → P (Records.insert_device_metric p s db).1 o
  pub by_firmware :
      (p : InsertFirmwareAttemptParams) (s : Stamp) (db : Db) (o : List Message)
      → P db o
      → P (Records.insert_firmware_attempt p s db).1 o
  pub by_audit :
      (p : InsertCommandAuditParams) (s : Stamp) (db : Db) (o : List Message)
      → P db o
      → P (Records.insert_command_audit p s db).1 o
  pub by_alert :
      (p : InsertAlertParams) (s : Stamp) (db : Db) (o : List Message)
      → P db o
      → P (Records.insert_alert p s db).1 o

After-same :
    {A : Type 0} (P : Inv) (r : Result A) (db : Db) (o : List Message)
    → P db o
    → After (λ _. P) P r db o
After-same P (ok a) db o p = p
After-same P (err e) db o p = p

-- A query ends as its statement does, or with an error of the connection.
pub Triple-query :
    {A : Type 0} {P E : Inv} {Q : A → Inv} (st : Statement A)
    → KeepsBeat P
    → ((s : Stamp) (db : Db) (o : List Message) → P db o → After Q E (st s db).0 (st s db).1 o)
    → ((db : Db) (o : List Message) → P db o → E db o)
    → ((a : A) (db : Db) (o : List Message) → Q a db o → E db o)
    → Triple P (query st) Q E
unfolding query run_statement
Triple-query st beat h pe qe =
    Triple-request (run_statement st) beat
      (λ c. record { at = λ w p. h (stamp_of c w) w.db w.outbox p }) pe qe

-- A query keeps what its statement keeps.
pub Keeps-query :
    {A : Type 0} {P : Inv} (st : Statement A)
    → KeepsBeat P
    → ((s : Stamp) (db : Db) (o : List Message) → P db o → P (st s db).1 o)
    → Keeps P (query st)
unfolding query run_statement
Keeps-query {P} st beat h =
    Triple-request (run_statement st) beat
      (λ c. record { at = λ w p. After-same P _ _ _ (h (stamp_of c w) w.db w.outbox p) })
      (λ db o p. p) (λ a db o p. p)

-- What is known of the messages besides.
abbrev pub With : Inv → (List Message → Type 0) → Inv
With P R db o = P db o × R o

abbrev pub Sent : String → String → List Message → Type 0
Sent topic key o = Any (λ (m : Message). (m.topic ≡ topic) × (m.key ≡ key)) o

-- A message with just this value.
abbrev pub Posted : String → String → String → List Message → Type 0
Posted topic key value o =
    Any (λ (m : Message). (m.topic ≡ topic) × (m.key ≡ key) × (m.value ≡ value)) o

module _ {P : Inv} (beat : KeepsBeat P)
    (grow : (m : Message) (db : Db) (o : List Message) → P db o → P db (m ∷ o)) where
  -- An acknowledged write is there; an error leaves it open.
  Triple-write :
      (R : List Message → Type 0) (m : Message)
      → ((o : List Message) → R (m ∷ o))
      → Triple P (write_messages m) (λ _. With P R) P
  unfolding write_messages
  Triple-write R m there =
      Triple-request (λ _. append m) beat
        (λ c. record { at = λ w p. (grow m w.db w.outbox p, there w.outbox) }) (λ db o p. p)
        (λ a db o p. p.0)

  pub Triple-publish :
      (topic key value : String)
      → Triple P (publish topic key value) (λ _. With P (Sent topic key)) P
  unfolding publish
  Triple-publish topic key value = record {
    at = λ w p. (Triple-write (Sent topic key) _ (λ o. inl (refl, refl))).at w p;
  }

  pub Triple-publish-Posted :
      (topic key value : String)
      → Triple P (publish topic key value) (λ _. With P (Posted topic key value)) P
  unfolding publish
  Triple-publish-Posted topic key value = record {
    at = λ w p. (Triple-write (Posted topic key value) _ (λ o. inl (refl, refl, refl))).at w p;
  }

  pub Triple-publish_with_header :
      (topic key value hk hv : String)
      → Triple P (publish_with_header topic key value hk hv) (λ _. With P (Sent topic key)) P
  unfolding publish_with_header
  Triple-publish_with_header topic key value hk hv = record {
    at = λ w p. (Triple-write (Sent topic key) _ (λ o. inl (refl, refl))).at w p;
  }
