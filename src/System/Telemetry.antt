-- ===== src/System/Telemetry.antt =====
-- internal/handlers/telemetry.go as a handler that serves, where every request is delivered at once.
use processing_platform.Prelude.{
  ℕ, ◌≡◌, refl, ap, ◌∙◌, any, ◌==◌, false, true, Option, none, some, List, ◌∷◌,
}
use processing_platform.Failure.{ok}
use processing_platform.World.{World, Message, prompt_call, micros, pure, lift, now}
use processing_platform.World.Calm.{query-calm, bind-ok, wrapping-ok}
use processing_platform.Codec.{Codec, TelemetryPayload}
use processing_platform.Jobs.State.{state_running}
use processing_platform.Store.Rows.{Db, DeviceMetric}
use processing_platform.Store.Sql.Base.{has_device, find_job}
use processing_platform.Store.Sql.Records
use processing_platform.Store.Sql.Records.{insert_row}
use processing_platform.Store.Queries.{insert_device_metric}
use processing_platform.Handlers.{Deps, HandlerJob, sampled_at, handle_telemetry}
use processing_platform.Worker.Stands.{Stands}
use processing_platform.Worker.Beside.{other_tables}
use processing_platform.System.Delivered.{Serves}

sampled : Option ℕ → World → ℕ
sampled none w = micros w.clock
sampled (some t) w = t

sampled_at-ok : (o : Option ℕ) (w : World) → sampled_at o w ≡ (ok (sampled o w), w)
unfolding sampled_at sampled pure
sampled_at-ok none w = bind-ok now _ w (unfold now in refl)
sampled_at-ok (some t) w = refl

module _ (cx : Codec) (deps : Deps) (hj : HandlerJob) (id : ℕ) (tables : Db) (p : TelemetryPayload)
    (decodes : cx.unmarshal_telemetry hj.payload ≡ ok p)
    (known : has_device hj.device_id tables ≡ true)
    (fresh : any (λ (r : DeviceMetric). r.id == prompt_call.uuid) tables.device_metrics
      ≡ false) where
  module _ {o : List Message} {v : World} (s : Stands id 3 0 state_running o v)
      (beside : other_tables v.db ≡ other_tables tables) where
    -- The row that is inserted.
    abbrev measured : DeviceMetric
    measured = record {
      id = prompt_call.uuid;
      device_id = hj.device_id;
      metric_at = sampled p.timestamp v;
      avg_value = p.value;
      sample_count = 1;
      created_at = micros v.clock;
    }

    abbrev with_metric : World
    with_metric = record v { db = record v.db { device_metrics = measured ∷ v.db.device_metrics } }

    device_there : has_device hj.device_id v.db ≡ true
    unfolding has_device
    device_there = ap (λ (db : Db). has_device hj.device_id db) beside ∙ known

    metric_fresh : any (λ (r : DeviceMetric). r.id == prompt_call.uuid) v.db.device_metrics ≡ false
    metric_fresh =
        ap (λ (db : Db). any (λ (r : DeviceMetric). r.id == prompt_call.uuid) db.device_metrics)
          beside
        ∙ fresh

    inserted :
        insert_device_metric
          (record {
            device_id = hj.device_id;
            metric_at = sampled p.timestamp v;
            avg_value = p.value;
            sample_count = 1;
          })
          v
        ≡ (ok measured, with_metric)
    unfolding insert_device_metric Records.insert_device_metric insert_row
    inserted = query-calm _ v s.calm ∙ rw (metric_fresh, device_there) refl

    handled : handle_telemetry cx deps hj v ≡ (ok tt, with_metric)
    unfolding handle_telemetry lift pure
    handled =
        bind-ok _ _ v (wrapping-ok "decode telemetry payload" _ v (ap (λ r. (r, v)) decodes))
        ∙ bind-ok _ _ v (sampled_at-ok p.timestamp v)
        ∙ bind-ok _ _ v inserted

    Stands-with_metric : Stands id 3 0 state_running o with_metric
    unfolding find_job
    Stands-with_metric = record {
      calm = s.calm;
      job = s.job;
      found = s.found;
      has_limit = s.has_limit;
      has_attempts = s.has_attempts;
      has_state = s.has_state;
      outbox = s.outbox;
    }

  pub handle_telemetry-Serves : Serves (handle_telemetry cx deps) hj id tables
  handle_telemetry-Serves = record {
    serve =
        λ o v s beside. (with_metric s beside, o, handled s beside, Stands-with_metric s beside);
  }
