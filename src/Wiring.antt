-- ===== src/Wiring.antt =====
-- What the three worker commands wire: cmd/worker-realtime, cmd/worker-standard, cmd/worker-bulk.
use processing_platform.Jobs.Types.{tier_realtime, tier_standard, tier_bulk}
use processing_platform.Codec.{Codec}
use processing_platform.Submitter.{submit}
use processing_platform.Clients
use processing_platform.Handlers.{Deps, build}
use processing_platform.Worker.{Config}

module _ (cx : Codec) where
  abbrev pub wired : Deps
  wired = record {
    send_command = Clients.send_command cx;
    get_health = Clients.get_health cx;
    push_firmware = Clients.push_firmware cx;
    post_alert = Clients.post_alert cx;
    submit = submit cx;
  }

  abbrev pub worker_realtime : Config
  worker_realtime = record {
    topic = "jobs.realtime";
    group_id = "worker-realtime";
    allowed_tier = tier_realtime;
    registry = build cx wired;
  }

  abbrev pub worker_standard : Config
  worker_standard = record {
    topic = "jobs.standard";
    group_id = "worker-standard";
    allowed_tier = tier_standard;
    registry = build cx wired;
  }

  abbrev pub worker_bulk : Config
  worker_bulk = record {
    topic = "jobs.bulk";
    group_id = "worker-bulk";
    allowed_tier = tier_bulk;
    registry = build cx wired;
  }
