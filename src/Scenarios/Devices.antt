-- ===== src/Scenarios/Devices.antt =====
-- A simulated device, a due time and a round of the lag exporter at concrete inputs.
use processing_platform.Prelude.{
  ◌+◌, ◌-◌, ◌≤◌, ◌<◌, ◌≡◌, ◌<>◌, ℕ, refl, true, false, List, [], ◌∷◌, length, arith, later_of,
}
use processing_platform.Failure.{ok}
use processing_platform.Codec.{pos}
use processing_platform.Retry.{second, next_at}
use processing_platform.World.{World, Message, draw}
use processing_platform.Wiring.{worker_realtime}
use processing_platform.Worker.{send_to_retry}
use processing_platform.Scenarios.Floats.{halves}
use processing_platform.Scenarios.Deliveries.{bad_world, stands}
use processing_platform.DevSim.{Token, Turn, Sim, token_failed, run_device}
use processing_platform.DevSim.Active.{expected_active, run_device-active, run_device-counts}
use processing_platform.Router.{read_retry_at}
use processing_platform.Router.RetryAt.{retry_at_roundtrip}
use processing_platform.LagExporter.{Client, group_topics, lag, collect_all}
use processing_platform.LagExporter.Offsets.{lag-difference}
use processing_platform.LagExporter.Lag.{shows, measured}
use processing_platform.LagExporter.Rounds.{Once, here, later, collect_all-lag}
use processing_platform.Scenarios.Texts.{texts}

abbrev sent : Token
sent = record { completed = true; has_error = false }

-- One message is sent, the next is refused, and the context is cancelled while the device is offline.
abbrev turns : List Turn
turns =
    record {
      draw = 1;
      done = false;
      offline = false;
      done_offline = false;
      payload = "30";
      token = sent;
    }
    ∷ record {
      draw = 0;
      done = false;
      offline = false;
      done_offline = false;
      payload = "31";
      token = record sent { has_error = true };
    }
    ∷ record {
      draw = 2;
      done = false;
      offline = true;
      done_offline = true;
      payload = "";
      token = sent;
    }
    ∷ []

abbrev quiet : Sim
quiet = record { published_total = 0; failed_total = 0; devices_active = pos 0; handed = [] }

run_device-active_example :
    (run_device "dev-00000" sent 1 5 turns quiet).0.devices_active ≡ expected_active turns (pos 0)
unfolding token_failed
run_device-active_example = run_device-active "dev-00000" sent 1 5 turns quiet refl refl

run_device-counts_example :
    let s = (run_device "dev-00000" sent 1 5 turns quiet).0 in
    length s.handed ≡ s.published_total + s.failed_total
run_device-counts_example = run_device-counts "dev-00000" sent 1 5 turns quiet refl

retry_at_roundtrip_example :
    (w' : World) × (m : Message) × (r : ℕ) × (send_to_retry texts halves
        (worker_realtime texts)
        "{}"
        7
        1
        "broken"
        bad_world
      ≡ (ok tt, w'))
    × (w'.outbox ≡ m ∷ [])
    × (m.topic ≡ "jobs.realtime" <> ".retry")
    × ((draw bad_world).0 ≡ ok r)
    × (read_retry_at texts 4 m.headers ≤ next_at halves bad_world.clock 1 r)
    × (next_at halves bad_world.clock 1 r < read_retry_at texts 4 m.headers + second)
retry_at_roundtrip_example =
    retry_at_roundtrip texts halves (worker_realtime texts) "{}" "broken" 1 4 stands (omega arith)

lag-difference_example : lag 10 4 ≡ 10 - 4
lag-difference_example = lag-difference 10 4 (omega arith) (omega arith)

-- Two partitions of each topic; in the second a group is ahead of the end that was listed.
abbrev brokers : Client
brokers = record {
  metadata = λ topic. ok (record { name = topic; partitions = 0 ∷ 1 ∷ [] } ∷ []);
  list_offsets = λ topic ids. ok (
      (
        topic,
        record { partition = 0; last_offset = 10 } ∷ record { partition = 1; last_offset = 3 } ∷ [],
      )
      ∷ []);
  offset_fetch = λ group topic ids. ok (
      (
        topic,
        record { partition = 0; committed_offset = 4 }
            ∷ record { partition = 1; committed_offset = 5 }
            ∷ [],
      )
      ∷ []);
}

measured-Once : Once "worker-standard" "jobs.standard" group_topics
measured-Once = later refl (here refl)

collect_all-lag_example :
    shows texts
      (λ n. n)
      "jobs.standard"
      "worker-standard"
      1
      (collect_all texts (λ n. n) brokers group_topics [])
    ≡ later_of
        (measured texts (λ n. n) "jobs.standard" "worker-standard" 1 brokers)
        (shows texts (λ n. n) "jobs.standard" "worker-standard" 1 [])
collect_all-lag_example =
    collect_all-lag texts (λ n. n) brokers "worker-standard" "jobs.standard" 1 group_topics []
      measured-Once
