-- ===== src/Metrics.antt =====
-- internal/observability: what the program counts and observes, metric by metric, newest first. A
-- duration is in nanoseconds. The collectors themselves are Prometheus's.
use processing_platform.Prelude.{ℕ, String, List, [], ◌∷◌, str_eq, if◌then◌else◌}

-- `Metrics`: the fields that the program writes; each entry has the values of the labels.
pub record Metrics : Type 0 where
  pub http_requests_total : List (String × String × String)  -- method, route, status
  pub http_request_duration : List (String × String × String × ℕ)
  pub jobs_processed_total : List (String × String × String)  -- type, tier, state
  pub job_duration_realtime : List (String × ℕ)
  pub job_duration_standard : List (String × ℕ)
  pub job_duration_bulk : List (String × ℕ)
  pub kafka_messages_consumed : List (String × String)  -- topic, group
  pub kafka_produce_total : List (String × String)  -- topic, result

abbrev pub no_metrics : Metrics
no_metrics = record {
  http_requests_total = [];
  http_request_duration = [];
  jobs_processed_total = [];
  job_duration_realtime = [];
  job_duration_standard = [];
  job_duration_bulk = [];
  kafka_messages_consumed = [];
  kafka_produce_total = [];
}

-- The switch on the tier.
unfoldable pub observe_duration : String → String → ℕ → Metrics → Metrics
observe_duration typ tier duration m =
    if str_eq tier "realtime"
    then record m { job_duration_realtime = (typ, duration) ∷ m.job_duration_realtime }
    else if str_eq tier "standard"
    then record m { job_duration_standard = (typ, duration) ∷ m.job_duration_standard }
    else if str_eq tier "bulk"
    then record m { job_duration_bulk = (typ, duration) ∷ m.job_duration_bulk }
    else m

-- `ObserveJob`.
unfoldable pub observe_job : String → String → String → ℕ → Metrics → Metrics
unfolding observe_duration
observe_job typ tier state duration m =
    observe_duration typ tier duration
      (record m { jobs_processed_total = (typ, tier, state) ∷ m.jobs_processed_total })

-- `GinMetrics`, after the handlers ran: the route template, or "unmatched".
unfoldable pub route_label : String → String
route_label full_path = if str_eq full_path "" then "unmatched" else full_path

unfoldable pub gin_metrics : String → String → String → ℕ → Metrics → Metrics
unfolding route_label
gin_metrics method full_path status duration m =
    let route = route_label full_path in
    record m {
      http_requests_total = (method, route, status) ∷ m.http_requests_total;
      http_request_duration = (method, route, status, duration) ∷ m.http_request_duration;
    }
