-- ===== src/Scenarios/Lags.antt =====
-- The cache of lags and the middleware at concrete inputs.
use processing_platform.Prelude.{String, ◌≡◌, ◌⊎◌, ◌↔◌, some, List, [], ◌∷◌}
use processing_platform.Failure.{Result, ok, err, new}
use processing_platform.Codec.{pos}
use processing_platform.Jobs.Types.{type_remote_command}
use processing_platform.LagCache.{PromCodec, LagCache, empty, get, run}
use processing_platform.LagCache.Latest.{expected, get-run}
use processing_platform.LagCache.Gate.{Overload, default_thresholds, overloaded}
use processing_platform.LagCache.Limits.{Overloads, overloaded-Overloads}
use processing_platform.Api.{submit_job}
use processing_platform.Api.Routes.{post_request, passed, refused, post_jobs, post_jobs-Overloads}
use processing_platform.Scenarios.Texts.{texts, size}
use processing_platform.Scenarios.Plant.{counter, world}

-- Each body is a success with one sample of the realtime topic, whose lag is the body's length.
abbrev prom : PromCodec
prom = record {
  decode = λ body. ok (record {
    status = "success";
    result = record { metric = ("topic", "jobs.realtime") ∷ []; value = some body } ∷ [];
  });
  parse_float = λ s. some (size s);
  to_int64 = λ n. pos n;
}

abbrev polls : List (Result String)
polls = ok "xx" ∷ ok "xxx" ∷ err (new "timeout") ∷ []

get-run_example : get "jobs.realtime" (run prom polls empty) ≡ expected prom "jobs.realtime" polls
get-run_example = get-run prom "jobs.realtime" polls

abbrev busy : LagCache
busy = record { lag = ("jobs.realtime", pos 5000) ∷ [] }

abbrev overload : Overload
overload = record { tier = "realtime"; lag = pos 5000; threshold = pos 100 }

overloaded-Overloads_example :
    (overloaded (λ s. ok type_remote_command) busy default_thresholds (post_request "{}")
      ≡ some overload)
    ↔ Overloads (λ s. ok type_remote_command) busy default_thresholds (post_request "{}") overload
overloaded-Overloads_example =
    overloaded-Overloads (λ s. ok type_remote_command) busy default_thresholds (post_request "{}")
      overload

post_jobs-Overloads_example :
    ((o : Overload) × Overloads
        (λ s. ok type_remote_command)
        busy
        default_thresholds
        (post_request "key-0002")
        o
      × (post_jobs texts counter
            (λ s. ok type_remote_command)
            busy
            default_thresholds
            "key-0002"
            8
            world
          ≡ refused texts counter (λ s. ok type_remote_command) busy default_thresholds 8 world o))
    ⊎ (((o : Overload)
          → ¬ Overloads
              (λ s. ok type_remote_command)
              busy
              default_thresholds
              (post_request "key-0002")
              o)
        × (post_jobs texts counter
              (λ s. ok type_remote_command)
              busy
              default_thresholds
              "key-0002"
              8
              world
            ≡ passed texts counter
                (λ s. ok type_remote_command)
                busy
                default_thresholds
                (submit_job texts counter "key-0002" 8 world)))
post_jobs-Overloads_example =
    post_jobs-Overloads texts counter (λ s. ok type_remote_command) busy default_thresholds
      "key-0002" 8 world
