-- ===== src/LagCache.antt =====
-- internal/lagcache/lagcache.go: the lag of each topic, as Prometheus last reported it. What the
-- program takes from encoding/json, strconv and the hardware is a `PromCodec`.
pub mod Latest
pub mod Gate
pub mod Limits
use processing_platform.Prelude.{
  ℕ, String, Option, none, some, List, [], ◌∷◌, str_eq, if◌then◌else◌,
}
use processing_platform.Failure.{Result, ok, err}
use processing_platform.Codec.{ℤ, pos}
use processing_platform.GoMap.{GoMap, read, write}

-- One element of `data.result`; `value` is `none` where Value[1] is no string.
pub record PromSample : Type 0 where
  pub metric : GoMap String
  pub value : Option String

-- `promResp`.
pub record PromResp : Type 0 where
  pub status : String
  pub result : List PromSample

pub record PromCodec : Type 0 where
  pub decode : String → Result PromResp
  pub parse_float : String → Option ℕ  -- a float64 as its bit pattern
  pub to_int64 : ℕ → ℤ

-- `LagCache`, under its lock.
pub record LagCache : Type 0 where
  pub lag : GoMap ℤ

-- `New`.
abbrev pub empty : LagCache
empty = record { lag = [] }

unfoldable pub get : String → LagCache → ℤ
get topic c = read (pos 0) topic c.lag

-- `Snapshot`: the copy, entry by entry.
copy_into : GoMap ℤ → GoMap ℤ → GoMap ℤ
copy_into [] out = out
copy_into ((k, v) ∷ m) out = copy_into m (write k v out)

unfoldable pub snapshot : LagCache → GoMap ℤ
unfolding copy_into
snapshot c = copy_into c.lag []

-- `valStr, _ := r.Value[1].(string)`.
unfoldable pub value_text : Option String → String
value_text none = ""
value_text (some s) = s

module _ (pc : PromCodec) where
  unfoldable pub store_parsed : String → Option ℕ → GoMap ℤ → GoMap ℤ
  store_parsed topic none next = next
  store_parsed topic (some v) next = write topic (pc.to_int64 v) next

  -- The body of the loop over the samples: one that does not parse is skipped.
  unfoldable pub store_sample : PromSample → GoMap ℤ → GoMap ℤ
  unfolding store_parsed value_text
  store_sample r next =
      store_parsed (read "" "topic" r.metric) (pc.parse_float (value_text r.value)) next

  unfoldable pub collect : List PromSample → GoMap ℤ → GoMap ℤ
  unfolding store_sample
  collect [] next = next
  collect (r ∷ rs) next = collect rs (store_sample r next)

  unfoldable pub refresh_decoded : Result PromResp → LagCache → LagCache
  unfolding collect
  refresh_decoded (err e) c = c
  refresh_decoded (ok pr) c =
      if str_eq pr.status "success" then record { lag = collect pr.result [] } else c

  -- `refresh`, from what the HTTP client returned: an error, or the body of the response.
  unfoldable pub refresh : Result String → LagCache → LagCache
  unfolding refresh_decoded
  refresh (err e) c = c
  refresh (ok body) c = refresh_decoded (pc.decode body) c

  -- `Run`: one refresh at once and one at each tick, until the context is cancelled.
  unfoldable pub run : List (Result String) → LagCache → LagCache
  unfolding refresh
  run [] c = c
  run (r ∷ rs) c = run rs (refresh r c)
