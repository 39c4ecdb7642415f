-- ===== src/LagCache/Gate.antt =====
-- internal/lagcache/middleware.go: the back-pressure on POST /jobs.
use processing_platform.Prelude.{
  String, ◌<>◌, Bool, true, false, ◌&&◌, Option, none, some, [], ◌∷◌, ltb, str_eq, if◌then◌else◌,
}
use processing_platform.Failure.{Result, ok, err}
use processing_platform.Codec.{ℤ, pos, negsuc}
use processing_platform.Jobs.Types.{tier_for, tier_realtime, tier_standard, tier_bulk}
use processing_platform.GoMap.{GoMap, read}
use processing_platform.LagCache.{LagCache, get}

-- What the middleware reads of a request.
pub record HttpRequest : Type 0 where
  pub method : String
  pub full_path : String
  pub body : String

-- The body of the 503.
pub record Overload : Type 0 where
  pub tier : String
  pub lag : ℤ
  pub threshold : ℤ

abbrev pub default_thresholds : GoMap ℤ
default_thresholds =
    (tier_realtime, pos 100) ∷ (tier_standard, pos 1000) ∷ (tier_bulk, pos 5000) ∷ []

-- `a < b` on int64.
abbrev pub less : ℤ → ℤ → Bool
less (pos a) (pos b) = ltb a b
less (pos a) (negsuc b) = false
less (negsuc a) (pos b) = true
less (negsuc a) (negsuc b) = ltb b a

-- With the threshold and the lag read.
unfoldable pub limit : String → ℤ → ℤ → Option Overload
limit tier lag threshold =
    if less (pos 0) threshold && less threshold lag
    then some (record { tier = tier; lag = lag; threshold = threshold })
    else none

unfoldable pub limit_tier : LagCache → GoMap ℤ → Option String → Option Overload
unfolding limit
limit_tier cache thresholds none = none
limit_tier cache thresholds (some tier) =
    limit tier (get ("jobs." <> tier) cache) (read (pos 0) tier thresholds)

-- `decode_type` is json.Unmarshal into the struct with the field `type`; its error lets the
-- request through.
unfoldable pub limit_decoded : LagCache → GoMap ℤ → Result String → Option Overload
unfolding limit_tier
limit_decoded cache thresholds (err e) = none
limit_decoded cache thresholds (ok type) = limit_tier cache thresholds (tier_for type)

-- Whether the request is stopped.
unfoldable pub overloaded :
    (String → Result String) → LagCache → GoMap ℤ → HttpRequest → Option Overload
unfolding limit_decoded
overloaded decode_type cache thresholds req =
    if str_eq req.method "POST" && str_eq req.full_path "/jobs"
    then limit_decoded cache thresholds (decode_type req.body)
    else none

-- `Backpressure`: the request is answered with 503, or goes on with its body.
unfoldable pub backpressure :
    {R : Type 0}
    → (String → Result String)
    → LagCache
    → GoMap ℤ
    → (Overload → R)
    → (HttpRequest → R)
    → HttpRequest
    → R
unfolding overloaded
backpressure decode_type cache thresholds abort next req =
    elim (overloaded decode_type cache thresholds req) [ none ↦ next req | some o ↦ abort o ]
