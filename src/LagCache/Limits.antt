-- ===== src/LagCache/Limits.antt =====
-- When the middleware stops a request.
use processing_platform.Prelude.{
  String, ◌<>◌, ◌≡◌, ◌↔◌, refl, sym, subst, inl, inr, true, some, str_eq, eq_iff, Bool-cases,
  Option-cases,
}
use processing_platform.Failure.{Result, ok, Result-cases}
use processing_platform.Codec.{ℤ, pos}
use processing_platform.Jobs.Types.{tier_for}
use processing_platform.GoMap.{GoMap, read}
use processing_platform.LagCache.{LagCache, get}
use processing_platform.LagCache.Gate.{
  HttpRequest, Overload, less, limit, limit_tier, limit_decoded, overloaded,
}

module _ (decode_type : String → Result String) (cache : LagCache) (thresholds : GoMap ℤ) where
  -- The request is a submission of a type whose tier has a positive threshold, and the lag of its
  -- topic is above it.
  pub record Overloads (req : HttpRequest) (o : Overload) : Type 0 where
    pub post : req.method ≡ "POST"
    pub jobs : req.full_path ≡ "/jobs"
    pub type : String
    pub decoded : decode_type req.body ≡ ok type
    pub tier_of : tier_for type ≡ some o.tier
    pub lag_of : o.lag ≡ get ("jobs." <> o.tier) cache
    pub threshold_of : o.threshold ≡ read (pos 0) o.tier thresholds
    pub positive : less (pos 0) o.threshold ≡ true
    pub above : less o.threshold o.lag ≡ true

  limit-back :
      (o : Overload) (lag threshold : ℤ)
      → o.lag ≡ lag
      → o.threshold ≡ threshold
      → less (pos 0) o.threshold ≡ true
      → less o.threshold o.lag ≡ true
      → limit o.tier lag threshold ≡ some o
  unfolding limit
  limit-back o lag threshold l t p a = rw (← l, ← t, p, a) refl

  limit-forth :
      (tier : String) (lag threshold : ℤ) (o : Overload)
      → limit tier lag threshold ≡ some o
      → (o ≡ record { tier = tier; lag = lag; threshold = threshold })
        × (less (pos 0) threshold ≡ true)
        × (less threshold lag ≡ true)
  unfolding limit
  limit-forth tier lag threshold o e = elim (Bool-cases (less (pos 0) threshold)) [
    | inr n ↦ cc (rw n at e)
    | inl p ↦ elim (Bool-cases (less threshold lag)) [
      | inr n ↦ cc (rw (p, n) at e)
      | inl a ↦ (cc (rw (p, a) at e), p, a)
    ]
  ]

  Overloads-limit :
      (req : HttpRequest) (o : Overload) (type tier : String)
      → req.method ≡ "POST"
      → req.full_path ≡ "/jobs"
      → decode_type req.body ≡ ok type
      → tier_for type ≡ some tier
      → limit tier (get ("jobs." <> tier) cache) (read (pos 0) tier thresholds) ≡ some o
      → Overloads req o
  Overloads-limit req o type tier m f d t e =
      let (q, p, a) = limit-forth tier _ _ o e in
      subst (Overloads req) (sym q) (record {
        post = m;
        jobs = f;
        type = type;
        decoded = d;
        tier_of = t;
        lag_of = refl;
        threshold_of = refl;
        positive = p;
        above = a;
      })

  -- The middleware stops a request exactly when it overloads its tier, and reports that tier with
  -- its lag and threshold.
  pub overloaded-Overloads :
      (req : HttpRequest) (o : Overload)
      → (overloaded decode_type cache thresholds req ≡ some o) ↔ Overloads req o
  unfolding overloaded
  overloaded-Overloads req o = (forth, back)
    where
      back : Overloads req o → overloaded decode_type cache thresholds req ≡ some o
      back v =
          rw
            (
              (eq_iff req.method "POST").1 v.post,
              (eq_iff req.full_path "/jobs").1 v.jobs,
              v.decoded,
              limit_decoded,
              v.tier_of,
              limit_tier,
            )
            (limit-back o _ _ v.lag_of v.threshold_of v.positive v.above)

      forth : overloaded decode_type cache thresholds req ≡ some o → Overloads req o
      forth e = elim (Bool-cases (str_eq req.method "POST")) [
        | inr n ↦ cc (rw n at e)
        | inl m ↦ elim (Bool-cases (str_eq req.full_path "/jobs")) [
          | inr n ↦ cc (rw (m, n) at e)
          | inl f ↦ elim (Result-cases (decode_type req.body)) [
            | inl (x, d) ↦ cc (rw (m, f, d, limit_decoded) at e)
            | inr (type, d) ↦ elim (Option-cases (tier_for type)) [
              | inl n ↦ cc (rw (m, f, d, limit_decoded, n, limit_tier) at e)
              | inr (tier, t) ↦
                  Overloads-limit req o type tier ((eq_iff _ _).0 m) ((eq_iff _ _).0 f) d t
                    (rw (m, f, d, limit_decoded, t, limit_tier) at e)
            ]
          ]
        ]
      ]
