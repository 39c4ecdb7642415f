-- ===== src/LagCache/Latest.antt =====
-- What the cache answers after any polls.
use processing_platform.Prelude.{
  ℕ, String, ◌≡◌, refl, inl, inr, Option, none, some, List, [], ◌∷◌, str_eq, if◌then◌else◌,
  Bool-cases, later_of,
}
use processing_platform.Failure.{Result, ok, err}
use processing_platform.Codec.{ℤ, pos}
use processing_platform.GoMap.{GoMap, read, read-write}
use processing_platform.LagCache.{
  PromSample, PromResp, PromCodec, LagCache, empty, get, value_text, store_parsed, store_sample,
  collect, refresh_decoded, refresh, run,
}

module _ (pc : PromCodec) where
  -- The value that a sample reports for a topic.
  reported_as : String → String → Option ℕ → Option ℤ
  reported_as topic name none = none
  reported_as topic name (some v) = if str_eq name topic then some (pc.to_int64 v) else none

  reported : String → PromSample → Option ℤ
  reported topic r =
      reported_as topic (read "" "topic" r.metric) (pc.parse_float (value_text r.value))

  or_else : ℤ → Option ℤ → ℤ
  or_else d none = d
  or_else d (some v) = v

  -- The last report among the samples.
  last_report : String → List PromSample → Option ℤ
  last_report topic [] = none
  last_report topic (r ∷ rs) = later_of (last_report topic rs) (reported topic r)

  -- The samples of a poll, if it was answered with a success.
  good_resp : Result PromResp → Option (List PromSample)
  good_resp (err e) = none
  good_resp (ok pr) = if str_eq pr.status "success" then some pr.result else none

  good : Result String → Option (List PromSample)
  unfolding good_resp
  good (err e) = none
  good (ok body) = good_resp (pc.decode body)

  -- The samples of the last such poll.
  last_good : List (Result String) → Option (List PromSample)
  last_good [] = none
  last_good (p ∷ ps) = later_of (last_good ps) (good p)

  expected_of : String → Option (List PromSample) → ℤ
  expected_of topic none = pos 0
  expected_of topic (some rs) = or_else (pos 0) (last_report topic rs)

  -- The last report on the topic in the last good poll, and 0 where there is none.
  pub expected : String → List (Result String) → ℤ
  unfolding expected_of
  expected topic polls = expected_of topic (last_good polls)

  read-store_parsed :
      (topic name : String) (o : Option ℕ) (next : GoMap ℤ)
      → read (pos 0) topic (store_parsed pc name o next)
        ≡ or_else (read (pos 0) topic next) (reported_as topic name o)
  unfolding store_parsed reported_as or_else
  read-store_parsed topic name none next = refl
  read-store_parsed topic name (some v) next =
      rw (read-write (pos 0) name topic (pc.to_int64 v) next)
        (elim (Bool-cases (str_eq name topic)) [ inl e ↦ rw e refl | inr e ↦ rw e refl ])

  or_else-later_of : (d : ℤ) (a b : Option ℤ) → or_else (or_else d b) a ≡ or_else d (later_of a b)
  unfolding or_else
  or_else-later_of d none b = refl
  or_else-later_of d (some v) b = refl

  read-collect :
      (topic : String) (rs : List PromSample) (next : GoMap ℤ)
      → read (pos 0) topic (collect pc rs next)
        ≡ or_else (read (pos 0) topic next) (last_report topic rs)
  unfolding collect last_report reported store_sample
  read-collect topic [] next = unfold or_else in refl
  read-collect topic (r ∷ rs) next =
      rw (read-collect topic rs (store_sample pc r next), read-store_parsed topic _ _ next)
        (or_else-later_of _ (last_report topic rs) _)

  cached : Option (List PromSample) → LagCache → LagCache
  cached none c = c
  cached (some rs) c = record { lag = collect pc rs [] }

  refresh-good : (p : Result String) (c : LagCache) → refresh pc p c ≡ cached (good p) c
  unfolding refresh good cached
  refresh-good (err e) c = refl
  refresh-good (ok body) c = decoded (pc.decode body)
    where
      decoded : (d : Result PromResp) → refresh_decoded pc d c ≡ cached (good_resp d) c
      decoded (err e) = refl
      decoded (ok pr) = elim (Bool-cases (str_eq pr.status "success")) [
        | inl t ↦ rw t refl
        | inr n ↦ rw n refl
      ]

  cached-later_of :
      (a b : Option (List PromSample)) (c : LagCache)
      → cached a (cached b c) ≡ cached (later_of a b) c
  unfolding cached
  cached-later_of none b c = refl
  cached-later_of (some rs) b c = refl

  run-last_good : (ps : List (Result String)) (c : LagCache) → run pc ps c ≡ cached (last_good ps) c
  unfolding run last_good
  run-last_good [] c = unfold cached in refl
  run-last_good (p ∷ ps) c =
      rw (run-last_good ps (refresh pc p c), refresh-good p c)
        (cached-later_of (last_good ps) (good p) c)

  get-cached :
      (topic : String) (o : Option (List PromSample))
      → get topic (cached o empty) ≡ expected_of topic o
  unfolding get cached expected_of read
  get-cached topic none = refl
  get-cached topic (some rs) = read-collect topic rs []

  -- After any polls, failed ones among them, the cache answers for each topic the last report of
  -- the last poll that was answered with a success, and 0 where that poll reports nothing that
  -- parses or no poll has succeeded.
  pub get-run :
      (topic : String) (polls : List (Result String))
      → get topic (run pc polls empty) ≡ expected topic polls
  unfolding expected
  get-run topic polls = rw (run-last_good polls empty) (get-cached topic (last_good polls))
