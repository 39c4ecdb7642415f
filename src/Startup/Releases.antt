-- ===== src/Startup/Releases.antt =====
-- What a command leaves open.
use processing_platform.Prelude.{◌+◌, ◌≡◌, refl, ◌∙◌, inl, inr, true, List, [], ◌∷◌, arith}
use processing_platform.Failure.{Result, ok, err}
use processing_platform.Startup.{
  Resource, signals, redis, producer, consumer, mqtt, ticker, http_server, Setting, Act, closed,
  Held, Ended, ready, exited, Boot, ◌>>=◌, ◌>>◌, bind_ended, pure, closes, exit_on_error, call,
}
use processing_platform.Startup.Commands.{
  Command, api, worker, ingestion, reaper, retry_router, start_worker, start_api, start_ingestion,
  start_reaper, start_router, start, stop, close_all, run_defers, returns, nothing_held, main,
}
use processing_platform.Startup.Balance.{
  openings, closings, count, deferred, Balanced, Then, Moves, Moves-bind, Moves-opens, Moves-closes,
  Moves-using, Moves-exit, Moves-required, Moves-defers, Moves-stored, Moves-observed,
}
use processing_platform.Startup.Needs.{can_start}
use processing_platform.Startup.Starts.{start-can_start}

-- What `main` leaves to goroutines that it does not wait for: the consumers of the three tiers.
abbrev pub unwaited : Command → List Resource
unwaited api = []
unwaited worker = []
unwaited ingestion = []
unwaited reaper = []
unwaited retry_router = consumer ∷ consumer ∷ consumer ∷ []

module _ (r : Resource) where
  left_open : Command → List Resource
  left_open api = http_server ∷ []
  left_open worker = []
  left_open ingestion = []
  left_open reaper = []
  left_open retry_router = consumer ∷ consumer ∷ consumer ∷ []

  Moves-start : (cfg : Setting) (c : Command) → Moves r [] (left_open c) (start cfg c)
  unfolding start start_api start_worker start_ingestion start_reaper start_router left_open call
  Moves-start cfg api = Moves-bind r (Moves-required r cfg "POSTGRES_DSN" []) (λ _.
      Moves-bind r (Moves-required r cfg "REDIS_ADDR" []) (λ _.
        Moves-bind r (Moves-required r cfg "KAFKA_BROKERS" []) (λ _.
          Moves-bind r (Moves-using r signals []) (λ _. Moves-bind r (Moves-observed r cfg []) (λ _.
            Moves-bind r (Moves-stored r cfg []) (λ _. Moves-bind r (Moves-opens r redis []) (λ _.
              Moves-bind r (Moves-exit r _ (redis ∷ [])) (λ _.
                Moves-bind r (Moves-defers r redis []) (λ _.
                  Moves-bind r (Moves-using r producer [])
                    (λ _. Moves-opens r http_server []))))))))))
  Moves-start cfg worker = Moves-bind r (Moves-required r cfg "POSTGRES_DSN" []) (λ _.
      Moves-bind r (Moves-required r cfg "KAFKA_BROKERS" []) (λ _.
        Moves-bind r (Moves-using r signals []) (λ _. Moves-bind r (Moves-observed r cfg []) (λ _.
          Moves-bind r (Moves-stored r cfg [])
            (λ _. Moves-bind r (Moves-using r consumer []) (λ _. Moves-using r producer []))))))
  Moves-start cfg ingestion = Moves-bind r (Moves-required r cfg "KAFKA_BROKERS" []) (λ _.
      Moves-bind r (Moves-required r cfg "POSTGRES_DSN" []) (λ _.
        Moves-bind r (Moves-using r signals []) (λ _. Moves-bind r (Moves-using r producer []) (λ _.
          Moves-bind r (Moves-stored r cfg []) (λ _.
            Moves-bind r (Moves-exit r _ [])
              (λ _. Moves-bind r (Moves-using r mqtt []) (λ _. Moves-exit r _ [])))))))
  Moves-start cfg reaper = Moves-bind r (Moves-required r cfg "POSTGRES_DSN" []) (λ _.
      Moves-bind r (Moves-required r cfg "KAFKA_BROKERS" []) (λ _.
        Moves-bind r (Moves-using r signals []) (λ _.
          Moves-bind r (Moves-stored r cfg [])
            (λ _. Moves-bind r (Moves-using r producer []) (λ _. Moves-using r ticker [])))))
  Moves-start cfg retry_router = Moves-bind r (Moves-required r cfg "KAFKA_BROKERS" []) (λ _.
      Moves-bind r (Moves-using r signals []) (λ _. Moves-bind r (Moves-using r producer []) (λ _.
        Moves-bind r (Moves-opens r consumer []) (λ _.
          Moves-bind r (Moves-opens r consumer (consumer ∷ []))
            (λ _. Moves-opens r consumer (consumer ∷ consumer ∷ []))))))

  Moves-stop : (c : Command) → Moves r (left_open c) (unwaited c) (stop c)
  unfolding stop left_open pure
  Moves-stop api = Moves-closes r http_server []
  Moves-stop worker = record { at = λ h p. p }
  Moves-stop ingestion = record { at = λ h p. p }
  Moves-stop reaper = record { at = λ h p. p }
  Moves-stop retry_router = record { at = λ h p. p }

  close_all-counts :
      (rs : List Resource) (acts : List Act)
      → (openings r (close_all rs acts) ≡ openings r acts)
        × (closings r (close_all rs acts) ≡ closings r acts + count r rs)
  unfolding close_all openings closings count
  close_all-counts [] acts = (refl, omega arith)
  close_all-counts (s ∷ rs) acts =
      let (o, c) = close_all-counts rs (closed s ∷ acts) in (o, omega (arith, c))

  run_defers-counts :
      (ds : List (List Resource)) (acts : List Act)
      → (openings r (run_defers ds acts) ≡ openings r acts)
        × (closings r (run_defers ds acts) ≡ closings r acts + deferred r ds)
  unfolding run_defers deferred
  run_defers-counts [] acts = (refl, omega arith)
  run_defers-counts (rs ∷ ds) acts =
      let (o, c) = run_defers-counts ds (close_all rs acts) in
      let (o', c') = close_all-counts rs acts in (o ∙ o', omega (arith, c, c'))

  returns-Balanced :
      (l : List Resource) (x : Ended (Unit {0}) × Held)
      → Then r (Balanced r l) x
      → (returns x).0 ≡ ready tt
      → openings r (returns x).1.acts ≡ closings r (returns x).1.acts + count r l
  unfolding returns
  returns-Balanced l (exited n, h) p e = cc e
  returns-Balanced l (ready a, h) p e =
      let (o, c) = run_defers-counts h.defers h.acts in omega (arith, o, c, p)

  release-start :
      (cfg : Setting) (c : Command) (served : Result (Unit {0}))
      → Then r
          (Balanced r (unwaited c))
          ((start cfg c >> (exit_on_error served >> stop c)) nothing_held)
  unfolding openings closings count deferred
  release-start cfg c served =
      (Moves-bind r (Moves-start cfg c)
          (λ _. Moves-bind r (Moves-exit r served (left_open c)) (λ _. Moves-stop c))).at
        nothing_held refl

started :
    (cfg : Setting) (c : Command) → can_start cfg c ≡ true → (start cfg c nothing_held).0 ≡ ready tt
started cfg c can = elim (start-can_start cfg c nothing_held) [
  | inl (_, e) ↦ e
  | inr (cannot, _) ↦ cc (can, cannot)
]

served-ready :
    (c : Command) (served : Result (Unit {0}))
    → served ≡ ok tt
    → (h : Held) → ((exit_on_error served >> stop c) h).0 ≡ ready tt
unfolding exit_on_error stop pure closes ◌>>=◌
served-ready api (ok _) e h = refl
served-ready worker (ok _) e h = refl
served-ready ingestion (ok _) e h = refl
served-ready reaper (ok _) e h = refl
served-ready retry_router (ok _) e h = refl
served-ready c (err x) e h = cc e

ready-bind :
    (k : Boot (Unit {0})) (x : Ended (Unit {0}) × Held)
    → x.0 ≡ ready tt
    → ((h : Held) → (k h).0 ≡ ready tt)
    → (bind_ended x (λ _. k)).0 ≡ ready tt
ready-bind k (ready a, h) e r = r h
ready-bind k (exited n, h) e r = cc e

returns-ready : (x : Ended (Unit {0}) × Held) → x.0 ≡ ready tt → (returns x).0 ≡ ready tt
unfolding returns
returns-ready (ready a, h) e = refl
returns-ready (exited n, h) e = cc e

-- A command whose variables are set, whose servers answer and that is told to stop returns, and by
-- then it has closed each resource as often as it opened it, but for the retry router's three
-- consumers, whose closing it leaves to goroutines that it does not wait for.
pub main-releases :
    (cfg : Setting) (c : Command)
    → can_start cfg c ≡ true
    → let m = main cfg c (ok tt) in
      (m.0 ≡ ready tt)
      × ((r : Resource) → openings r m.1.acts ≡ closings r m.1.acts + count r (unwaited c))
unfolding main ◌>>=◌
main-releases cfg c can =
    let x = bind_ended (start cfg c nothing_held) (λ _. exit_on_error (ok tt) >> stop c) in
    let back = returns-ready x (
      ready-bind (exit_on_error (ok tt) >> stop c) (start cfg c nothing_held) (started cfg c can)
        (served-ready c (ok tt) refl)) in
    (back, λ r. returns-Balanced r (unwaited c) x (release-start r cfg c (ok tt)) back)
