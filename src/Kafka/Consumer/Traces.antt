-- ===== src/Kafka/Consumer/Traces.antt =====
-- From internal/kafka/producer.go to internal/kafka/consumer.go: the trace in the headers.
use mathlib.Core.List.{append-nil}
use processing_platform.Prelude.{
  String, ◌≡◌, ◌≢◌, refl, sym, subst, ◌∙◌, inl, inr, Bool, true, List, [], ◌∷◌, ◌++◌, map, All,
  Distinct, str_eq, eq_iff, Bool-cases, any,
}
use processing_platform.Failure.{ok}
use processing_platform.World.{World, Message}
use processing_platform.World.Calm.{publish_with_header-calm, publish-calm}
use processing_platform.Kafka.{Carrier, get, set, inject, publish, publish_with_header}
use processing_platform.Kafka.Headers.{get-set}
use processing_platform.Kafka.Consumer.{Propagator, fetch_message_with_ctx}

-- The carrier has a header with the key.
abbrev has : String → Carrier → Bool
has k c = any (λ (h : String × String). str_eq h.0 k) c

get-++ : (c r : Carrier) (k : String) → has k c ≡ true → get (c ++ r) k ≡ get c k
unfolding get
get-++ [] r k h = cc h
get-++ ((j, v) ∷ c) r k h = elim (Bool-cases (str_eq j k)) [
  | inl e ↦ rw e refl
  | inr e ↦ rw e (get-++ c r k (rw e at h))
]

-- Injected pairs leave the other keys.
get-inject :
    (ps : List (String × String)) (c : Carrier) (k : String)
    → All (λ j. k ≢ j) (map (λ (f : String × String). f.0) ps)
    → (get (inject ps c) k ≡ get c k)
unfolding inject
get-inject [] c k a = refl
get-inject ((j, v) ∷ ps) c k (n, a) =
    get-inject ps (set j v c) k a ∙ get-set j v k c ∙ elim (Bool-cases (str_eq j k)) [
      | inl e ↦ absurd (n (sym ((eq_iff j k).0 e)))
      | inr e ↦ rw e refl
    ]

has-set : (k v j : String) (c : Carrier) → has j c ≡ true → has j (set k v c) ≡ true
unfolding set
has-set k v j [] h = cc h
has-set k v j ((i, u) ∷ c) h = elim (Bool-cases (str_eq i k)) [
  | inl e ↦ rw e h
  | inr e ↦ elim (Bool-cases (str_eq i j)) [
    | inl q ↦ rw (e, q) refl
    | inr q ↦ rw (e, q) (has-set k v j c (rw q at h))
  ]
]

has-set_self : (k v : String) (c : Carrier) → has k (set k v c) ≡ true
unfolding set
has-set_self k v [] = rw ((eq_iff k k).1 refl) refl
has-set_self k v ((i, u) ∷ c) = elim (Bool-cases (str_eq i k)) [
  | inl e ↦ rw (e, e) refl
  | inr e ↦ rw (e, e) (has-set_self k v c)
]

has-inject :
    (ps : List (String × String)) (c : Carrier) (j : String)
    → has j c ≡ true
    → has j (inject ps c) ≡ true
unfolding inject
has-inject [] c j h = h
has-inject ((k, v) ∷ ps) c j h = has-inject ps (set k v c) j (has-set k v j c h)

-- Every injected pair is read back, also with more headers behind.
reads-inject :
    (ps : List (String × String)) (c r : Carrier)
    → Distinct (map (λ (f : String × String). f.0) ps)
    → All (λ (f : String × String). get (inject ps c ++ r) f.0 ≡ f.1) ps
unfolding inject
reads-inject [] c r d = tt
reads-inject ((k, v) ∷ ps) c r (n, d) = (
  get-++ (inject ps (set k v c)) r k (has-inject ps (set k v c) k (has-set_self k v c))
      ∙ get-inject ps (set k v c) k n
      ∙ get-set k v k c
      ∙ rw ((eq_iff k k).1 refl) refl,
  reads-inject ps (set k v c) r d,
)

-- A fetch of the message extracts from a carrier that answers each of these fields.
abbrev pub Carries : (pr : Propagator) → pr.Context → List (String × String) → Message → Type 0
Carries pr base fields msg =
    (read : String → String) × (fetch_message_with_ctx pr base (ok msg)
      ≡ (ok msg, pr.extract base read))
    × All (λ (f : String × String). read f.0 ≡ f.1) fields

module _ (pr : Propagator) (base : pr.Context) where
  carries :
      (fields : List (String × String)) (msg : Message) (r : Carrier)
      → Distinct (map (λ (f : String × String). f.0) fields)
      → msg.headers ≡ inject fields [] ++ r
      → Carries pr base fields msg
  unfolding fetch_message_with_ctx
  carries fields msg r d e = (
    λ k. get msg.headers k,
    refl,
    subst (λ hs. All (λ (f : String × String). get hs f.0 ≡ f.1) fields) (sym e)
        (reads-inject fields [] r d),
  )

  -- Where every request is delivered at once, a message that is published in a trace whose fields
  -- have distinct keys, with or without a header of its own as those of the retry topics have, is
  -- the newest one, and a fetch of it extracts the context from a carrier that answers each of
  -- these fields with its value.
  pub fetch-publish :
      (topic key value hk hv : String) (w : World)
      → w.env ≡ []
      → Distinct (map (λ (f : String × String). f.0) w.trace)
      → ((msg : Message) × (w' : World) × (publish topic key value w ≡ (ok tt, w'))
          × (w'.outbox ≡ msg ∷ w.outbox)
          × Carries pr base w.trace msg)
        × ((msg : Message) × (w' : World) × (publish_with_header topic key value hk hv w
              ≡ (ok tt, w'))
            × (w'.outbox ≡ msg ∷ w.outbox)
            × Carries pr base w.trace msg)
  fetch-publish topic key value hk hv w calm d = (
    (_, _, publish-calm topic key value w calm, refl, carries w.trace _ [] d (sym (append-nil _))),
    (
      _,
      _,
      publish_with_header-calm topic key value hk hv w calm,
      refl,
      carries w.trace _ ((hk, hv) ∷ []) d refl,
    ),
  )
