-- ===== src/Kafka.antt =====
-- internal/kafka: the producer, and the carrier of trace headers.
pub mod Headers
pub mod Instrumented
pub mod Consumer
use processing_platform.Prelude.{String, List, [], ◌∷◌, ◌++◌, map, str_eq, if◌then◌else◌}
use processing_platform.Failure.{ok}
use processing_platform.World.{M, Message, request}

-- `kafkaHeaderCarrier`.
abbrev pub Carrier : Type 0
Carrier = List (String × String)

-- The first header with the key, or "".
unfoldable pub get : Carrier → String → String
get [] key = ""
get ((k, v) ∷ c) key = if str_eq k key then v else get c key

-- Replaces the first header with the key, or appends.
unfoldable pub set : String → String → Carrier → Carrier
set key val [] = (key, val) ∷ []
set key val ((k, v) ∷ c) = if str_eq k key then (k, val) ∷ c else (k, v) ∷ set key val c

unfoldable pub keys : Carrier → List String
keys c = map (λ h. h.0) c

-- What the propagator writes, pair by pair.
unfoldable pub inject : List (String × String) → Carrier → Carrier
unfolding set
inject [] c = c
inject ((k, v) ∷ ps) c = inject ps (set k v c)

-- The brokers hold one more message.
abbrev pub append : Message → M (Unit {0})
append m w = (ok tt, record w { outbox = m ∷ w.outbox })

-- `w.WriteMessages`: synchronous, and acknowledged by all replicas when it returns nil.
unfoldable pub write_messages : Message → M (Unit {0})
unfolding request
write_messages m = request λ _. append m

unfoldable pub publish : String → String → String → M (Unit {0})
unfolding write_messages inject
publish topic key value w =
    write_messages (record { topic = topic; key = key; value = value; headers = inject w.trace [] })
      w

unfoldable pub publish_with_header : String → String → String → String → String → M (Unit {0})
unfolding write_messages inject
publish_with_header topic key value header_key header_value w =
    write_messages
      (record {
        topic = topic;
        key = key;
        value = value;
        headers = inject w.trace [] ++ (header_key, header_value) ∷ [];
      })
      w
