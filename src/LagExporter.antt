-- ===== src/LagExporter.antt =====
-- cmd/kafka-lag-exporter/main.go: the exporter that measures each consumer group's lag. What it asks
-- the brokers through segmentio/kafka-go is a `Client`; `to_float` is the conversion to float64.
pub mod Offsets
pub mod Lag
pub mod Rounds
use processing_platform.Prelude.{
  ℕ, ◌+◌, ◌-◌, ◌%◌, String, ◌==◌, Bool, ◌&&◌, Option, none, some, List, [], ◌∷◌, ◌++◌, map, str_eq,
  ltb, if◌then◌else◌,
}
use processing_platform.Failure.{Result, ok, err}
use processing_platform.Codec.{Codec}
use processing_platform.GoMap.{GoMap, read, lookup, put}

-- `kafka.Topic`: its name and the numbers of its partitions.
pub record TopicMeta : Type 0 where
  pub name : String
  pub partitions : List ℕ

-- `kafka.PartitionOffsets`. An int64 is its residue modulo 2 ^ 64.
pub record PartitionOffsets : Type 0 where
  pub partition : ℕ
  pub last_offset : ℕ

-- `kafka.OffsetFetchPartition`.
pub record FetchedOffset : Type 0 where
  pub partition : ℕ
  pub committed_offset : ℕ

-- What the brokers answer in one round.
pub record Client : Type 0 where
  pub metadata : String → Result (List TopicMeta)
  pub list_offsets : String → List ℕ → Result (GoMap (List PartitionOffsets))
  pub offset_fetch : String → String → List ℕ → Result (GoMap (List FetchedOffset))

-- The labels of `lagGauge`.
pub record Labels : Type 0 where
  pub topic : String
  pub group : String
  pub partition : String

unfoldable pub same_labels : Labels → Labels → Bool
same_labels a b =
    str_eq a.topic b.topic && (str_eq a.group b.group && str_eq a.partition b.partition)

abbrev pub Gauge : Type 0
Gauge = List (Labels × ℕ)

-- `groupTopics`; Go ranges over a map in any order.
abbrev pub group_topics : List (String × String)
group_topics =
    ("worker-realtime", "jobs.realtime")
    ∷ ("worker-standard", "jobs.standard")
    ∷ ("worker-bulk", "jobs.bulk")
    ∷ []

abbrev pub two_63 : ℕ
two_63 = 9223372036854775808

abbrev pub two_64 : ℕ
two_64 = 18446744073709551616

-- `lag := end - committed`, and 0 where it is negative.
unfoldable pub lag : ℕ → ℕ → ℕ
lag end committed = let d = ((end + two_64) - committed) % two_64 in if ltb d two_63 then d else 0

unfoldable pub partition_ids : String → List TopicMeta → List ℕ
partition_ids topic [] = []
partition_ids topic (t ∷ ts) =
    let rest = partition_ids topic ts in if str_eq t.name topic then t.partitions ++ rest else rest

unfoldable pub end_offsets : List PartitionOffsets → List (ℕ × ℕ) → List (ℕ × ℕ)
end_offsets [] ends = ends
end_offsets (po ∷ pos) ends = end_offsets pos (put (λ a b. a == b) po.partition po.last_offset ends)

abbrev pub labels : Codec → String → String → ℕ → Labels
labels cx topic group pid = record { topic = topic; group = group; partition = cx.format_int pid }

module _ (cx : Codec) (to_float : ℕ → ℕ) where
  unfoldable pub set_lag : String → String → FetchedOffset → Option ℕ → Gauge → Gauge
  unfolding lag
  set_lag topic group po none gauge = gauge
  set_lag topic group po (some end) gauge =
      put same_labels (labels cx topic group po.partition) (to_float (lag end po.committed_offset))
        gauge

  -- The loop over the committed offsets.
  unfoldable pub set_lags : String → String → List (ℕ × ℕ) → List FetchedOffset → Gauge → Gauge
  unfolding set_lag
  set_lags topic group ends [] gauge = gauge
  set_lags topic group ends (po ∷ pos) gauge =
      set_lags topic group ends pos
        (set_lag topic group po (lookup (λ a b. a == b) po.partition ends) gauge)

  -- From the answer to OffsetFetch on.
  unfoldable pub collect_fetched :
      String
      → String
      → List (ℕ × ℕ)
      → Result (GoMap (List FetchedOffset))
      → Gauge
      → Result (Unit {0}) × Gauge
  unfolding set_lags
  collect_fetched topic group ends (err e) gauge = (err e, gauge)
  collect_fetched topic group ends (ok resp) gauge =
      (ok tt, set_lags topic group ends (read [] topic resp) gauge)

  -- From the answer to ListOffsets on.
  unfoldable pub collect_listed :
      Client
      → String
      → String
      → List ℕ
      → Result (GoMap (List PartitionOffsets))
      → Gauge
      → Result (Unit {0}) × Gauge
  unfolding collect_fetched
  collect_listed client topic group ids (err e) gauge = (err e, gauge)
  collect_listed client topic group ids (ok resp) gauge =
      collect_fetched topic group (end_offsets (read [] topic resp) [])
        (client.offset_fetch group topic ids) gauge

  unfoldable pub collect_partitions :
      Client → String → String → List ℕ → Gauge → Result (Unit {0}) × Gauge
  unfolding collect_listed
  collect_partitions client group topic [] gauge = (ok tt, gauge)
  collect_partitions client group topic (p ∷ ps) gauge =
      collect_listed client topic group (p ∷ ps) (client.list_offsets topic (p ∷ ps)) gauge

  unfoldable pub collect_topics :
      Client → String → String → Result (List TopicMeta) → Gauge → Result (Unit {0}) × Gauge
  unfolding collect_partitions
  collect_topics client group topic (err e) gauge = (err e, gauge)
  collect_topics client group topic (ok meta) gauge =
      collect_partitions client group topic (partition_ids topic meta) gauge

  -- `collectOne`.
  unfoldable pub collect_one : Client → String → String → Gauge → Result (Unit {0}) × Gauge
  unfolding collect_topics
  collect_one client group topic gauge =
      collect_topics client group topic (client.metadata topic) gauge

  -- `collectAll`: an error is logged, and the next group is measured.
  unfoldable pub collect_all : Client → List (String × String) → Gauge → Gauge
  unfolding collect_one
  collect_all client [] gauge = gauge
  collect_all client ((group, topic) ∷ pairs) gauge =
      collect_all client pairs (collect_one client group topic gauge).1
