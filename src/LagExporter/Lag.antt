-- ===== src/LagExporter/Lag.antt =====
-- What one group's measurement leaves in the gauge.
use processing_platform.Prelude.{
  ℕ, String, ◌≡◌, refl, ap, ◌∙◌, inl, inr, Option, none, some, List, [], ◌∷◌, ◌==◌, ==_iff,
  if◌then◌else◌, Bool-cases, later_of,
}
use processing_platform.Failure.{Result, ok, err}
use processing_platform.Codec.{Codec}
use processing_platform.GoMap.{GoMap, read, lookup, lookup-put}
use processing_platform.LagExporter.{
  TopicMeta, PartitionOffsets, FetchedOffset, Client, same_labels, Gauge, lag, partition_ids,
  end_offsets, labels, set_lag, set_lags, collect_fetched, collect_listed, collect_partitions,
  collect_topics, collect_one,
}
use processing_platform.LagExporter.Offsets.{
  same_labels_iff, same_labels-partition, end_of, committed_of, lookup-end_offsets,
}

module _ (cx : Codec) (to_float : ℕ → ℕ) where
  lag_of : Option ℕ → Option ℕ → Option ℕ
  lag_of none end = none
  lag_of (some committed) none = none
  lag_of (some committed) (some end) = some (to_float (lag end committed))

  later_of-lag_of :
      (c d e old : Option ℕ)
      → later_of (lag_of c e) (later_of (lag_of d e) old) ≡ later_of (lag_of (later_of c d) e) old
  unfolding lag_of
  later_of-lag_of none d e old = refl
  later_of-lag_of (some c) none none old = refl
  later_of-lag_of (some c) (some d) none old = refl
  later_of-lag_of (some c) d (some e) old = refl

  module _ (topic group : String) (p : ℕ) where
    unfoldable pub shows : Gauge → Option ℕ
    shows gauge = lookup same_labels (labels cx topic group p) gauge

    shows-put :
        (po : FetchedOffset) (end : Option ℕ) (gauge : Gauge)
        → shows (set_lag cx to_float topic group po end gauge)
          ≡ later_of
              (lag_of (if po.partition == p then some po.committed_offset else none) end)
              (shows gauge)
    unfolding shows set_lag lag_of
    shows-put po none gauge = elim (Bool-cases (po.partition == p)) [
      | inl e ↦ rw e refl
      | inr e ↦ rw e refl
    ]
    shows-put po (some end) gauge =
        rw
          (
            lookup-put same_labels same_labels_iff (labels cx topic group po.partition)
                (labels cx topic group p) (to_float (lag end po.committed_offset)) gauge,
            same_labels-partition cx topic group po.partition p,
          )
          (elim (Bool-cases (po.partition == p)) [ inl e ↦ rw e refl | inr e ↦ rw e refl ])

    shows-set_lag :
        (po : FetchedOffset) (ends : List (ℕ × ℕ)) (gauge : Gauge)
        → shows
            (set_lag cx to_float topic group po (lookup (λ a b. a == b) po.partition ends) gauge)
          ≡ later_of
              (lag_of
                (if po.partition == p then some po.committed_offset else none)
                (lookup (λ a b. a == b) p ends))
              (shows gauge)
    shows-set_lag po ends gauge = elim (Bool-cases (po.partition == p)) [
      | inl e ↦
          let q : po.partition ≡ p = (==_iff po.partition p).0 e in
          shows-put po (lookup (λ a b. a == b) po.partition ends) gauge
          ∙ ap
              (λ i.
                later_of
                  (lag_of (if po.partition == p then some po.committed_offset else none)
                    (lookup (λ a b. a == b) i ends))
                  (shows gauge))
              q
      | inr e ↦
          rw (shows-put po (lookup (λ a b. a == b) po.partition ends) gauge, e)
            (unfold lag_of in refl)
    ]

    shows-set_lags :
        (ends : List (ℕ × ℕ)) (fetched : List FetchedOffset) (gauge : Gauge)
        → shows (set_lags cx to_float topic group ends fetched gauge)
          ≡ later_of (lag_of (committed_of p fetched) (lookup (λ a b. a == b) p ends)) (shows gauge)
    unfolding set_lags committed_of
    shows-set_lags ends [] gauge = unfold lag_of in refl
    shows-set_lags ends (po ∷ pos) gauge =
        rw (shows-set_lags ends pos _, shows-set_lag po ends gauge)
          (later_of-lag_of (committed_of p pos) _ _ _)

    -- What the brokers list and what the group has committed, where all three requests are answered
    -- and the topic has a partition.
    answers_fetched :
        List PartitionOffsets
        → Result (GoMap (List FetchedOffset))
        → Option (List PartitionOffsets × List FetchedOffset)
    answers_fetched ends (err e) = none
    answers_fetched ends (ok resp) = some (ends, read [] topic resp)

    answers_listed :
        Client
        → List ℕ
        → Result (GoMap (List PartitionOffsets))
        → Option (List PartitionOffsets × List FetchedOffset)
    unfolding answers_fetched
    answers_listed client ids (err e) = none
    answers_listed client ids (ok resp) =
        answers_fetched (read [] topic resp) (client.offset_fetch group topic ids)

    answers_ids : Client → List ℕ → Option (List PartitionOffsets × List FetchedOffset)
    unfolding answers_listed
    answers_ids client [] = none
    answers_ids client (i ∷ is) =
        answers_listed client (i ∷ is) (client.list_offsets topic (i ∷ is))

    answers : Client → Result (List TopicMeta) → Option (List PartitionOffsets × List FetchedOffset)
    unfolding answers_ids
    answers client (err e) = none
    answers client (ok meta) = answers_ids client (partition_ids topic meta)

    measured_of : Option (List PartitionOffsets × List FetchedOffset) → Option ℕ
    unfolding lag_of
    measured_of none = none
    measured_of (some (ends, fetched)) = lag_of (committed_of p fetched) (end_of p ends)

    -- The lag of the partition that a round measures.
    pub measured : Client → Option ℕ
    unfolding measured_of answers
    measured client = measured_of (answers client (client.metadata topic))

    later_of-none : {A : Type 0} (a : Option A) → later_of a none ≡ a
    later_of-none none = refl
    later_of-none (some v) = refl

    shows-collect_fetched :
        (ends : List PartitionOffsets) (r : Result (GoMap (List FetchedOffset))) (gauge : Gauge)
        → shows (collect_fetched cx to_float topic group (end_offsets ends []) r gauge).1
          ≡ later_of (measured_of (answers_fetched ends r)) (shows gauge)
    unfolding collect_fetched measured_of answers_fetched
    shows-collect_fetched ends (err e) gauge = refl
    shows-collect_fetched ends (ok resp) gauge =
        rw
          (
            shows-set_lags (end_offsets ends []) (read [] topic resp) gauge,
            lookup-end_offsets p ends [],
          )
          (unfold lookup in rw (later_of-none (end_of p ends)) refl)

    shows-collect_listed :
        (client : Client) (ids : List ℕ) (r : Result (GoMap (List PartitionOffsets)))
        (gauge : Gauge)
        → shows (collect_listed cx to_float client topic group ids r gauge).1
          ≡ later_of (measured_of (answers_listed client ids r)) (shows gauge)
    unfolding collect_listed measured_of answers_listed
    shows-collect_listed client ids (err e) gauge = refl
    shows-collect_listed client ids (ok resp) gauge =
        shows-collect_fetched (read [] topic resp) (client.offset_fetch group topic ids) gauge

    shows-collect_topics :
        (client : Client) (r : Result (List TopicMeta)) (gauge : Gauge)
        → shows (collect_topics cx to_float client group topic r gauge).1
          ≡ later_of (measured_of (answers client r)) (shows gauge)
    unfolding collect_topics collect_partitions measured_of answers answers_ids
    shows-collect_topics client (err e) gauge = refl
    shows-collect_topics client (ok meta) gauge = of_ids (partition_ids topic meta)
      where
        of_ids :
            (ids : List ℕ)
            → shows (collect_partitions cx to_float client group topic ids gauge).1
              ≡ later_of (measured_of (answers_ids client ids)) (shows gauge)
        of_ids [] = refl
        of_ids (i ∷ is) =
            shows-collect_listed client (i ∷ is) (client.list_offsets topic (i ∷ is)) gauge

    pub shows-collect_one :
        (client : Client) (gauge : Gauge)
        → shows (collect_one cx to_float client group topic gauge).1
          ≡ later_of (measured client) (shows gauge)
    unfolding collect_one measured
    shows-collect_one client gauge = shows-collect_topics client (client.metadata topic) gauge
