-- ===== src/LagExporter/Rounds.antt =====
-- `collectAll`: a round over all groups, in any order.
use processing_platform.Prelude.{
  ℕ, String, ◌≡◌, refl, ◌∙◌, inl, inr, arith, false, Option, none, some, List, [], ◌∷◌, str_eq,
  Bool-cases, later_of, any, ap, ◌==◌,
}
use processing_platform.Failure.{Result, ok, err}
use processing_platform.Codec.{Codec}
use processing_platform.GoMap.{GoMap, read, lookup, put, lookup-put}
use processing_platform.LagExporter.{
  TopicMeta, PartitionOffsets, FetchedOffset, Client, same_labels, Gauge, lag, partition_ids,
  end_offsets, labels, set_lag, set_lags, collect_fetched, collect_listed, collect_partitions,
  collect_topics, collect_one, collect_all,
}
use processing_platform.LagExporter.Offsets.{same_labels_iff}
use processing_platform.LagExporter.Lag.{shows, measured, shows-collect_one}

-- The group is measured once in a round, for the topic.
pub data Once (group topic : String) : List (String × String) → Type 0 where
  here :
      {pairs : List (String × String)}
      → any (λ p. str_eq p.0 group) pairs ≡ false
      → Once group topic ((group, topic) ∷ pairs)
  later :
      {g t : String} {pairs : List (String × String)}
      → str_eq g group ≡ false
      → Once group topic pairs
      → Once group topic ((g, t) ∷ pairs)

module _ (cx : Codec) (to_float : ℕ → ℕ) where
  -- A measurement only sets gauges of its own topic and group.
  module _ (group topic : String) (Q : Gauge → Type 0)
      (keep : (p v : ℕ) (g : Gauge) → Q g → Q (put same_labels (labels cx topic group p) v g)) where
    Q-set_lags :
        (ends : List (ℕ × ℕ)) (fetched : List FetchedOffset) (gauge : Gauge)
        → Q gauge
        → Q (set_lags cx to_float topic group ends fetched gauge)
    unfolding set_lags set_lag
    Q-set_lags ends [] gauge q = q
    Q-set_lags ends (po ∷ pos) gauge q =
        Q-set_lags ends pos _ (one (lookup (λ a b. a == b) po.partition ends))
      where
        one : (end : Option ℕ) → Q (set_lag cx to_float topic group po end gauge)
        one none = q
        one (some end) = keep po.partition (to_float (lag end po.committed_offset)) gauge q

    Q-collect_listed :
        (client : Client) (ids : List ℕ) (r : Result (GoMap (List PartitionOffsets)))
        (gauge : Gauge)
        → Q gauge
        → Q (collect_listed cx to_float client topic group ids r gauge).1
    unfolding collect_listed collect_fetched
    Q-collect_listed client ids (err e) gauge q = q
    Q-collect_listed client ids (ok resp) gauge q = fetched (client.offset_fetch group topic ids)
      where
        fetched :
            (r : Result (GoMap (List FetchedOffset)))
            → Q
                (collect_fetched cx to_float topic group
                  (end_offsets (read [] topic resp) [])
                  r
                  gauge).1
        fetched (err e) = q
        fetched (ok pos) = Q-set_lags _ (read [] topic pos) gauge q

    Q-collect_one :
        (client : Client) (gauge : Gauge)
        → Q gauge
        → Q (collect_one cx to_float client group topic gauge).1
    unfolding collect_one collect_topics collect_partitions
    Q-collect_one client gauge q = of_meta (client.metadata topic)
      where
        of_ids : (ids : List ℕ) → Q (collect_partitions cx to_float client group topic ids gauge).1
        of_ids [] = q
        of_ids (i ∷ is) =
            Q-collect_listed client (i ∷ is) (client.list_offsets topic (i ∷ is)) gauge q

        of_meta :
            (r : Result (List TopicMeta))
            → Q (collect_topics cx to_float client group topic r gauge).1
        of_meta (err e) = q
        of_meta (ok meta) = of_ids (partition_ids topic meta)

  module _ (client : Client) (group topic : String) (p : ℕ) where
    other_labels :
        (g t : String) (q : ℕ)
        → str_eq g group ≡ false
        → same_labels (labels cx t g q) (labels cx topic group p) ≡ false
    unfolding same_labels
    other_labels g t q n = ground (arith, n)

    shows-collect_one-other :
        (g t : String) (gauge : Gauge)
        → str_eq g group ≡ false
        → shows cx to_float topic group p (collect_one cx to_float client g t gauge).1
          ≡ shows cx to_float topic group p gauge
    unfolding shows
    shows-collect_one-other g t gauge n =
        Q-collect_one g t
          (λ h. shows cx to_float topic group p h ≡ shows cx to_float topic group p gauge)
          (λ q v h e.
            rw
              (
                lookup-put same_labels same_labels_iff (labels cx t g q) (labels cx topic group p) v
                    h,
                other_labels g t q n,
              )
              e)
          client gauge refl

    shows-others :
        (pairs : List (String × String)) (gauge : Gauge)
        → any (λ q. str_eq q.0 group) pairs ≡ false
        → shows cx to_float topic group p (collect_all cx to_float client pairs gauge)
          ≡ shows cx to_float topic group p gauge
    unfolding collect_all
    shows-others [] gauge n = refl
    shows-others ((g, t) ∷ pairs) gauge n = elim (Bool-cases (str_eq g group)) [
      | inl y ↦ cc (rw y at n)
      | inr f ↦ shows-others pairs _ (rw f at n) ∙ shows-collect_one-other g t gauge f
    ]

    -- A round, whatever the order in which it measures the groups and whatever fails for the others,
    -- leaves a measured group's gauge at the lag of the partition, or as it was where a request for
    -- the group failed or the brokers have no offsets of the partition.
    pub collect_all-lag :
        (pairs : List (String × String)) (gauge : Gauge)
        → Once group topic pairs
        → shows cx to_float topic group p (collect_all cx to_float client pairs gauge)
          ≡ later_of
              (measured cx to_float topic group p client)
              (shows cx to_float topic group p gauge)
    unfolding collect_all
    collect_all-lag _ gauge (here {pairs = pairs} n) =
        shows-others pairs _ n ∙ shows-collect_one cx to_float topic group p client gauge
    collect_all-lag _ gauge (later {g = g} {t = t} {pairs = pairs} n once) =
        collect_all-lag pairs _ once ∙ ap (later_of _) (shows-collect_one-other g t gauge n)
