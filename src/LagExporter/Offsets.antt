-- ===== src/LagExporter/Offsets.antt =====
-- The offsets of a partition in what the brokers answer, and the labels of the gauge.
use processing_platform.Prelude.{
  ℕ, ◌-◌, ◌<◌, String, ◌≡◌, ◌↔◌, refl, inl, inr, arith, true, Option, none, some, List, [], ◌∷◌,
  ◌==◌, ==_iff, eq_iff, if◌then◌else◌, Bool-cases, later_of,
}
use processing_platform.Codec.{Codec}
use processing_platform.GoMap.{lookup, lookup-put}
use processing_platform.LagExporter.{
  PartitionOffsets, FetchedOffset, Labels, same_labels, lag, two_63, end_offsets, labels,
}

-- On offsets from 0 up to 2^63 the lag that the exporter computes in 64 bits is their difference, and 0
-- where the committed one is ahead.
pub lag-difference :
    (end committed : ℕ) → end < two_63 → committed < two_63 → lag end committed ≡ end - committed
unfolding lag
lag-difference end committed e c = ground arith

pub same_labels_iff : (a b : Labels) → (same_labels a b ≡ true) ↔ (a ≡ b)
unfolding same_labels
same_labels_iff a b =
    ground (arith, eq_iff a.topic b.topic, eq_iff a.group b.group, eq_iff a.partition b.partition)

module _ (cx : Codec) where
  format_int_injective : (p q : ℕ) → cx.format_int p ≡ cx.format_int q → p ≡ q
  format_int_injective p q e = cc (cx.parse-format_int p, cx.parse-format_int q, e)

  pub same_labels-partition :
      (topic group : String) (q p : ℕ)
      → same_labels (labels cx topic group q) (labels cx topic group p) ≡ (q == p)
  unfolding same_labels
  same_labels-partition topic group q p = ground (
    arith,
    eq_iff topic topic,
    eq_iff group group,
    eq_iff (cx.format_int q) (cx.format_int p),
    format_int_injective q p,
    ==_iff q p,
  )

-- The last end offset listed for a partition, and the last committed one.
pub end_of : ℕ → List PartitionOffsets → Option ℕ
end_of p [] = none
end_of p (po ∷ pos) =
    later_of (end_of p pos) (if po.partition == p then some po.last_offset else none)

unfoldable pub committed_of : ℕ → List FetchedOffset → Option ℕ
committed_of p [] = none
committed_of p (po ∷ pos) =
    later_of (committed_of p pos) (if po.partition == p then some po.committed_offset else none)

later_of-later_of :
    {A : Type 0} (a b c : Option A) → later_of a (later_of b c) ≡ later_of (later_of a b) c
later_of-later_of none b c = refl
later_of-later_of (some v) b c = refl

pub lookup-end_offsets :
    (p : ℕ) (pos : List PartitionOffsets) (ends : List (ℕ × ℕ))
    → lookup (λ a b. a == b) p (end_offsets pos ends)
      ≡ later_of (end_of p pos) (lookup (λ a b. a == b) p ends)
unfolding end_offsets end_of
lookup-end_offsets p [] ends = refl
lookup-end_offsets p (po ∷ pos) ends =
    rw
      (
        lookup-end_offsets p pos _,
        lookup-put (λ a b. a == b) ==_iff po.partition p po.last_offset ends,
      )
      (elim (Bool-cases (po.partition == p)) [
        | inl e ↦ rw e (later_of-later_of (end_of p pos) _ _)
        | inr e ↦ rw e (later_of-later_of (end_of p pos) _ _)
      ])
