-- ===== src/Kademlia/Split.antt =====
-- Splitting a bucket at its midpoint.
use py_evm.Prelude.{
  ℕ, ◌+◌, ◌≤◌, ◌≡◌, refl, ◌∙◌, inl, inr, true, List, [], ◌∷◌, ◌++◌, arith, leb, leb→le, Bool-cases,
}
use py_evm.Kademlia.{
  has_node, Node, KBucket, in_range, add, midpoint, split, share_nodes, share_cache, empty_bucket,
}
use py_evm.Kademlia.Kept.{in_either, in_either-share_nodes, in_either-share_cache}
use py_evm.Kademlia.Bucket.{IsBucket, Within, add-IsBucket, add_ends}

-- Two buckets that cover first to last, the one below the other.
pub record AreHalves (first mid last : ℕ) (p : KBucket × KBucket) : Type 0 where
  pub lower : IsBucket (p.0)
  pub upper : IsBucket (p.1)
  pub lower_first : p.0.start ≡ first
  pub lower_last : p.0.end ≡ mid
  pub upper_first : p.1.start ≡ mid + 1
  pub upper_last : p.1.end ≡ last

le-in_range : (n : Node) (b : KBucket) → b.start ≤ n.id → n.id ≤ b.end → in_range n b ≡ true
unfolding in_range
le-in_range n b h k = ground arith

share_nodes-AreHalves :
    (first mid last : ℕ) (ns : List Node) (p : KBucket × KBucket)
    → Within first last ns
    → AreHalves first mid last p
    → AreHalves first mid last (share_nodes mid ns p)
unfolding share_nodes
share_nodes-AreHalves first mid last [] (lower, upper) w h = h
share_nodes-AreHalves first mid last (n ∷ ns) (lower, upper) (p, q, w) h =
    elim (Bool-cases (leb n.id mid)) [
      | inl low ↦ rw low (
          share_nodes-AreHalves first mid last ns ((add n lower).1, upper) w
            record {
              lower =
                  add-IsBucket n lower
                    (le-in_range n lower (rw h.lower_first p)
                      (rw h.lower_last (leb→le n.id mid low)))
                    h.lower;
              upper = h.upper;
              lower_first = (add_ends n lower).0 ∙ h.lower_first;
              lower_last = (add_ends n lower).1 ∙ h.lower_last;
              upper_first = h.upper_first;
              upper_last = h.upper_last;
            })
      | inr high ↦ rw high (
          share_nodes-AreHalves first mid last ns (lower, (add n upper).1) w
            record {
              lower = h.lower;
              upper =
                  add-IsBucket n upper
                    (le-in_range n upper (rw h.upper_first (ground arith)) (rw h.upper_last q))
                    h.upper;
              lower_first = h.lower_first;
              lower_last = h.lower_last;
              upper_first = (add_ends n upper).0 ∙ h.upper_first;
              upper_last = (add_ends n upper).1 ∙ h.upper_last;
            })
    ]

share_cache-AreHalves :
    (first mid last : ℕ) (ns : List Node) (p : KBucket × KBucket)
    → AreHalves first mid last p
    → AreHalves first mid last (share_cache mid ns p)
unfolding share_cache
share_cache-AreHalves first mid last [] (lower, upper) h = h
share_cache-AreHalves first mid last (n ∷ ns) (lower, upper) h = elim (Bool-cases (leb n.id mid)) [
  | inl low ↦ rw low (
      share_cache-AreHalves first mid last ns
        (record lower { replacement_cache = lower.replacement_cache ++ n ∷ [] }, upper)
        record {
          lower = record {
            bounded = h.lower.bounded;
            distinct = h.lower.distinct;
            within = h.lower.within;
          };
          upper = h.upper;
          lower_first = h.lower_first;
          lower_last = h.lower_last;
          upper_first = h.upper_first;
          upper_last = h.upper_last;
        })
  | inr high ↦ rw high (
      share_cache-AreHalves first mid last ns
        (lower, record upper { replacement_cache = upper.replacement_cache ++ n ∷ [] })
        record {
          lower = h.lower;
          upper = record {
            bounded = h.upper.bounded;
            distinct = h.upper.distinct;
            within = h.upper.within;
          };
          lower_first = h.lower_first;
          lower_last = h.lower_last;
          upper_first = h.upper_first;
          upper_last = h.upper_last;
        })
]

split_ranges : (b : KBucket) → IsBucket b → AreHalves b.start (midpoint b) b.end (split b)
unfolding split
split_ranges b v =
    let mid = midpoint b in
    let halves : KBucket × KBucket = (empty_bucket b.start mid, empty_bucket (mid + 1) b.end) in
    share_cache-AreHalves b.start mid b.end b.replacement_cache (share_nodes mid b.nodes halves) (
      share_nodes-AreHalves b.start mid b.end b.nodes halves v.within record {
        lower = record { bounded = omega arith; distinct = tt; within = tt };
        upper = record { bounded = omega arith; distinct = tt; within = tt };
        lower_first = refl;
        lower_last = refl;
        upper_first = refl;
        upper_last = refl;
      })

in_either-split : (x : Node) (b : KBucket) → IsBucket b → in_either x (split b) ≡ has_node x b.nodes
unfolding split has_node
in_either-split x b v =
    let mid = midpoint b in
    let lower : KBucket = empty_bucket b.start mid in
    let upper : KBucket = empty_bucket (mid + 1) b.end in
    in_either-share_cache x mid b.replacement_cache ((share_nodes mid b.nodes (lower, upper)).0)
      ((share_nodes mid b.nodes (lower, upper)).1)
    ∙ in_either-share_nodes x mid b.nodes lower upper (omega (arith, v.bounded))
        (omega (arith, v.bounded))

-- If a bucket has at most k distinct nodes, each in its range, then so do both buckets that split
-- makes of it, their ranges are those up to the midpoint and above it, and a node is in one of them
-- if and only if it was in the bucket.
pub split-AreHalves :
    (b : KBucket)
    → IsBucket b
    → AreHalves b.start (midpoint b) b.end (split b)
      × ((x : Node) → in_either x (split b) ≡ has_node x b.nodes)
split-AreHalves b v = (split_ranges b v, λ x. in_either-split x b v)
