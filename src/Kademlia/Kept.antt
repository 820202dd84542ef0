-- ===== src/Kademlia/Kept.antt =====
-- A split of a bucket loses no node and brings in none.
use py_evm.Prelude.{
  ℕ, ◌+◌, ◌≤◌, ◌<◌, ◌≡◌, refl, ◌∙◌, inl, inr, Bool, ◌||◌, List, [], ◌∷◌, ◌++◌, arith, length,
  length-append, leb, lt→ltb, Bool-cases,
}
use py_evm.Kademlia.{
  Node, KBucket, k_bucket_size, same_node, has_node, remove_first, add, share_nodes, share_cache,
}
use py_evm.Kademlia.Bucket.{has_node-append, add-there, add-room, length-remove_first}

has_node-remove_first_or :
    (x n : Node) (ns : List Node)
    → (has_node x (remove_first n ns) || same_node n x) ≡ (has_node x ns || same_node n x)
unfolding has_node remove_first
has_node-remove_first_or x n [] = refl
has_node-remove_first_or x n (m ∷ ms) = ground (arith, has_node-remove_first_or x n ms)

has_node-add :
    (x n : Node) (b : KBucket)
    → length b.nodes < k_bucket_size
    → has_node x ((add n b).1.nodes) ≡ (has_node x b.nodes || same_node n x)
has_node-add x n b room = elim (Bool-cases (has_node n b.nodes)) [
  | inl there ↦
      rw (add-there n b there)
        (has_node-append x n (remove_first n b.nodes) ∙ has_node-remove_first_or x n b.nodes)
  | inr fresh ↦
      rw (add-room n b fresh (lt→ltb (length b.nodes) 16 room)) (has_node-append x n b.nodes)
]

length-add :
    (n : Node) (b : KBucket)
    → length b.nodes < k_bucket_size
    → length ((add n b).1.nodes) ≤ length b.nodes + 1
length-add n b room = elim (Bool-cases (has_node n b.nodes)) [
  | inl there ↦
      rw (add-there n b there, length-append (remove_first n b.nodes) (n ∷ []))
        (omega (arith, length-remove_first n b.nodes there))
  | inr fresh ↦
      rw (add-room n b fresh (lt→ltb (length b.nodes) 16 room), length-append b.nodes (n ∷ []))
        (omega arith)
]

abbrev pub in_either : Node → KBucket × KBucket → Bool
in_either x (lower, upper) = has_node x lower.nodes || has_node x upper.nodes

pub in_either-share_nodes :
    (x : Node) (mid : ℕ) (ns : List Node) (lower upper : KBucket)
    → length lower.nodes + length ns ≤ k_bucket_size
    → length upper.nodes + length ns ≤ k_bucket_size
    → in_either x (share_nodes mid ns (lower, upper))
      ≡ (in_either x (lower, upper) || has_node x ns)
unfolding share_nodes has_node
in_either-share_nodes x mid [] lower upper h k = ground arith
in_either-share_nodes x mid (n ∷ ns) lower upper h k = elim (Bool-cases (leb n.id mid)) [
  | inl low ↦ rw low (
      in_either-share_nodes x mid ns ((add n lower).1) upper
        (omega (arith, h, length-add n lower (omega (arith, h)))) (omega (arith, k))
      ∙ ground (arith, has_node-add x n lower (omega (arith, h))))
  | inr high ↦ rw high (
      in_either-share_nodes x mid ns lower ((add n upper).1) (omega (arith, h))
        (omega (arith, k, length-add n upper (omega (arith, k))))
      ∙ ground (arith, has_node-add x n upper (omega (arith, k))))
]

pub in_either-share_cache :
    (x : Node) (mid : ℕ) (ns : List Node) (lower upper : KBucket)
    → in_either x (share_cache mid ns (lower, upper)) ≡ in_either x (lower, upper)
unfolding share_cache
in_either-share_cache x mid [] lower upper = refl
in_either-share_cache x mid (n ∷ ns) lower upper = elim (Bool-cases (leb n.id mid)) [
  | inl low ↦ rw low (
      in_either-share_cache x mid ns
        (record lower { replacement_cache = lower.replacement_cache ++ n ∷ [] }) upper)
  | inr high ↦ rw high (
      in_either-share_cache x mid ns lower
        (record upper { replacement_cache = upper.replacement_cache ++ n ∷ [] }))
]
