-- ===== src/Kademlia.antt =====
-- p2p/kademlia.py: the buckets of known nodes, and the table of buckets. A node is compared by its
-- public key; the time of the last update is left out.
pub mod Bucket
pub mod Split
pub mod Kept
use py_evm.Prelude.{
  ℕ, ◌+◌, ◌-◌, ◌/◌, Bool, false, ◌&&◌, ◌||◌, Option, none, some, List, [], ◌∷◌, ◌++◌, length, ltb,
  leb, ◌==◌, if◌then◌else◌,
}

pub record Node : Type 0 where
  pub pubkey : ℕ
  pub id : ℕ

pub record KBucket : Type 0 where
  pub start : ℕ
  pub end : ℕ
  pub nodes : List Node
  pub replacement_cache : List Node

abbrev pub k_bucket_size : ℕ
k_bucket_size = 16

abbrev pub same_node : Node → Node → Bool
same_node n m = n.pubkey == m.pubkey

-- `node in nodes`
unfoldable pub has_node : Node → List Node → Bool
has_node n [] = false
has_node n (m ∷ ms) = same_node m n || has_node n ms

-- `nodes.remove(node)`, of a node that is there
unfoldable pub remove_first : Node → List Node → List Node
remove_first n [] = []
remove_first n (m ∷ ms) = if same_node m n then ms else m ∷ remove_first n ms

-- The division rounds down, also for an end below the start.
unfoldable pub midpoint : KBucket → ℕ
midpoint b =
    if leb b.start b.end
    then b.start + (b.end - b.start) / 2
    else b.start - (b.start - b.end + 1) / 2

unfoldable pub in_range : Node → KBucket → Bool
in_range n b = leb b.start n.id && leb n.id b.end

unfoldable pub is_full : KBucket → Bool
is_full b = length b.nodes == k_bucket_size

-- `KBucket.remove_node`
unfoldable pub remove_node : Node → KBucket → KBucket
remove_node n b = if has_node n b.nodes then record b { nodes = remove_first n b.nodes } else b

abbrev head : List Node → Option Node
head [] = none
head (n ∷ ns) = some n

-- `KBucket.add`: the candidate for eviction, if the bucket is full.
unfoldable pub add : Node → KBucket → Option Node × KBucket
add n b =
    if has_node n b.nodes
    then (none, record b { nodes = remove_first n b.nodes ++ n ∷ [] })
    else if ltb (length b.nodes) k_bucket_size
    then (none, record b { nodes = b.nodes ++ n ∷ [] })
    else (head b.nodes, record b { replacement_cache = b.replacement_cache ++ n ∷ [] })

abbrev pub empty_bucket : ℕ → ℕ → KBucket
empty_bucket start end = record { start = start; end = end; nodes = []; replacement_cache = [] }

-- The two loops of `split`.
unfoldable pub share_nodes : ℕ → List Node → KBucket × KBucket → KBucket × KBucket
unfolding add
share_nodes splitid [] (lower, upper) = (lower, upper)
share_nodes splitid (n ∷ ns) (lower, upper) =
    if leb n.id splitid
    then share_nodes splitid ns ((add n lower).1, upper)
    else share_nodes splitid ns (lower, (add n upper).1)

unfoldable pub share_cache : ℕ → List Node → KBucket × KBucket → KBucket × KBucket
share_cache splitid [] (lower, upper) = (lower, upper)
share_cache splitid (n ∷ ns) (lower, upper) =
    if leb n.id splitid
    then share_cache splitid ns
        (record lower { replacement_cache = lower.replacement_cache ++ n ∷ [] }, upper)
    else share_cache splitid ns
        (lower, record upper { replacement_cache = upper.replacement_cache ++ n ∷ [] })

-- `KBucket.split`
unfoldable pub split : KBucket → KBucket × KBucket
unfolding midpoint share_nodes share_cache
split b =
    let splitid = midpoint b in
    share_cache splitid b.replacement_cache
      (share_nodes splitid b.nodes (empty_bucket b.start splitid, empty_bucket (splitid + 1) b.end))
