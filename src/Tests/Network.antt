-- ===== src/Tests/Network.antt =====
-- The buckets of known nodes at a concrete bucket.
use py_evm.Prelude.{ℕ, ◌≡◌, refl, [], ◌∷◌, arith}
use py_evm.Kademlia.{has_node, Node, KBucket, midpoint, split}
use py_evm.Kademlia.Bucket.{IsBucket}
use py_evm.Kademlia.Kept.{in_either}
use py_evm.Kademlia.Split.{AreHalves, split-AreHalves}

abbrev node : ℕ → ℕ → Node
node pubkey id = record { pubkey = pubkey; id = id }

abbrev bucket : KBucket
bucket = record {
  start = 0;
  end = 255;
  nodes = node 1 200 ∷ node 2 127 ∷ node 3 9 ∷ [];
  replacement_cache = node 4 130 ∷ [];
}

bucket-IsBucket : IsBucket bucket
unfolding has_node
bucket-IsBucket = record {
  bounded = omega arith;
  distinct = (refl, (refl, (refl, tt)));
  within = (omega arith, omega arith, (omega arith, omega arith, (omega arith, omega arith, tt)));
}

upper_nodes : (split bucket).1.nodes ≡ node 1 200 ∷ []
unfolding split has_node
upper_nodes = refl

split-AreHalves_example :
    AreHalves 0 (midpoint bucket) 255 (split bucket)
    × ((x : Node) → in_either x (split bucket) ≡ has_node x bucket.nodes)
split-AreHalves_example = split-AreHalves bucket bucket-IsBucket
