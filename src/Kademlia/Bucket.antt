-- ===== src/Kademlia/Bucket.antt =====
-- What every call on a bucket keeps: no more than k nodes, each once, and each in the range.
use py_evm.Prelude.{
  ℕ, ◌+◌, ◌≤◌, ◌≡◌, refl, inl, inr, true, false, ◌||◌, none, List, [], ◌∷◌, ◌++◌, arith, length,
  length-append, ltb, ltb→lt, Bool-cases,
}
use py_evm.Kademlia.{
  Node, KBucket, k_bucket_size, same_node, has_node, remove_first, in_range, remove_node, add,
}

abbrev pub Distinct : List Node → Type 0
Distinct [] = Unit
Distinct (n ∷ ns) = (has_node n ns ≡ false) × Distinct ns

abbrev pub Within : ℕ → ℕ → List Node → Type 0
Within first last [] = Unit
Within first last (n ∷ ns) = (first ≤ n.id) × (n.id ≤ last) × Within first last ns

pub record IsBucket (b : KBucket) : Type 0 where
  pub bounded : length b.nodes ≤ k_bucket_size
  pub distinct : Distinct b.nodes
  pub within : Within b.start b.end b.nodes

pub has_node-append :
    (x n : Node) (ns : List Node) → has_node x (ns ++ n ∷ []) ≡ (has_node x ns || same_node n x)
unfolding has_node
has_node-append x n [] = ground arith
has_node-append x n (m ∷ ms) = ground (arith, has_node-append x n ms)

Distinct-append :
    (n : Node) (ns : List Node) → has_node n ns ≡ false → Distinct ns → Distinct (ns ++ n ∷ [])
unfolding has_node
Distinct-append n [] h d = (refl, tt)
Distinct-append n (m ∷ ms) h (e, d) =
    (ground (arith, has_node-append m n ms), Distinct-append n ms (ground arith) d)

Within-append :
    (a b : ℕ) (n : Node) (ns : List Node)
    → a ≤ n.id
    → n.id ≤ b
    → Within a b ns
    → Within a b (ns ++ n ∷ [])
Within-append a b n [] h k w = (h, k, tt)
Within-append a b n (m ∷ ms) h k (p, q, w) = (p, q, Within-append a b n ms h k w)

has_node-remove_first_other :
    (x n : Node) (ns : List Node) → has_node x ns ≡ false → has_node x (remove_first n ns) ≡ false
unfolding has_node remove_first
has_node-remove_first_other x n [] h = refl
has_node-remove_first_other x n (m ∷ ms) h = ground (arith, has_node-remove_first_other x n ms)

Distinct-remove_first : (n : Node) (ns : List Node) → Distinct ns → Distinct (remove_first n ns)
unfolding remove_first
Distinct-remove_first n [] d = tt
Distinct-remove_first n (m ∷ ms) (e, d) = elim (Bool-cases (same_node m n)) [
  | inl same ↦ rw same d
  | inr other ↦ rw other (has_node-remove_first_other m n ms e, Distinct-remove_first n ms d)
]

has_node-same_node :
    (n m : Node)
    → same_node m n ≡ true
    → (ms : List Node) → has_node m ms ≡ false
    → has_node n ms ≡ false
unfolding has_node
has_node-same_node n m same [] h = refl
has_node-same_node n m same (x ∷ ms) h = ground (arith, has_node-same_node n m same ms)

-- A node that was there once is not there any more.
has_node-remove_first :
    (n : Node) (ns : List Node) → Distinct ns → has_node n (remove_first n ns) ≡ false
unfolding has_node remove_first
has_node-remove_first n [] d = refl
has_node-remove_first n (m ∷ ms) (e, d) = elim (Bool-cases (same_node m n)) [
  | inl same ↦ rw same (has_node-same_node n m same ms e)
  | inr other ↦ rw (other, other) (has_node-remove_first n ms d)
]

Within-remove_first :
    (a b : ℕ) (n : Node) (ns : List Node) → Within a b ns → Within a b (remove_first n ns)
unfolding remove_first
Within-remove_first a b n [] w = tt
Within-remove_first a b n (m ∷ ms) (p, q, w) = elim (Bool-cases (same_node m n)) [
  | inl same ↦ rw same w
  | inr other ↦ rw other (p, q, Within-remove_first a b n ms w)
]

pub length-remove_first :
    (n : Node) (ns : List Node) → has_node n ns ≡ true → length (remove_first n ns) + 1 ≡ length ns
unfolding has_node remove_first
length-remove_first n [] h = absurd (cc)
length-remove_first n (m ∷ ms) h = elim (Bool-cases (same_node m n)) [
  | inl same ↦ rw same (omega arith)
  | inr other ↦
      rw other (let rest = length-remove_first n ms (rw other at h) in omega (arith, rest))
]

in_range-le : (n : Node) (b : KBucket) → in_range n b ≡ true → (b.start ≤ n.id) × (n.id ≤ b.end)
unfolding in_range
in_range-le n b h = (ground arith, ground arith)

pub add-there :
    (n : Node) (b : KBucket)
    → has_node n b.nodes ≡ true
    → add n b ≡ (none, record b { nodes = remove_first n b.nodes ++ n ∷ [] })
unfolding add
add-there n b h = rw h refl

pub add-room :
    (n : Node) (b : KBucket)
    → has_node n b.nodes ≡ false
    → ltb (length b.nodes) k_bucket_size ≡ true
    → add n b ≡ (none, record b { nodes = b.nodes ++ n ∷ [] })
unfolding add
add-room n b h k = rw (h, k) refl

add-full :
    (n : Node) (b : KBucket)
    → has_node n b.nodes ≡ false
    → ltb (length b.nodes) k_bucket_size ≡ false
    → (add n b).1 ≡ record b { replacement_cache = b.replacement_cache ++ n ∷ [] }
unfolding add
add-full n b h k = rw (h, k) refl

pub add_ends : (n : Node) (b : KBucket) → ((add n b).1.start ≡ b.start) × ((add n b).1.end ≡ b.end)
add_ends n b = elim (Bool-cases (has_node n b.nodes)) [
  | inl there ↦ rw (add-there n b there) (refl, refl)
  | inr fresh ↦ elim (Bool-cases (ltb (length b.nodes) k_bucket_size)) [
    | inl room ↦ rw (add-room n b fresh room) (refl, refl)
    | inr full ↦ rw (add-full n b fresh full) (refl, refl)
  ]
]

pub add-IsBucket :
    (n : Node) (b : KBucket) → in_range n b ≡ true → IsBucket b → IsBucket ((add n b).1)
add-IsBucket n b h v = elim (Bool-cases (has_node n b.nodes)) [
  | inl there ↦ rw (add-there n b there) record {
    bounded =
        rw (length-append (remove_first n b.nodes) (n ∷ []))
          (omega (arith, length-remove_first n b.nodes there, v.bounded));
    distinct =
        Distinct-append n (remove_first n b.nodes) (has_node-remove_first n b.nodes v.distinct)
          (Distinct-remove_first n b.nodes v.distinct);
    within =
        Within-append b.start b.end n (remove_first n b.nodes) ((in_range-le n b h).0)
          ((in_range-le n b h).1) (Within-remove_first b.start b.end n b.nodes v.within);
  }
  | inr fresh ↦ elim (Bool-cases (ltb (length b.nodes) k_bucket_size)) [
    | inl room ↦ rw (add-room n b fresh room) record {
      bounded =
          rw (length-append b.nodes (n ∷ [])) (omega (arith, ltb→lt (length b.nodes) 16 room));
      distinct = Distinct-append n b.nodes fresh v.distinct;
      within =
          Within-append b.start b.end n b.nodes ((in_range-le n b h).0) ((in_range-le n b h).1)
            v.within;
    }
    | inr full ↦
        rw (add-full n b fresh full)
          record { bounded = v.bounded; distinct = v.distinct; within = v.within }
  ]
]

remove_node-IsBucket : (n : Node) (b : KBucket) → IsBucket b → IsBucket (remove_node n b)
unfolding remove_node
remove_node-IsBucket n b v = elim (Bool-cases (has_node n b.nodes)) [
  | inl there ↦ rw there record {
    bounded = omega (arith, length-remove_first n b.nodes there, v.bounded);
    distinct = Distinct-remove_first n b.nodes v.distinct;
    within = Within-remove_first b.start b.end n b.nodes v.within;
  }
  | inr other ↦ rw other v
]
