-- ===== src/Blocks/Hashes.antt =====
-- The hashes of the blocks before are those of the nearest ancestors.
use py_evm.Prelude.{
  ℕ, zero, suc, ◌+◌, min, ◌≡◌, sym, ap, ◌∙◌, ◌≢◌, inl, inr, none, some, List, arith, length,
  get_elem?, some_inj, none-some,
}
use py_evm.Prelude.Exec.{ok, and_then}
use py_evm.Constants.{genesis_parent_hash, max_prev_header_depth}
use py_evm.Headers.{BlockHeader}
use py_evm.Db.Dict.{lookup}
use py_evm.Db.Header.{HeaderDb, get_block_header_by_hash}
use py_evm.Db.Header.Store.{IsStore, ==-false}
use py_evm.Db.Header.Ancestry.{IsAncestor, here, above}
use py_evm.Blocks.{get_parent_header, prev_hashes, get_prev_hashes}

module _ (d : HeaderDb) where
  -- The hash stands for the ancestor that is so many blocks below.
  pub record IsBelow (k number i j : ℕ) : Type 0 where
    pub header : BlockHeader
    pub has_header : lookup j d.headers ≡ some header
    pub number_below : header.block_number + i ≡ number
    pub way : IsAncestor d k j

  IsBelow-up :
      (k number i j : ℕ) (h : BlockHeader)
      → lookup k d.headers ≡ some h
      → h.parent_hash ≢ genesis_parent_hash
      → IsBelow h.parent_hash number i j
      → IsBelow k (number + 1) (suc i) j
  IsBelow-up k number i j h at later b = record {
    header = b.header;
    has_header = b.has_header;
    number_below = omega (arith, b.number_below);
    way = above h at later b.way;
  }

  module _ (hash_of : BlockHeader → ℕ) (store : IsStore hash_of d)
      (none_first : lookup genesis_parent_hash d.headers ≡ none) where
    prev_hashes-length :
        (rounds : ℕ) (k : ℕ) (h : BlockHeader)
        → lookup k d.headers ≡ some h
        → length (prev_hashes hash_of rounds d h) ≡ min rounds (h.block_number + 1)
    unfolding prev_hashes get_parent_header get_block_header_by_hash
    prev_hashes-length zero k h at = ground arith
    prev_hashes-length (suc rounds) k h at = elim ((store k h at).placed) [
      | inl (first, number, _) ↦ rw (first, none_first) (ground arith)
      | inr next ↦
          let rest = prev_hashes-length rounds h.parent_hash next.parent next.has_parent.0 in
          rw (next.has_parent.0, rest) (ground (arith, next.number))
    ]

    prev_hashes-IsBelow :
        (rounds : ℕ) (k i j : ℕ) (h : BlockHeader)
        → lookup k d.headers ≡ some h
        → get_elem? (prev_hashes hash_of rounds d h) i ≡ some j
        → IsBelow k h.block_number i j
    unfolding prev_hashes get_parent_header get_block_header_by_hash
    prev_hashes-IsBelow zero k i j h at e = absurd (none-some j e)
    prev_hashes-IsBelow (suc rounds) k zero j h at e =
        let same : k ≡ j = sym (store k h at).at ∙ some_inj (hash_of h) j e in
        rw (← same) record { header = h; has_header = at; number_below = omega arith; way = here }
    prev_hashes-IsBelow (suc rounds) k (suc i) j h at e = elim ((store k h at).placed) [
      | inl (first, number, _) ↦
          let none_left : none ≡ some j = rw (first, none_first) at e in
          absurd (none-some j none_left)
      | inr next ↦
          let in_rest : get_elem? (prev_hashes hash_of rounds d next.parent) i ≡ some j =
            rw next.has_parent.0 at e in
          rw next.number (
            IsBelow-up k next.parent.block_number i j h at next.not_first
              (prev_hashes-IsBelow rounds h.parent_hash i j next.parent next.has_parent.0 in_rest))
    ]

-- With headers that stand under their hashes above their parents, and none under the parent hash of the
-- first block, get_prev_hashes gives for a stored block the hashes of that block and of its nearest
-- ancestors, downwards without a gap, 256 of them or down to the first block.
pub get_prev_hashes_lem :
    (hash_of : BlockHeader → ℕ) (d : HeaderDb) (k : ℕ) (h : BlockHeader)
    → IsStore hash_of d
    → lookup genesis_parent_hash d.headers ≡ none
    → lookup k d.headers ≡ some h
    → (hs : List ℕ) × (get_prev_hashes hash_of k d ≡ ok hs)
      × (length hs ≡ min max_prev_header_depth (h.block_number + 1))
      × ((i j : ℕ) → get_elem? hs i ≡ some j → IsBelow d k h.block_number i j)
unfolding get_prev_hashes get_block_header_by_hash and_then
get_prev_hashes_lem hash_of d k h store none_first at =
    let not_first : k ≢ genesis_parent_hash =
      λ same. none-some h (sym none_first ∙ ap (λ x. lookup x d.headers) (sym same) ∙ at) in
    (
      prev_hashes hash_of max_prev_header_depth d h,
      rw (==-false k genesis_parent_hash not_first, at),
      prev_hashes-length d hash_of store none_first max_prev_header_depth k h at,
      λ i j e. prev_hashes-IsBelow d hash_of store none_first max_prev_header_depth k i j h at e,
    )
