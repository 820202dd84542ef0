-- ===== src/Chains/Uncles.antt =====
-- What the uncles of an accepted block are.
use py_evm.Prelude.{
  ℕ, ◌+◌, ◌-◌, ◌≤◌, ◌<◌, ◌≡◌, refl, sym, ap, ◌∙◌, ◌≢◌, false, ◌||◌, not, Option, none, some, List,
  [], ◌∷◌, map, arith, contains, All, ◌==◌, or-false, not-false, ==-neq, true-false, All-map,
}
use py_evm.Prelude.Exec.{Result, ok, err, and_then-ok, guarded-ok}
use py_evm.Exceptions.{Exception, header_not_found, validation_error}
use py_evm.Constants.{max_uncle_depth}
use py_evm.Numeric.{Bytes}
use py_evm.Headers.{BlockHeader}
use py_evm.Db.Dict.{lookup}
use py_evm.Db.Header.{found, get_block_header_by_hash}
use py_evm.Db.Header.Store.{IsStore, lookup_unique}
use py_evm.Db.Header.Shape.{AreLinked}
use py_evm.Db.Chain.{Block, ChainDb}
use py_evm.Blocks.{validate_uncle}
use py_evm.Chains.{
  get_ancestors, extract_uncle_hashes, check_uncle, check_on_vm, check_uncles, validate_uncles,
  hash_of_block, has_twins,
}
use py_evm.Chains.Ancestors.{block_at, below-IsRead, below-canonical}

validate_uncle-ok :
    (block : Block) (u p : BlockHeader)
    → validate_uncle block u p ≡ ok tt
    → (u.block_number < block.header.block_number) × (u.block_number ≡ p.block_number + 1)
unfolding validate_uncle
validate_uncle-ok block u p h = ground arith

-- The parent that was looked up.
parent-ok :
    (block : Block) (u : BlockHeader) (o : Option BlockHeader)
    → elim (found o header_not_found) as (λ _. Result Exception Unit) [
      | err _ ↦ err validation_error
      | ok p ↦ validate_uncle block u p
    ]
      ≡ ok tt
    → (p : BlockHeader) × (o ≡ some p) × (validate_uncle block u p ≡ ok tt)
parent-ok block u none e = cc
parent-ok block u (some p) e = (p, refl, e)

module _ {V : Type 0} (vm_configuration : List (ℕ × V)) (hash_of : BlockHeader → ℕ)
    (transactions_at : ℕ → Result Exception (List Bytes))
    (check_seal : BlockHeader → Result Exception Unit) where
  -- A block is an uncle: a canonical block is its parent, it is at most six blocks below, and neither
  -- it is one of the seven canonical blocks below nor is it an uncle of one of these.
  pub record IsUncle (c : ChainDb) (block : Block) (u : BlockHeader) : Type 0 where
    pub parent : BlockHeader
    pub has_parent : lookup u.parent_hash c.chain.headers ≡ some parent
    pub canonical : lookup parent.block_number c.chain.number_to_hash ≡ some u.parent_hash
    pub number : u.block_number ≡ parent.block_number + 1
    pub below : u.block_number < block.header.block_number
    pub near : block.header.block_number ≤ u.block_number + max_uncle_depth
    pub other : hash_of u ≢ hash_of block.header
    pub other_parent : u.parent_hash ≢ block.header.parent_hash
    pub fresh :
        (n : ℕ)
        → n < block.header.block_number
        → block.header.block_number ≤ n + max_uncle_depth + 1
        → (b : Block) × (block_at vm_configuration hash_of transactions_at check_seal c n ≡ ok b)
          × (hash_of b.header ≢ hash_of u)
          × (contains (map hash_of b.uncles) (hash_of u) ≡ false)

  check_on_vm-ok :
      (c : ChainDb) (block : Block) (u : BlockHeader)
      → check_on_vm vm_configuration hash_of transactions_at check_seal c block u ≡ ok tt
      → (p : BlockHeader) × (lookup u.parent_hash c.chain.headers ≡ some p)
        × (validate_uncle block u p ≡ ok tt)
  unfolding check_on_vm get_block_header_by_hash
  check_on_vm-ok c block u e =
      let (_, _, e1) = and_then-ok _ _ tt e in
      let (_, _, e2) = and_then-ok _ _ tt e1 in
      parent-ok block u (lookup u.parent_hash c.chain.headers) e2

  -- What one round of the loop has tested.
  record IsChecked (c : ChainDb) (block : Block) (recent : List Block) (u : BlockHeader)
      : Type 0 where
    other : (hash_of u == hash_of block.header) ≡ false
    new : contains (extract_uncle_hashes hash_of recent) (hash_of u) ≡ false
    not_canonical : contains (map (hash_of_block hash_of) recent) (hash_of u) ≡ false
    of_chain : not (contains (map (hash_of_block hash_of) recent) u.parent_hash) ≡ false
    other_parent : (u.parent_hash == block.header.parent_hash) ≡ false
    on_vm : check_on_vm vm_configuration hash_of transactions_at check_seal c block u ≡ ok tt

  check_uncle-ok :
      (c : ChainDb) (block : Block) (recent : List Block) (u : BlockHeader)
      → check_uncle vm_configuration hash_of transactions_at check_seal c block recent u ≡ ok tt
      → IsChecked c block recent u
  unfolding check_uncle
  check_uncle-ok c block recent u e =
      let (other, e1) = guarded-ok _ _ _ tt e in
      let (new, e2) = guarded-ok _ _ _ tt e1 in
      let (not_canonical, e3) = guarded-ok _ _ _ tt e2 in
      let (parents, on_vm) =
        guarded-ok
          (not (contains (map (hash_of_block hash_of) recent) u.parent_hash)
            || u.parent_hash == block.header.parent_hash)
          _ _ tt e3 in
      let (of_chain, other_parent) =
        or-false (not (contains (map (hash_of_block hash_of) recent) u.parent_hash))
          (u.parent_hash == block.header.parent_hash) parents in
      record {
        other = other;
        new = new;
        not_canonical = not_canonical;
        of_chain = of_chain;
        other_parent = other_parent;
        on_vm = on_vm;
      }

  checked-IsUncle :
      (c : ChainDb) (block : Block) (recent : List Block) (u : BlockHeader)
      → IsStore hash_of c.chain
      → AreLinked hash_of c.chain
      → get_ancestors vm_configuration hash_of transactions_at check_seal c
          (max_uncle_depth + 1)
          block.header
        ≡ ok recent
      → IsChecked c block recent u
      → IsUncle c block u
  unfolding get_ancestors
  checked-IsUncle c block recent u store linked read t =
      let top = block.header.block_number in
      let count = top - (top - (max_uncle_depth + 1)) in
      let (p, at, valid) = check_on_vm-ok c block u t.on_vm in
      let (below, number) = validate_uncle-ok block u p valid in
      let (n, lt, near, at_n) =
        below-canonical vm_configuration hash_of transactions_at check_seal c count top
          u.parent_hash recent store (omega arith) read (not-false _ t.of_chain) in
      let l = linked n u.parent_hash at_n in
      let same : p.block_number ≡ n =
        ap (λ (x : BlockHeader). x.block_number) (lookup_unique p l.header at l.has_header)
        ∙ l.number in
      record {
        parent = p;
        has_parent = at;
        canonical = ap (λ x. lookup x c.chain.number_to_hash) same ∙ at_n;
        number = number;
        below = below;
        near = omega (arith, number, same);
        other = ==-neq _ _ t.other;
        other_parent = ==-neq _ _ t.other_parent;
        fresh = λ m lt_m near_m.
            let r =
              below-IsRead vm_configuration hash_of transactions_at check_seal c count top m recent
                read lt_m (omega arith) in
            (
              r.block,
              r.at,
              λ twin. true-false (
                  sym r.among
                  ∙ ap (contains (map (hash_of_block hash_of) recent)) twin
                  ∙ t.not_canonical),
              r.uncles (hash_of u) t.new,
            );
      }

  check_uncles-ok :
      (c : ChainDb) (block : Block) (recent : List Block) (us : List BlockHeader)
      → check_uncles vm_configuration hash_of transactions_at check_seal c block recent us ≡ ok tt
      → All (IsChecked c block recent) us
  unfolding check_uncles
  check_uncles-ok c block recent [] e = tt
  check_uncles-ok c block recent (u ∷ us) e =
      let (_, first, rest) = and_then-ok _ _ tt e in
      (check_uncle-ok c block recent u first, check_uncles-ok c block recent us rest)

  -- In well-formed headers, when validate_uncles accepts a block, the hashes of its uncles differ, and
  -- each uncle is one above a stored canonical block, below the block and at most six below it, is
  -- neither the block itself nor a sibling of it, and is neither one of the seven canonical blocks
  -- below the block nor an uncle of one of these.
  pub validate_uncles-IsUncle :
      (c : ChainDb) (block : Block)
      → IsStore hash_of c.chain
      → AreLinked hash_of c.chain
      → validate_uncles vm_configuration hash_of transactions_at check_seal c block ≡ ok tt
      → (has_twins (map hash_of block.uncles) ≡ false) × All (IsUncle c block) block.uncles
  unfolding validate_uncles
  validate_uncles-IsUncle c block store linked e =
      let (distinct, e1) = guarded-ok _ _ _ tt e in
      let (recent, read, checked) = and_then-ok _ _ tt e1 in
      (
        distinct,
        All-map (λ u t. checked-IsUncle c block recent u store linked read t) block.uncles
            (check_uncles-ok c block recent block.uncles checked),
      )
