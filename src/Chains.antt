-- ===== src/Chains.antt =====
-- evm/chains/base.py: what a chain checks of a block, and the blocks that it reads from its database. The
-- check of the seal and the read of the transactions under a root are arguments, with the hashes of Db.Chain.
pub mod Ancestors
pub mod Uncles
pub mod Rewards
use py_evm.Prelude.{
  ℕ, zero, suc, ◌+◌, ◌-◌, Bool, false, ◌||◌, not, List, [], ◌∷◌, ◌++◌, map, contains, ltb, leb,
  ◌==◌, if◌then◌else◌,
}
use py_evm.Prelude.Exec.{Result, ok, err, and_then, refuse_if}
use py_evm.Exceptions.{Exception, validation_error, vm_not_found, type_error}
use py_evm.Constants.{max_uncle_depth, empty_uncle_hash, uint_256_max}
use py_evm.Numeric.{Bytes}
use py_evm.Headers.{BlockHeader, compute_gas_limit_bounds}
use py_evm.Db.Header.{HeaderDb, get_block_header_by_hash, get_canonical_block_hash}
use py_evm.Db.Chain.{Block, ChainDb, get_block_uncles}
use py_evm.Blocks.{validate_uncle}

-- `get_vm_class_for_block_number`: the last entry that starts at the number or below.
unfoldable pub get_vm_class_for_block_number : {V : Type 0} → List (ℕ × V) → ℕ → Result Exception V
get_vm_class_for_block_number [] number = err vm_not_found
get_vm_class_for_block_number ((start_block, vm_class) ∷ rest) number =
    let later = get_vm_class_for_block_number rest number in
    elim later [
      | ok later_class ↦ ok later_class
      | err _ ↦ if leb start_block number then ok vm_class else err vm_not_found
    ]

-- `validate_gaslimit`
unfoldable pub validate_gaslimit : HeaderDb → BlockHeader → Result Exception Unit
unfolding get_block_header_by_hash compute_gas_limit_bounds
validate_gaslimit d header =
    and_then (get_block_header_by_hash d header.parent_hash) (λ parent_header.
      let (low_bound, high_bound) = compute_gas_limit_bounds parent_header in
      if ltb header.gas_limit low_bound
      then err validation_error
      else if ltb high_bound header.gas_limit
      then err validation_error
      else ok tt)

-- Whether a value occurs twice.
unfoldable pub has_twins : List ℕ → Bool
has_twins [] = false
has_twins (x ∷ xs) = contains xs x || has_twins xs

-- `_extract_uncle_hashes`
unfoldable pub extract_uncle_hashes : (BlockHeader → ℕ) → List Block → List ℕ
extract_uncle_hashes hash_of [] = []
extract_uncle_hashes hash_of (b ∷ bs) = map hash_of b.uncles ++ extract_uncle_hashes hash_of bs

abbrev pub hash_of_block : (BlockHeader → ℕ) → Block → ℕ
hash_of_block hash_of b = hash_of b.header

module _ {V : Type 0} (vm_configuration : List (ℕ × V)) (hash_of : BlockHeader → ℕ)
    (transactions_at : ℕ → Result Exception (List Bytes))
    (check_seal : BlockHeader → Result Exception Unit) where
  -- The block of `get_vm`: `from_header` of evm/vm/forks/frontier/blocks.py.
  unfoldable pub get_block_by_header : ChainDb → BlockHeader → Result Exception Block
  unfolding get_vm_class_for_block_number get_block_uncles
  get_block_by_header c header =
      let uncles : Result Exception (List BlockHeader) =
        (if header.uncles_hash == empty_uncle_hash
          then ok []
          else get_block_uncles c header.uncles_hash) in
      and_then (get_vm_class_for_block_number vm_configuration header.block_number) (λ _.
        and_then uncles (λ us.
          and_then (transactions_at header.transaction_root)
            (λ ts. ok record { header = header; transactions = ts; uncles = us })))

  -- `get_block_by_hash`
  unfoldable pub get_block_by_hash : ChainDb → ℕ → Result Exception Block
  unfolding get_block_by_header get_block_header_by_hash
  get_block_by_hash c block_hash =
      and_then (get_block_header_by_hash c.chain block_hash) (get_block_by_header c)

  -- `get_canonical_block_by_number`
  unfoldable pub get_canonical_block_by_number : ChainDb → ℕ → Result Exception Block
  unfolding get_block_by_hash get_canonical_block_hash
  get_canonical_block_by_number c number =
      and_then (refuse_if (ltb uint_256_max number) validation_error)
        (λ _. and_then (get_canonical_block_hash c.chain number) (get_block_by_hash c))

  -- The loop of `get_ancestors`: so many numbers, downwards from the one below `top`.
  unfoldable pub blocks_below : ChainDb → ℕ → ℕ → Result Exception (List Block)
  unfolding get_canonical_block_by_number
  blocks_below c zero top = ok []
  blocks_below c (suc count) top =
      let rest = blocks_below c count (top - 1) in
      and_then (get_canonical_block_by_number c (top - 1))
        (λ block. and_then rest (λ blocks. ok (block ∷ blocks)))

  -- `get_ancestors`
  unfoldable pub get_ancestors : ChainDb → ℕ → BlockHeader → Result Exception (List Block)
  unfolding blocks_below
  get_ancestors c limit header =
      let lower_limit = header.block_number - limit in
      blocks_below c (header.block_number - lower_limit) header.block_number

  -- The checks of an uncle by its VM. `get_vm` reads the block of the uncle, which raises where that block's
  -- own uncles or its transactions are not stored.
  unfoldable pub check_on_vm : ChainDb → Block → BlockHeader → Result Exception Unit
  unfolding get_block_by_header get_block_header_by_hash validate_uncle
  check_on_vm c block uncle = and_then (get_block_by_header c uncle) (λ _.
      and_then (check_seal uncle) (λ _. elim (get_block_header_by_hash c.chain uncle.parent_hash) [
        | err _ ↦ err validation_error
        | ok uncle_parent ↦ validate_uncle block uncle uncle_parent
      ]))

  -- The body of the loop of `validate_uncles`.
  unfoldable pub check_uncle : ChainDb → Block → List Block → BlockHeader → Result Exception Unit
  unfolding extract_uncle_hashes check_on_vm
  check_uncle c block recent_ancestors uncle =
      let recent_ancestor_hashes = map (hash_of_block hash_of) recent_ancestors in
      let recent_uncle_hashes = extract_uncle_hashes hash_of recent_ancestors in
      if hash_of uncle == hash_of_block hash_of block
      then err validation_error
      else if contains recent_uncle_hashes (hash_of uncle)
      then err validation_error
      else if contains recent_ancestor_hashes (hash_of uncle)
      then err validation_error
      else if not (contains recent_ancestor_hashes uncle.parent_hash)
          || uncle.parent_hash == block.header.parent_hash
      then err validation_error
      else check_on_vm c block uncle

  unfoldable pub check_uncles :
      ChainDb → Block → List Block → List BlockHeader → Result Exception Unit
  unfolding check_uncle
  check_uncles c block recent_ancestors [] = ok tt
  check_uncles c block recent_ancestors (u ∷ us) =
      let rest = check_uncles c block recent_ancestors us in
      and_then (check_uncle c block recent_ancestors u) (λ _. rest)

  -- `validate_uncles`. The message of the first error joins byte strings to a text, which raises.
  unfoldable pub validate_uncles : ChainDb → Block → Result Exception Unit
  unfolding check_uncles get_ancestors has_twins
  validate_uncles c block =
      if has_twins (map hash_of block.uncles)
      then err type_error
      else and_then (get_ancestors c (max_uncle_depth + 1) block.header)
          (λ recent_ancestors. check_uncles c block recent_ancestors block.uncles)

  -- `validate_block`, of a chain with the given header: its VM reads the block of that header.
  unfoldable pub validate_block : ChainDb → BlockHeader → Block → Result Exception Unit
  unfolding get_block_by_header validate_uncles validate_gaslimit
  validate_block c own block = and_then (get_block_by_header c own) (λ _.
      and_then (check_seal block.header)
        (λ _. and_then (validate_uncles c block) (λ _. validate_gaslimit c.chain block.header)))
