-- ===== src/Blocks.antt =====
-- evm/vm/base.py: what a VM checks of a block and of an uncle, the hashes of the blocks before, and the
-- rewards of evm/vm/forks/{frontier,byzantium}/__init__.py. The root of a row of transactions, the hash
-- of a row of uncles and the presence of a state root in the database are arguments.
pub mod Hashes
pub mod Payment
use py_evm.Prelude.{
  ℕ, zero, suc, ◌+◌, ◌*◌, ◌/◌, Bool, not, List, [], ◌∷◌, length, ltb, leb, ◌==◌, if◌then◌else◌,
}
use py_evm.Vm.Accounts.{Accounts, delta_balance}
use py_evm.Prelude.Exec.{Result, ok, err, Exec, ◌>>◌, and_then, refuse_if}
use py_evm.Exceptions.{Exception, validation_error, attribute_error}
use py_evm.Prelude.Int.{ℤ, pos, negsuc, sub_ℕ, ltb_ℤ, ◌*ℤ◌, ◌-ℤ◌}
use py_evm.Constants.{
  genesis_parent_hash, max_prev_header_depth, max_uncles, max_uncle_depth, block_reward,
  uncle_depth_penalty_factor, eip649_block_reward,
}
use py_evm.Numeric.{Bytes}
use py_evm.Headers.{BlockHeader, validate_gas_limit}
use py_evm.Db.Header.{HeaderDb, get_block_header_by_hash}
use py_evm.Db.Chain.{Block}

-- `get_parent_header` of evm/utils/db.py
unfoldable pub get_parent_header : HeaderDb → BlockHeader → Result Exception BlockHeader
unfolding get_block_header_by_hash
get_parent_header d header = get_block_header_by_hash d header.parent_hash

-- The checks of `validate_block` against the parent.
unfoldable pub validate_child : BlockHeader → BlockHeader → Result Exception Unit
unfolding validate_gas_limit
validate_child header parent = and_then (validate_gas_limit header.gas_limit parent.gas_limit) (λ _.
    and_then (refuse_if (ltb 32 (length header.extra_data)) validation_error) (λ _.
      if ltb header.timestamp parent.timestamp
      then err validation_error
      else if header.timestamp == parent.timestamp
      then err validation_error
      else ok tt))

-- `validate_block`. The message of the last error reads a field that a header does not have.
unfoldable pub validate_block :
    (List BlockHeader → ℕ)
    → (List Bytes → ℕ)
    → (ℕ → Bool)
    → HeaderDb
    → Block
    → Result Exception Unit
unfolding validate_child get_parent_header
validate_block hash_of_uncles root_of exists d block =
    let of_parent : Result Exception Unit =
      (if block.header.block_number == 0
        then ok tt
        else and_then (get_parent_header d block.header) (validate_child block.header)) in
    and_then of_parent (λ _.
      if not (root_of block.transactions == block.header.transaction_root)
      then err validation_error
      else if ltb max_uncles (length block.uncles)
      then err validation_error
      else if not (exists block.header.state_root)
      then err validation_error
      else if not (hash_of_uncles block.uncles == block.header.uncles_hash)
      then err attribute_error
      else ok tt)

-- `validate_uncle`
unfoldable pub validate_uncle : Block → BlockHeader → BlockHeader → Result Exception Unit
validate_uncle block uncle uncle_parent =
    if leb block.header.block_number uncle.block_number
    then err validation_error
    else if not (uncle.block_number == uncle_parent.block_number + 1)
    then err validation_error
    else if ltb uncle.timestamp uncle_parent.timestamp
    then err validation_error
    else if ltb uncle.gas_limit uncle.gas_used
    then err validation_error
    else ok tt

-- The loop of `get_prev_hashes`, with the rounds that are left.
unfoldable pub prev_hashes : (BlockHeader → ℕ) → ℕ → HeaderDb → BlockHeader → List ℕ
unfolding get_parent_header
prev_hashes hash_of zero d header = []
prev_hashes hash_of (suc rounds) d header = hash_of header ∷ elim (get_parent_header d header) [
  | ok parent ↦ prev_hashes hash_of rounds d parent
  | err _ ↦ []
]

-- `get_prev_hashes`
unfoldable pub get_prev_hashes : (BlockHeader → ℕ) → ℕ → HeaderDb → Result Exception (List ℕ)
unfolding prev_hashes get_block_header_by_hash
get_prev_hashes hash_of last_block_hash d =
    if last_block_hash == genesis_parent_hash
    then ok []
    else and_then (get_block_header_by_hash d last_block_hash)
        (λ header. ok (prev_hashes hash_of max_prev_header_depth d header))

-- Python's // by a positive number.
unfoldable pub floor_div : ℤ → ℕ → ℤ
floor_div (pos n) d = pos (n / d)
floor_div (negsuc n) d = negsuc (n / d)

-- `get_uncle_reward` of evm/vm/forks/frontier/__init__.py
unfoldable pub get_frontier_uncle_reward : ℕ → BlockHeader → ℤ
unfolding floor_div ◌*ℤ◌
get_frontier_uncle_reward block_number uncle =
    floor_div
      (pos block_reward *ℤ sub_ℕ (uncle_depth_penalty_factor + uncle.block_number) block_number)
      uncle_depth_penalty_factor

-- `get_uncle_reward` of evm/vm/forks/byzantium/__init__.py
unfoldable pub get_byzantium_uncle_reward : ℕ → BlockHeader → Result Exception ℤ
unfolding floor_div ◌*ℤ◌ ◌-ℤ◌
get_byzantium_uncle_reward block_number uncle =
    let block_number_delta = sub_ℕ block_number uncle.block_number in
    if ltb_ℤ (pos max_uncle_depth) block_number_delta
    then err validation_error
    else ok (floor_div ((pos 8 -ℤ block_number_delta) *ℤ pos eip649_block_reward) 8)

-- `get_nephew_reward`
abbrev pub get_nephew_reward : ℕ → ℕ
get_nephew_reward reward = reward / 32

module _ {W : Type 0} (db : Accounts W) (uncle_reward : ℕ → BlockHeader → Result Exception ℤ) where
  -- The loop of `finalize_block`.
  unfoldable pub pay_uncles : ℕ → List BlockHeader → Exec Exception W Unit
  unfolding delta_balance
  pay_uncles number [] w = (ok tt, w)
  pay_uncles number (u ∷ us) w =
      let rest = pay_uncles number us in
      elim (uncle_reward number u) [
        | err e ↦ (err e, w)
        | ok reward ↦ (delta_balance db u.coinbase reward >> rest) w
      ]

  -- The payments of `finalize_block`, by the reward of a block.
  unfoldable pub pay_rewards : ℕ → Block → Exec Exception W Unit
  unfolding delta_balance pay_uncles
  pay_rewards reward block =
      delta_balance db block.header.coinbase
        (pos (reward + length block.uncles * get_nephew_reward reward))
      >> pay_uncles block.header.block_number block.uncles
