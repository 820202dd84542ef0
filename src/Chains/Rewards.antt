-- ===== src/Chains/Rewards.antt =====
-- The rewards of the uncles of an accepted block.
use py_evm.Prelude.{
  ℕ, zero, suc, ◌+◌, ◌-◌, ◌*◌, ◌/◌, ◌≤◌, ◌<◌, ◌≡◌, refl, some, List, [], ◌∷◌, arith, get_elem?, All,
  some_inj,
}
use py_evm.Prelude.Exec.{Result, ok}
use py_evm.Prelude.Int.{ℤ, pos, ◌*ℤ◌, ◌-ℤ◌}
use py_evm.Exceptions.{Exception}
use py_evm.Constants.{max_uncle_depth, block_reward, eip649_block_reward}
use py_evm.Numeric.{Bytes}
use py_evm.Headers.{BlockHeader}
use mathlib.Core.Path.{subst}
use py_evm.Db.Header.Store.{IsStore}
use py_evm.Db.Header.Shape.{AreLinked}
use py_evm.Db.Chain.{Block, ChainDb}
use py_evm.Blocks.{floor_div, get_frontier_uncle_reward, get_byzantium_uncle_reward}
use py_evm.Chains.{validate_uncles}
use py_evm.Chains.Uncles.{validate_uncles-IsUncle}

All-at :
    {A : Type 0} (P : A → Type 0) (xs : List A) (i : ℕ) (x : A)
    → All P xs
    → get_elem? xs i ≡ some x
    → P x
All-at P [] i x ps e = cc
All-at P (y ∷ xs) zero x (p, ps) e = subst P (some_inj y x e) p
All-at P (y ∷ xs) (suc i) x (p, ps) e = All-at P xs i x ps e

-- The reward lies between a quarter and seven eighths of that of a block.
abbrev pub IsUncleReward : ℕ → ℤ → Type 0
IsUncleReward reward z = (r : ℕ) × (z ≡ pos r) × (reward ≤ 4 * r) × (8 * r ≤ 7 * reward)

frontier-IsUncleReward :
    (number : ℕ) (u : BlockHeader)
    → u.block_number < number
    → number ≤ u.block_number + max_uncle_depth
    → IsUncleReward block_reward (get_frontier_uncle_reward number u)
unfolding get_frontier_uncle_reward floor_div ◌*ℤ◌
frontier-IsUncleReward number u below near =
    (block_reward * (8 + u.block_number - number) / 8, ground arith, omega arith, omega arith)

byzantium-IsUncleReward :
    (number : ℕ) (u : BlockHeader)
    → u.block_number < number
    → number ≤ u.block_number + max_uncle_depth
    → (z : ℤ) × (get_byzantium_uncle_reward number u ≡ ok z) × IsUncleReward eip649_block_reward z
unfolding get_byzantium_uncle_reward floor_div ◌*ℤ◌ ◌-ℤ◌
byzantium-IsUncleReward number u below near = (
  pos ((8 + u.block_number - number) * eip649_block_reward / 8),
  ground arith,
  ((8 + u.block_number - number) * eip649_block_reward / 8, refl, omega arith, omega arith),
)

module _ {V : Type 0} (vm_configuration : List (ℕ × V)) (hash_of : BlockHeader → ℕ)
    (transactions_at : ℕ → Result Exception (List Bytes))
    (check_seal : BlockHeader → Result Exception Unit) where
  -- In well-formed headers, when validate_uncles accepts a block, the reward of each of its uncles is,
  -- by the rules of Frontier and by those of Byzantium, which then do not raise, from a quarter to seven
  -- eighths of the reward of a block.
  pub validate_uncles-IsUncleReward :
      (c : ChainDb) (block : Block) (i : ℕ) (u : BlockHeader)
      → IsStore hash_of c.chain
      → AreLinked hash_of c.chain
      → validate_uncles vm_configuration hash_of transactions_at check_seal c block ≡ ok tt
      → get_elem? block.uncles i ≡ some u
      → IsUncleReward block_reward (get_frontier_uncle_reward block.header.block_number u)
        × ((z : ℤ) × (get_byzantium_uncle_reward block.header.block_number u ≡ ok z)
            × IsUncleReward eip649_block_reward z)
  validate_uncles-IsUncleReward c block i u store linked e at =
      let (_, uncles) =
        validate_uncles-IsUncle vm_configuration hash_of transactions_at check_seal c block store
          linked e in
      let w = All-at _ block.uncles i u uncles at in
      (
        frontier-IsUncleReward block.header.block_number u w.below w.near,
        byzantium-IsUncleReward block.header.block_number u w.below w.near,
      )
