-- ===== src/Tests/Blocks.antt =====
-- Runs and examples of the checks of blocks, of evm/vm/base.py and evm/chains/base.py.
use py_evm.Prelude.{
  ℕ, ◌+◌, ◌≤◌, min, ◌≡◌, refl, false, none, some, List, [], ◌∷◌, map, arith, length, get_elem?, All,
}
use py_evm.Prelude.Exec.{Result, ok, and_then}
use py_evm.Prelude.Int.{ℤ, pos}
use py_evm.Constants.{
  block_reward, eip649_block_reward, max_prev_header_depth, genesis_parent_hash, uint_256_max,
}
use py_evm.Numeric.{Bytes}
use py_evm.Exceptions.{Exception}
use py_evm.Headers.{BlockHeader}
use py_evm.Db.Dict.{lookup}
use py_evm.Db.Chain.{ChainDb, Block}
use py_evm.Blocks.{
  get_prev_hashes, prev_hashes, get_frontier_uncle_reward, get_byzantium_uncle_reward, pay_rewards,
}
use py_evm.Vm.Message.{Address, IsAddress}
use py_evm.Blocks.Payment.{uncles_due, rewards_due, pay_rewards_lem}
use py_evm.Tests.Machine.{addr}
use py_evm.Db.Database.{memory_db, get_item}
use py_evm.Db.Journal.{get, journal_get}
use py_evm.Db.Account.{AccountDb, get_balance, get_account}
use py_evm.Db.Account.Interface.{IsReady}
use py_evm.Tests.State.{Codes, States, toy, program, program-Lawful, fresh, addr-IsAddress}
use py_evm.Blocks.Hashes.{IsBelow, get_prev_hashes_lem}
use py_evm.Chains.{validate_uncles, has_twins}
use py_evm.Chains.Uncles.{IsUncle, validate_uncles-IsUncle}
use py_evm.Chains.Rewards.{IsUncleReward, validate_uncles-IsUncleReward}
use py_evm.Tests.Chain.{header, hash_of, third, rival, with_third, third_fine}

no_parent_of_first : lookup genesis_parent_hash with_third.headers ≡ none
unfolding lookup
no_parent_of_first = refl

has_third : lookup 12 with_third.headers ≡ some third
unfolding lookup
has_third = refl

get_prev_hashes_lem_example :
    (hs : List ℕ) × (get_prev_hashes hash_of 12 with_third ≡ ok hs)
    × (length hs ≡ min max_prev_header_depth 3)
    × ((i j : ℕ) → get_elem? hs i ≡ some j → IsBelow with_third 12 2 i j)
get_prev_hashes_lem_example =
    get_prev_hashes_lem hash_of with_third 12 third third_fine.store no_parent_of_first has_third

prev_hashes_run : get_prev_hashes hash_of 12 with_third ≡ ok (12 ∷ 11 ∷ 10 ∷ [])
unfolding get_prev_hashes prev_hashes lookup and_then
prev_hashes_run = refl

abbrev configuration : List (ℕ × ℕ)
configuration = (0, 0) ∷ []

abbrev no_transactions : ℕ → Result Exception (List Bytes)
no_transactions root = ok []

-- Every seal holds.
abbrev sealed : BlockHeader → Result Exception Unit
sealed h = ok tt

abbrev chain : ChainDb
chain = record { chain = with_third; transactions = []; uncles = (0, []) ∷ [] }

-- A block above the third one, with the rival of the second as its uncle.
abbrev nephew : Block
nephew = record { header = header 13 12 3 1; transactions = []; uncles = rival ∷ [] }

nephew_accepted : validate_uncles configuration hash_of no_transactions sealed chain nephew ≡ ok tt
unfolding validate_uncles lookup and_then
nephew_accepted = refl

validate_uncles-IsUncle_example :
    (has_twins (map hash_of (rival ∷ [])) ≡ false)
    × All (IsUncle configuration hash_of no_transactions sealed chain nephew) (rival ∷ [])
validate_uncles-IsUncle_example =
    validate_uncles-IsUncle configuration hash_of no_transactions sealed chain nephew
      third_fine.store third_fine.linked nephew_accepted

validate_uncles-IsUncleReward_example :
    IsUncleReward block_reward (get_frontier_uncle_reward 3 rival)
    × ((z : ℤ) × (get_byzantium_uncle_reward 3 rival ≡ ok z) × IsUncleReward eip649_block_reward z)
validate_uncles-IsUncleReward_example =
    validate_uncles-IsUncleReward configuration hash_of no_transactions sealed chain nephew 0 rival
      third_fine.store third_fine.linked nephew_accepted refl

-- The miners of the block and of its uncle.
abbrev paid_block : Block
paid_block = record {
  header = record third { coinbase = addr 1 };
  transactions = [];
  uncles = record rival { coinbase = addr 2 } ∷ [];
}

abbrev constant_reward : ℕ → BlockHeader → Result Exception ℤ
constant_reward number u = ok (pos 700)

fresh-IsReady : IsReady memory_db memory_db toy fresh
fresh-IsReady e = cc

fresh_balance : (b : Address) → IsAddress b → program.get_balance fresh b ≡ 0
unfolding get_balance get_account get journal_get lookup get_item
fresh_balance b (canonical, _) = rw canonical

due_bound : (b : Address) → rewards_due (λ u. 700) 3200 paid_block b ≤ 10000
unfolding uncles_due
due_bound b = ground arith

room_for_all :
    (b : Address)
    → IsAddress b
    → program.get_balance fresh b + rewards_due (λ u. 700) 3200 paid_block b ≤ uint_256_max
room_for_all b address = omega (arith, fresh_balance b address, due_bound b)

pay_rewards_lem_example :
    (w' : AccountDb Codes States) × (pay_rewards program constant_reward 3200 paid_block fresh
      ≡ (ok tt, w'))
    × ((b : Address)
        → IsAddress b
        → program.get_balance w' b
          ≡ program.get_balance fresh b + rewards_due (λ u. 700) 3200 paid_block b)
pay_rewards_lem_example =
    pay_rewards_lem program (IsReady memory_db memory_db toy) program-Lawful constant_reward
      (λ u. 700) 3200 paid_block fresh fresh-IsReady (addr-IsAddress 1 (omega arith))
      ((addr-IsAddress 2 (omega arith), refl), tt) room_for_all
