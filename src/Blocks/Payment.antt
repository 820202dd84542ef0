-- ===== src/Blocks/Payment.antt =====
-- The rewards that finalize_block pays.
use py_evm.Prelude.{
  ℕ, ◌+◌, ◌*◌, ◌≤◌, ◌≡◌, refl, ap, ◌∙◌, inl, inr, List, [], ◌∷◌, arith, length, All, if◌then◌else◌,
  Bool-cases,
}
use py_evm.Prelude.Exec.{Result, ok, ◌>>◌, >>=-ok}
use py_evm.Prelude.Int.{ℤ, pos}
use py_evm.Exceptions.{Exception}
use py_evm.Constants.{uint_256_max}
use py_evm.Numeric.{bytes_eq}
use py_evm.Numeric.Equal.{bytes_eq_self, bytes_eq-eq}
use py_evm.Headers.{BlockHeader}
use py_evm.Db.Chain.{Block}
use py_evm.Vm.Message.{Address, IsAddress}
use py_evm.Vm.Accounts.{Accounts, delta_balance}
use py_evm.Vm.Executor.Payment.{Lawful}
use py_evm.Blocks.{pay_uncles, pay_rewards, get_nephew_reward}

-- What a payment of `n` to `a` is for the address `b`.
abbrev pub share : Address → ℕ → Address → ℕ
share a n b = if bytes_eq a b then n else 0

-- What the uncles' miners are due.
unfoldable pub uncles_due : (BlockHeader → ℕ) → List BlockHeader → Address → ℕ
uncles_due amount [] b = 0
uncles_due amount (u ∷ us) b = share u.coinbase (amount u) b + uncles_due amount us b

-- What an address is due for a block: as its miner, and as the miner of its uncles.
abbrev pub rewards_due : (BlockHeader → ℕ) → ℕ → Block → Address → ℕ
rewards_due amount reward block b =
    share block.header.coinbase (reward + length block.uncles * get_nephew_reward reward) b
    + uncles_due amount block.uncles b

module _ {W : Type 0} (db : Accounts W) (IsReady : W → Type 0) (lawful : Lawful db IsReady) where
  pay_lem :
      (a : Address) (n : ℕ) (w : W)
      → IsReady w
      → IsAddress a
      → db.get_balance w a + n ≤ uint_256_max
      → (w' : W) × (delta_balance db a (pos n) w ≡ (ok tt, w'))
        × IsReady w'
        × ((b : Address) → IsAddress b → db.get_balance w' b ≡ db.get_balance w b + share a n b)
  unfolding delta_balance
  pay_lem a n w ready address h =
      let v = db.get_balance w a + n in
      let (done, ready') = lawful.set_ok a v w ready address h in
      (
        (db.set_balance a v w).1,
        ap (λ r. (r, (db.set_balance a v w).1)) done,
        ready',
        λ b other_address. elim (Bool-cases (bytes_eq a b)) [
          | inl same ↦
              let e = bytes_eq-eq a b same in rw (same, ← e) (lawful.get_set a v w ready address h)
          | inr other ↦
              rw other (lawful.get_other a b v w ready address other_address h other ∙ omega arith)
        ],
      )

  module _ (uncle_reward : ℕ → BlockHeader → Result Exception ℤ) (amount : BlockHeader → ℕ)
      (number : ℕ) where
    pay_uncles-next :
        (u : BlockHeader) (us : List BlockHeader) (w : W) (n : ℕ)
        → uncle_reward number u ≡ ok (pos n)
        → pay_uncles db uncle_reward number (u ∷ us) w
          ≡ (delta_balance db u.coinbase (pos n) >> pay_uncles db uncle_reward number us) w
    unfolding pay_uncles
    pay_uncles-next u us w n e = rw (e, pay_uncles)

    pay_uncles_lem :
        (us : List BlockHeader) (w : W)
        → IsReady w
        → All (λ u. IsAddress u.coinbase × (uncle_reward number u ≡ ok (pos (amount u)))) us
        → ((b : Address) → IsAddress b → db.get_balance w b + uncles_due amount us b ≤ uint_256_max)
        → (w' : W) × (pay_uncles db uncle_reward number us w ≡ (ok tt, w'))
          × ((b : Address)
              → IsAddress b
              → db.get_balance w' b ≡ db.get_balance w b + uncles_due amount us b)
    unfolding pay_uncles uncles_due
    pay_uncles_lem [] w ready rewards room = (w, refl, λ b address. omega arith)
    pay_uncles_lem (u ∷ us) w ready ((miner, reward), rewards) room =
        let own = room u.coinbase miner in
        let all_of : share u.coinbase (amount u) u.coinbase ≡ amount u =
          rw (bytes_eq_self u.coinbase) in
        let (v, paid, ready', after) =
          pay_lem u.coinbase (amount u) w ready miner (omega (arith, own, all_of)) in
        let (w', run, end) =
          pay_uncles_lem us v ready' rewards (λ b p. omega (arith, room b p, after b p)) in
        (
          w',
          pay_uncles-next u us w (amount u) reward
              ∙ >>=-ok (delta_balance db u.coinbase (pos (amount u)))
                  (λ _. pay_uncles db uncle_reward number us) w v tt paid
              ∙ run,
          λ b p. omega (arith, end b p, after b p),
        )

  -- Over an account database that keeps balances and is ready, when the miners of a block and of its
  -- uncles have addresses of 20 bytes, every uncle has a reward that is not negative, and every balance
  -- has room for what its address is due, the payments of finalize_block succeed: the balance of every
  -- address grows by just what it is due, as the miner of the block, of one or several of its uncles, or
  -- of both.
  pub pay_rewards_lem :
      (uncle_reward : ℕ → BlockHeader → Result Exception ℤ) (amount : BlockHeader → ℕ) (reward : ℕ)
      (block : Block) (w : W)
      → IsReady w
      → IsAddress block.header.coinbase
      → All
          (λ u.
            IsAddress u.coinbase × (uncle_reward block.header.block_number u ≡ ok (pos (amount u))))
          block.uncles
      → ((b : Address)
          → IsAddress b
          → db.get_balance w b + rewards_due amount reward block b ≤ uint_256_max)
      → (w' : W) × (pay_rewards db uncle_reward reward block w ≡ (ok tt, w'))
        × ((b : Address)
            → IsAddress b
            → db.get_balance w' b ≡ db.get_balance w b + rewards_due amount reward block b)
  unfolding pay_rewards
  pay_rewards_lem uncle_reward amount reward block w ready miner rewards room =
      let a = block.header.coinbase in
      let n = reward + length block.uncles * get_nephew_reward reward in
      let own = room a miner in
      let all_of : share a n a ≡ n = rw (bytes_eq_self a) in
      let (v, paid, ready', after) = pay_lem a n w ready miner (omega (arith, own, all_of)) in
      let (w', run, end) =
        pay_uncles_lem uncle_reward amount block.header.block_number block.uncles v ready' rewards
          (λ b p. omega (arith, room b p, after b p)) in
      (
        w',
        >>=-ok (delta_balance db a (pos n))
              (λ _. pay_uncles db uncle_reward block.header.block_number block.uncles) w v tt paid
            ∙ run,
        λ b p. omega (arith, end b p, after b p),
      )
