-- ===== src/Vm/Executor.antt =====
-- evm/vm/forks/frontier/state.py: `FrontierTransactionExecutor`, with `validate_frontier_transaction`.
pub mod Payment
pub mod Purchase
pub mod Ends
use py_evm.Prelude.{
  ℕ, ◌+◌, ◌-◌, ◌*◌, ◌/◌, min, true, false, ◌&&◌, not, none, some, List, [], ◌∷◌, length, ltb, leb,
  ◌==◌, if◌then◌else◌,
}
use py_evm.Prelude.Exec.{ok, err, Result, ok, Exec, pure, gets, ◌>>=◌, ◌>>◌, raise_if}
use py_evm.Prelude.Int.{pos}
use py_evm.Constants.{uint_256_max, refund_selfdestruct}
use py_evm.Exceptions.{Exception, validation_error, contract_creation_collision}
use py_evm.Transactions.{UnsignedTransaction}
use py_evm.Vm.Message.{
  Message, Address, is_create_address, is_canonical, build, storage_address, is_create,
}
use py_evm.Vm.Accounts.{Accounts, Library, delta_balance}
use py_evm.Vm.Computation.{Computation, Context, Action, refund_gas}
use py_evm.Vm.Computation.Outcome.{start, get_gas_remaining}
use py_evm.Vm.Computation.Collect.{get_gas_refund, get_accounts_for_deletion}
use py_evm.Vm.Logic.Words.{negate}
use py_evm.Vm.Logic.World.{on_accounts}
use py_evm.Vm.Logic.Call.Create.{generate_contract_address}

-- A signed transaction as the executor sees it: its fields, and what its class says of it: the
-- intrinsic gas, the sender, and the outcome of `validate`.
pub record Submitted : Type 0 where
  pub fields : UnsignedTransaction
  pub sender : Address
  pub intrinsic_gas : ℕ
  pub checked : Result Exception Unit

-- `transaction.gas * transaction.gas_price`
abbrev pub gas_cost : Submitted → ℕ
gas_cost t = t.fields.gas * t.fields.gas_price

-- The refund, by the gas of the transaction, what is left, and the refund counter.
unfoldable pub capped_refund : ℕ → ℕ → ℕ → ℕ
capped_refund gas gas_remaining gas_refunded = min gas_refunded ((gas - gas_remaining) / 2)

module _ {W : Type 0} (db : Accounts W) where
  -- `validate_frontier_transaction`
  unfoldable pub validate_frontier_transaction : Submitted → Exec Exception W Unit
  validate_frontier_transaction t = do
    sender_balance ← gets (λ w. db.get_balance w t.sender)
    raise_if (ltb sender_balance (gas_cost t)) validation_error
    raise_if (ltb sender_balance (t.fields.value + gas_cost t)) validation_error
    nonce ← gets (λ w. db.get_nonce w t.sender)
    raise_if (not (nonce == t.fields.nonce)) validation_error

  -- `validate_transaction`
  unfoldable pub validate_transaction : Submitted → Exec Exception W Unit
  unfolding validate_frontier_transaction
  validate_transaction t = do
    raise_if (ltb t.fields.gas t.intrinsic_gas) validation_error
    λ w. (t.checked, w)
    validate_frontier_transaction t

  -- `get_transaction_context`, and its place among the constants of the block.
  unfoldable pub get_transaction_context : Context → Submitted → Exec Exception W Context
  get_transaction_context block t = do
    raise_if (not (leb t.fields.gas_price uint_256_max)) validation_error
    raise_if (not (is_canonical t.sender)) validation_error
    pure (record block { gas_price = t.fields.gas_price; origin = t.sender })

  module _ (lib : Library) where
    -- The message, when the gas is bought. The nonce was just incremented, so it is not 0.
    unfoldable pub message_of : Submitted → W → Message
    message_of t w =
        let creates = is_create_address t.fields.to in
        record {
          gas = t.fields.gas - t.intrinsic_gas;
          to = t.fields.to;
          sender = t.sender;
          value = t.fields.value;
          contents = if creates then [] else t.fields.«data»;
          code = if creates then t.fields.«data» else db.get_code w t.fields.to;
          depth = 0;
          create_address =
              if creates
              then some (generate_contract_address lib t.sender (db.get_nonce w t.sender - 1))
              else none;
          given_code_address = none;
          should_transfer_value = true;
          is_static = false;
        }

    -- `build_evm_message`
    unfoldable pub build_evm_message : Context → Submitted → Exec Exception W Message
    unfolding get_transaction_context message_of
    build_evm_message block t = do
      get_transaction_context block t
      delta_balance db t.sender (negate (gas_cost t))
      db.increment_nonce t.sender
      msg ← gets (message_of t)
      λ w. (build msg, w)

  -- `build_computation`, where `run` is what the class does with a fresh computation.
  unfoldable pub build_computation :
      Action W Unit → Context → Message → W → Result Exception Unit × Computation W
  build_computation run context msg w =
      let fresh = start w 0 context msg in
      if is_create msg && db.account_has_code_or_nonce w (storage_address msg)
      then (ok tt, record fresh { error = some contract_creation_collision })
      else run fresh

  -- The account of every pair is emptied and deleted.
  unfoldable pub delete_accounts : List (Address × Address) → Action W Unit
  delete_accounts [] = pure tt
  delete_accounts ((account, beneficiary) ∷ rest) = do
    on_accounts (db.set_balance account 0)
    on_accounts (db.delete_account account)
    delete_accounts rest

  -- The refunds and fees of `finalize_computation`.
  unfoldable pub settle : Submitted → Action W Unit
  unfolding capped_refund
  settle t = do
    gas_remaining ← gets get_gas_remaining
    gas_refunded ← gets get_gas_refund
    let gas_refund = capped_refund t.fields.gas gas_remaining gas_refunded
    let gas_refund_amount = (gas_refund + gas_remaining) * t.fields.gas_price
    sender ← gets (λ c. c.msg.sender)
    if gas_refund_amount == 0
        then pure tt
        else on_accounts (delta_balance db sender (pos gas_refund_amount))
    coinbase ← gets (λ c. c.context.coinbase)
    on_accounts (
        delta_balance db coinbase
          (pos ((t.fields.gas - gas_remaining - gas_refund) * t.fields.gas_price)))

  -- `finalize_computation`
  unfoldable pub finalize_computation : Submitted → Action W Unit
  unfolding settle delete_accounts
  finalize_computation t = do
    num_deletions ← gets (λ c. length (get_accounts_for_deletion c))
    if num_deletions == 0 then pure tt else refund_gas (refund_selfdestruct * num_deletions)
    settle t
    deletions ← gets get_accounts_for_deletion
    delete_accounts deletions

  -- `__call__`, on the accounts: the finished computation, or the exception, and the accounts after
  -- it.
  unfoldable pub execute_transaction :
      Library → Action W Unit → Context → Submitted → Exec Exception W (Computation W)
  unfolding build_evm_message build_computation finalize_computation validate_transaction
      get_transaction_context
  execute_transaction lib run block t = do
    validate_transaction t
    msg ← build_evm_message lib block t
    context ← get_transaction_context block t
    λ w.
        let (built, c) = build_computation run context msg w in
        elim built [
          | err e ↦ (err e, c.accounts)
          | ok _ ↦
              let (finalized, c') = finalize_computation t c in
              elim finalized [ err e ↦ (err e, c'.accounts) | ok _ ↦ (ok c', c'.accounts) ]
        ]
