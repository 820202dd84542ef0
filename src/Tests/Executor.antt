-- ===== src/Tests/Executor.antt =====
-- A transaction from validation to the settling of its gas.
use py_evm.Prelude.{◌+◌, ◌≤◌, ◌≡◌, refl, ◌≢◌, ◌↔◌, [], ◌∷◌, arith, replicate}
use py_evm.Prelude.Exec.{ok, err}
use py_evm.Exceptions.{fuel_exhausted}
use py_evm.Vm.Accounts.{Library}
use py_evm.Vm.Computation.{Computation}
use py_evm.Vm.Computation.Outcome.{get_gas_remaining}
use py_evm.Vm.Run.{execute}
use py_evm.Vm.Precompiles.{frontier_precompiles}
use py_evm.Vm.Executor.{
  Submitted, validate_transaction, build_evm_message, settle, execute_transaction,
}
use py_evm.Vm.Computation.Outcome
use py_evm.Db.Database.{memory_db}
use py_evm.Db.Account.{AccountDb}
use py_evm.Db.Account.Interface.{IsReady}
use py_evm.Tests.State.{
  Codes, States, toy, program, program-Lawful, funded, funded_balance, funded_nonce, miner_balance,
  addr-IsAddress,
}
use py_evm.Vm.Executor.Payment.{IsPayable, Settled, validate_transaction_iff, settle_lem}
use py_evm.Vm.Executor.Purchase.{IsFormed, Hashes, Bought, build_evm_message_lem}
use py_evm.Vm.Executor.Ends.{execute_transaction_ends}
use py_evm.Tests.Machine.{addr, Balances, accounts, accounts-Uncut, lib, crypto, context, message}

-- A hash of 32 bytes.
abbrev hash_lib : Library
hash_lib = record { keccak = λ b. replicate 32 1; encode_address_nonce = λ a n. n ∷ a }

hash_lib-Hashes : Hashes hash_lib
hash_lib-Hashes = record { long = λ b. omega arith }

abbrev balances : Balances
balances = (addr 8, 100000) ∷ []

abbrev submitted : Submitted
submitted = record {
  fields = record { nonce = 0; gas_price = 2; gas = 30000; to = addr 7; value = 5; «data» = [] };
  sender = addr 8;
  intrinsic_gas = 21000;
  checked = ok tt;
}

submitted-IsPayable : IsPayable accounts submitted balances
submitted-IsPayable = record {
  intrinsic = omega arith;
  checked = refl;
  funds = omega arith;
  nonce = refl;
}

submitted-IsFormed : IsFormed submitted
submitted-IsFormed = record {
  gas_price = omega arith;
  gas = omega arith;
  value = omega arith;
  to = refl;
  sender = addr-IsAddress 8 (omega arith);
  nonce = omega arith;
}

-- Over the account database of the program.
funded-IsPayable : IsPayable program submitted funded
funded-IsPayable = record {
  intrinsic = omega arith;
  checked = refl;
  funds = omega (arith, funded_balance);
  nonce = funded_nonce;
}

funded-IsReady : IsReady memory_db memory_db toy funded
funded-IsReady e = cc

validate_transaction_iff_example :
    ((validate_transaction accounts submitted balances).1 ≡ balances)
    × (((validate_transaction accounts submitted balances).0 ≡ ok tt)
        ↔ IsPayable accounts submitted balances)
validate_transaction_iff_example = validate_transaction_iff accounts submitted balances

build_evm_message_lem_example :
    Bought program submitted funded (build_evm_message program hash_lib context submitted funded)
build_evm_message_lem_example =
    build_evm_message_lem program (IsReady memory_db memory_db toy) program-Lawful hash_lib
      hash_lib-Hashes context submitted funded funded-IsReady submitted-IsFormed funded-IsPayable
      (omega (arith, funded_balance))

abbrev finished : Computation (AccountDb Codes States)
finished = Outcome.start funded 0 context message

settle_lem_example : Settled program submitted finished (settle program submitted finished)
settle_lem_example =
    settle_lem program (IsReady memory_db memory_db toy) program-Lawful submitted finished
      funded-IsReady (addr-IsAddress 8 (omega arith)) (addr-IsAddress 1 (omega arith))
      (unfold get_gas_remaining in omega arith) refl refl (omega (arith, funded_balance))
      (omega (arith, miner_balance))

execute_transaction_ends_example :
    let x =
      execute_transaction accounts lib
        (execute lib accounts (frontier_precompiles crypto) 1025)
        context
        submitted
        balances in
    (x.0 ≢ err fuel_exhausted)
    × ((c : Computation Balances)
        → x.0 ≡ ok c
        → submitted.intrinsic_gas + get_gas_remaining c ≤ submitted.fields.gas)
execute_transaction_ends_example =
    execute_transaction_ends lib crypto accounts accounts-Uncut 1025 (omega arith) context submitted
      balances (λ e. cc)
