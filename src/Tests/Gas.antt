-- ===== src/Tests/Gas.antt =====
-- The gas search at a call that needs 6 gas beyond the intrinsic gas, with the executor of the program.
use py_evm.Prelude.{ℕ, ◌<◌, ◌≡◌, refl, sym, ◌⊎◌, inl, inr, Option, none, some, [], ◌∷◌, arith}
use mathlib.Core.Path.{subst}
use py_evm.Prelude.Exec.{ok, err, Exec}
use py_evm.Exceptions.{Exception, VmError, out_of_gas, validation_error}
use py_evm.Vm.Executor.{Submitted}
use py_evm.Estimators.{spoof_free, spoof_gas, binary_gas_search, get_computation_error}
use py_evm.Estimators.Search.{Answers, Trial, IsAnswered, Outcome, binary_gas_search_finds}
use py_evm.Vm.Run
use py_evm.Vm.Accounts.{delta_balance}
use py_evm.Vm.Message.{build, is_create, code_address}
use py_evm.Vm.Logic.Flow.{jumpdest_op, stop}
use py_evm.Vm.Logic.Data
use py_evm.Vm.Stack
use py_evm.Vm.Opcodes.{push_opcodes, get_opcode_fn, frontier_opcodes}
use py_evm.Vm.CodeStream.{next}
use py_evm.Vm.Computation
use py_evm.Vm.GasMeter
use py_evm.Vm.Computation.Outcome.{is_error, get_gas_remaining}
use py_evm.Vm.Computation.Collect.{child_deletions}
use py_evm.Vm.Executor.{execute_transaction}
use py_evm.Vm.Precompiles.{frontier_precompiles}
use py_evm.Tests.Machine.{addr, lib, crypto, context, Balances, accounts}

-- The executor of the program, with three levels of calls.
abbrev execute : Submitted → Exec Exception Balances (Option VmError)
execute t w =
    let (r, w') =
      execute_transaction accounts lib (Run.execute lib accounts (frontier_precompiles crypto) 3)
        context t w in
    elim r [ ok c ↦ (ok c.error, w') | err e ↦ (err e, w') ]

-- A call of the contract at address 9, which needs 6 gas.
abbrev submitted : Submitted
submitted = record {
  fields = record { nonce = 0; gas_price = 1; gas = 0; to = addr 9; value = 0; «data» = [] };
  sender = addr 8;
  intrinsic_gas = 21000;
  checked = ok tt;
}

abbrev rich : Balances
rich = (addr 8, 100000) ∷ []

abbrev too_little : Option VmError
too_little = some out_of_gas

-- Below the intrinsic gas a transaction is refused, so no trial answers.
refused_below :
    (get_computation_error accounts execute (spoof_gas 20999 submitted) rich).0
    ≡ err validation_error
unfolding get_computation_error execute_transaction
refused_below = refl

trials :
    Trial accounts execute rich (spoof_free 21000 submitted) too_little
    × Trial accounts execute rich (spoof_gas 21001 submitted) too_little
    × Trial accounts execute rich (spoof_gas 21002 submitted) too_little
    × Trial accounts execute rich (spoof_gas 21003 submitted) too_little
    × Trial accounts execute rich (spoof_gas 21004 submitted) too_little
    × Trial accounts execute rich (spoof_gas 21005 submitted) too_little
    × Trial accounts execute rich (spoof_gas 21006 submitted) none
    × Trial accounts execute rich (spoof_free 21007 submitted) none
unfolding get_computation_error execute_transaction delta_balance build is_create Run.execute
    frontier_precompiles code_address get_opcode_fn frontier_opcodes next Computation.consume_gas
    GasMeter.consume_gas is_error child_deletions get_gas_remaining jumpdest_op push_opcodes
    Data.push_xx Computation.stack_push Stack.push Data.pop Computation.stack_pop Stack.pop stop
trials = (refl, refl, refl, refl, refl, refl, refl, refl)

amounts :
    (gas : ℕ)
    → 21000 < gas
    → gas < 21007
    → (gas ≡ 21001)
      ⊎ ((gas ≡ 21002) ⊎ ((gas ≡ 21003) ⊎ ((gas ≡ 21004) ⊎ ((gas ≡ 21005) ⊎ (gas ≡ 21006)))))
amounts gas above below = ground arith

with_gas :
    (gas n : ℕ) (r : Option VmError)
    → gas ≡ n
    → Trial accounts execute rich (spoof_gas n submitted) r
    → IsAnswered accounts execute rich (spoof_gas gas submitted)
with_gas gas n r same run =
    (r, subst (λ x. Trial accounts execute rich (spoof_gas x submitted) r) (sym same) run)

answers_between :
    (gas : ℕ)
    → 21000 < gas
    → gas < 21007
    → IsAnswered accounts execute rich (spoof_gas gas submitted)
answers_between gas above below =
    let (_, one, two, three, four, five, six, _) = trials in
    elim (amounts gas above below) [
      | inl e ↦ with_gas gas 21001 too_little e one
      | inr (inl e) ↦ with_gas gas 21002 too_little e two
      | inr (inr (inl e)) ↦ with_gas gas 21003 too_little e three
      | inr (inr (inr (inl e))) ↦ with_gas gas 21004 too_little e four
      | inr (inr (inr (inr (inl e)))) ↦ with_gas gas 21005 too_little e five
      | inr (inr (inr (inr (inr e)))) ↦ with_gas gas 21006 none e six
    ]

answers : Answers accounts execute rich submitted 21007
answers =
    let (low, _, _, _, _, _, _, high) = trials in ((too_little, low), (none, high), answers_between)

binary_gas_search_finds_example :
    Outcome accounts execute rich submitted 21007 1
      (binary_gas_search accounts execute 4 1 21007 submitted rich)
binary_gas_search_finds_example =
    binary_gas_search_finds accounts execute rich submitted 3 1 21007 answers (omega arith)
      (omega arith) (omega arith)
