-- ===== src/Tests/Machine.antt =====
-- The whole machine on a program that calls another one.
use py_evm.Prelude.{
  All, ℕ, ◌-◌, ◌≤◌, ◌≡◌, refl, ◌≢◌, true, false, none, List, [], ◌∷◌, ◌++◌, arith, length, drop,
  replicate, if◌then◌else◌,
}
use py_evm.Vm.Computation.{Action, Computation, Context}
use py_evm.Vm.Forks.{homestead, tangerine_whistle, spurious_dragon, byzantium}
use py_evm.Vm.Steady.{Steady-pure, IsSound, gas_of}
use py_evm.Vm.Steady.Forks.{EndsWell, execute_fork_ends}
use py_evm.Numeric.{bytes_eq, Bytes}
use py_evm.Prelude.Exec.{ok, err, pure}
use py_evm.Exceptions.{fuel_exhausted}
use py_evm.Vm.Message.{Message, Address}
use py_evm.Vm.Accounts.{Accounts, Library}
use py_evm.Vm.Computation.Outcome
use py_evm.Vm.CodeStream.Jumps.{start-IsCache}
use py_evm.Vm.Run.{execute}
use py_evm.Vm.Precompiles.{Cryptography, frontier_precompiles}
use py_evm.Vm.Steady.World.{Uncut}
use py_evm.Vm.Steady.Machine.{execute_ends, execute-gas, execute-IsSound}

abbrev pub addr : ℕ → Address
addr n = replicate 19 0 ++ n ∷ []

-- JUMPDEST, PUSH1 1, POP, STOP
abbrev callee : Bytes
callee = 0x5b ∷ 0x60 ∷ 1 ∷ 0x50 ∷ 0x00 ∷ []

-- CALL with 50 gas to address 9, without value or memory, then STOP.
abbrev caller : Bytes
caller =
    0x60 ∷ 0 ∷ 0x60 ∷ 0 ∷ 0x60 ∷ 0 ∷ 0x60 ∷ 0 ∷ 0x60 ∷ 0 ∷ 0x60 ∷ 9 ∷ 0x60 ∷ 50 ∷ 0xf1 ∷ 0x00 ∷ []

-- Accounts with balances: the last one that was set counts.
abbrev pub Balances : Type 0
Balances = List (Address × ℕ)

abbrev balance_of : Balances → Address → ℕ
balance_of [] a = 0
balance_of ((b, n) ∷ rest) a = if bytes_eq a b then n else balance_of rest a

abbrev pub accounts : Accounts Balances
accounts = record {
  get_storage = λ w a k. 0;
  set_storage = λ a k v. pure tt;
  get_balance = balance_of;
  set_balance = λ a n w. (ok tt, (a, n) ∷ w);
  get_nonce = λ w a. 0;
  increment_nonce = λ a. pure tt;
  get_code = λ w a. if bytes_eq a (addr 9) then callee else [];
  set_code = λ a code. pure tt;
  account_has_code_or_nonce = λ w a. false;
  account_exists = λ w a. true;
  account_is_empty = λ w a. false;
  touch_account = λ a. pure tt;
  delete_account = λ a. pure tt;
  snapshot = λ w. (record { state_root = []; db_changeset = length w; trie_changeset = 0 }, w);
  revert = λ s w. (ok tt, drop (length w - s.db_changeset) w);
  commit = λ s. pure tt;
}

pub accounts-Uncut : Uncut accounts
accounts-Uncut = record {
  set_storage = λ a k v w e. cc;
  set_balance = λ a v w e. cc;
  increment_nonce = λ a w e. cc;
  set_code = λ a b w e. cc;
  touch_account = λ a w e. cc;
  delete_account = λ a w e. cc;
  revert = λ s w e. cc;
  commit = λ s w e. cc;
}

abbrev pub lib : Library
lib = record { keccak = λ b. b; encode_address_nonce = λ a n. n ∷ a }

abbrev pub crypto : Cryptography Unit
crypto = record {
  sha256 = λ b. b;
  ripemd160 = λ b. b;
  recover_public_key_from_msg_hash = λ vrs hash. none;
  to_canonical_address = λ _. [];
}

abbrev pub context : Context
context = record {
  coinbase = addr 1;
  timestamp = 2;
  block_number = 3;
  difficulty = 4;
  gas_limit = 5;
  prev_hashes = [];
  gas_price = 1;
  origin = addr 6;
}

abbrev pub message : Message
message = record {
  gas = 200;
  to = addr 7;
  sender = addr 8;
  value = 0;
  contents = [];
  code = caller;
  depth = 0;
  create_address = none;
  given_code_address = none;
  should_transfer_value = true;
  is_static = false;
}

abbrev pub computation : Computation Balances
computation = Outcome.start [] 0 context message

computation-IsSound : IsSound computation
computation-IsSound = record {
  stack = record { bounded = omega arith; items = tt };
  memory = refl;
  code = start-IsCache caller;
}

execute_ends_example :
    (execute lib accounts (frontier_precompiles crypto) 1025 computation).0 ≢ err fuel_exhausted
execute_ends_example =
    execute_ends lib crypto accounts accounts-Uncut 1025 computation (omega arith)

execute-gas_example :
    let x = execute lib accounts (frontier_precompiles crypto) 1025 computation in
    (gas_of x.1 ≤ gas_of computation) × (x.1.msg ≡ computation.msg)
execute-gas_example = execute-gas lib crypto accounts accounts-Uncut 1025 computation (omega arith)

execute-IsSound_example :
    IsSound (execute lib accounts (frontier_precompiles crypto) 1025 computation).1
execute-IsSound_example =
    execute-IsSound lib crypto accounts accounts-Uncut 1025 computation (omega arith)
      computation-IsSound

-- A contract that does nothing.
abbrev idle : Action Balances Unit
idle = pure tt

execute_fork_ends_example : All (EndsWell accounts 1025 computation) (
    homestead lib crypto accounts
    ∷ tangerine_whistle lib crypto accounts
    ∷ spurious_dragon lib crypto accounts
    ∷ byzantium lib crypto accounts idle idle idle
    ∷ [])
execute_fork_ends_example =
    execute_fork_ends lib crypto accounts accounts-Uncut idle idle idle (λ d. Steady-pure tt)
      (λ d. Steady-pure tt) (λ d. Steady-pure tt) 1025 computation (omega arith)
