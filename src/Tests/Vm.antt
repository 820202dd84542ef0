-- ===== src/Tests/Vm.antt =====
-- The machine's parts at concrete inputs.
use py_evm.Prelude.{
  ℕ, ◌≤◌, ◌<◌, ◌≡◌, refl, ◌≢◌, ◌⊎◌, true, false, none, [], ◌∷◌, map, arith, length, get_elem?,
  replicate,
}
use py_evm.Prelude.Int.{ℤ, pos, negsuc}
use py_evm.Prelude.Exec.{ok, err}
use py_evm.Exceptions.{vm_error, out_of_gas, invalid_instruction, invalid_jump_destination}
use py_evm.Numeric.{Bytes}
use py_evm.Vm.Stack.{Stack, int, bytes, uint256, push, swap}
use py_evm.Vm.Stack.Laws.{
  IsValid, calls, push_call, pop_call, swap_call, dup_call, calls-IsValid, swap_exchanges,
}
use py_evm.Vm.Memory.{Memory, write, read, extend}
use py_evm.Vm.Memory.Laws.{read-write, IsWhole}
use py_evm.Vm.GasMeter.{GasMeter}
use py_evm.Vm.GasMeter.Laws
use py_evm.Vm.GasMeter.Laws.{Ledger, Balances, consume, refund, give_back, calls-Balances}
use py_evm.Vm.CodeStream.{start}
use py_evm.Vm.CodeStream.Walk.{opcode_at}
use py_evm.Vm.CodeStream.Jumps.{IsCache, start-IsCache, answers, answers-start}
use py_evm.Vm.Computation.Expansion.{Paid, extend_memory_lem}
use py_evm.Vm.Computation.{extend_memory, Computation, Context}
use py_evm.Vm.Computation.Outcome
use py_evm.Vm.Message.{Message}
use py_evm.Vm.Logic.Flow.{jump_to}
use py_evm.Vm.Logic.Flow.Laws.{outcome, jump_to_lem}
use py_evm.Vm.Logic.Words.{smod_signed, mask, sdiv_signed}
use py_evm.Vm.Logic.Words.Laws.{IsQuotient, sdiv_signed-IsQuotient}
use py_evm.Vm.Run.{leave}
use py_evm.Vm.Run.Exits.{Left, leave_lem}

abbrev three : Stack
three = record { values = int 1 ∷ int 2 ∷ bytes (7 ∷ []) ∷ [] }

three-IsValid : IsValid three
three-IsValid = record { bounded = omega arith; items = (refl, (refl, (refl, tt))) }

calls-IsValid_example :
    IsValid (calls (push_call (int 7) ∷ swap_call 1 ∷ pop_call uint256 ∷ dup_call 2 ∷ []) three)
calls-IsValid_example =
    calls-IsValid (push_call (int 7) ∷ swap_call 1 ∷ pop_call uint256 ∷ dup_call 2 ∷ []) three
      three-IsValid

push_five : push (int 5) three ≡ (ok tt, record { values = int 5 ∷ three.values })
unfolding push
push_five = refl

swap_exchanges_example :
    let (r, t) = swap 2 three in
    (r ≡ ok tt)
    × (get_elem? t.values 0 ≡ get_elem? three.values 2)
    × (get_elem? t.values 2 ≡ get_elem? three.values 0)
    × ((j : ℕ) → j ≢ 0 → j ≢ 2 → get_elem? t.values j ≡ get_elem? three.values j)
swap_exchanges_example = swap_exchanges 2 three (omega arith)

abbrev word : Memory
word = record { content = replicate 32 0 }

read-write_example :
    let (r, t) = write 30 2 (5 ∷ 6 ∷ []) word in
    (r ≡ ok tt)
    × (read 30 2 t ≡ 5 ∷ 6 ∷ [])
    × (length t.content ≡ length word.content)
    × ((i : ℕ) → (i < 30) ⊎ (32 ≤ i) → get_elem? t.content i ≡ get_elem? word.content i)
read-write_example =
    read-write 30 2 (5 ∷ 6 ∷ []) word (omega arith) (omega arith) refl (omega arith)

word-IsWhole : IsWhole word
word-IsWhole = refl

abbrev hundred : GasMeter
hundred = record { start_gas = 100; gas_refunded = 0; gas_remaining = 100 }

abbrev ledger : Ledger
ledger = record { meter = hundred; consumed = 0; returned = 0; refunded = 0 }

calls-Balances_example : Balances (
    Laws.calls
      (consume (pos 30) ∷ refund (pos 5) ∷ consume (pos 99) ∷ give_back (negsuc 1) ∷ [])
      ledger)
calls-Balances_example =
    calls-Balances
      (consume (pos 30) ∷ refund (pos 5) ∷ consume (pos 99) ∷ give_back (negsuc 1) ∷ []) ledger
      (record { remaining = refl; refunds = refl })

-- JUMPDEST, PUSH2 with a JUMPDEST in its data, JUMPDEST.
abbrev code : Bytes
code = 0x5b ∷ 0x61 ∷ 0x5b ∷ 0x00 ∷ 0x5b ∷ []

answers-start_example :
    answers (4 ∷ 2 ∷ 0 ∷ 9 ∷ []) (start code) ≡ map (opcode_at 0 code) (4 ∷ 2 ∷ 0 ∷ 9 ∷ [])
answers-start_example = answers-start code (4 ∷ 2 ∷ 0 ∷ 9 ∷ [])

walked : map (opcode_at 0 code) (4 ∷ 2 ∷ 0 ∷ 9 ∷ []) ≡ true ∷ false ∷ true ∷ false ∷ []
unfolding opcode_at
walked = refl

abbrev context : Context
context = record {
  coinbase = 1 ∷ [];
  timestamp = 2;
  block_number = 3;
  difficulty = 4;
  gas_limit = 5;
  prev_hashes = [];
  gas_price = 1;
  origin = 6 ∷ [];
}

abbrev message : Message
message = record {
  gas = 100;
  to = 7 ∷ [];
  sender = 8 ∷ [];
  value = 0;
  contents = [];
  code = code;
  depth = 0;
  create_address = none;
  given_code_address = none;
  should_transfer_value = true;
  is_static = false;
}

abbrev computation : Computation Unit
computation = Outcome.start tt 0 context message

jump_to_lem_example :
    ((jump_to 4 computation).0 ≡ outcome code 4)
    × ((jump_to 4 computation).0 ≡ ok tt → (jump_to 4 computation).1.code.position ≡ 4)
    × ((jump_to 4 computation).1.code.code ≡ code)
    × IsCache (jump_to 4 computation).1.code
jump_to_lem_example = jump_to_lem 4 computation (start-IsCache code)

outcomes :
    map (outcome code) (4 ∷ 2 ∷ 3 ∷ 9 ∷ [])
    ≡ ok tt
      ∷ err (vm_error invalid_instruction)
      ∷ err (vm_error invalid_jump_destination)
      ∷ err (vm_error invalid_jump_destination)
      ∷ []
unfolding opcode_at
outcomes = refl

extend_memory_lem_example :
    Paid computation (extend_memory 40 3 computation).1
    × ((extend_memory 40 3 computation).0 ≡ ok tt
        → (extend_memory 40 3 computation).1.memory ≡ extend 40 3 computation.memory)
extend_memory_lem_example = extend_memory_lem 40 3 computation refl

leave_lem_example :
    Left (err (vm_error out_of_gas)) computation (leave (err (vm_error out_of_gas), computation))
leave_lem_example = leave_lem (err (vm_error out_of_gas)) computation refl

sdiv_signed-IsQuotient_example :
    (r : ℤ) × (smod_signed (negsuc 6) (pos 2) ≡ mask r)
    × IsQuotient (negsuc 6) (pos 2) (sdiv_signed (negsuc 6) (pos 2)) r
sdiv_signed-IsQuotient_example = sdiv_signed-IsQuotient (negsuc 6) (pos 2) (λ e. cc)
