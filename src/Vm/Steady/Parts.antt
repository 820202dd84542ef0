-- ===== src/Vm/Steady/Parts.antt =====
-- The calls that a computation hands on to its parts are steady.
use py_evm.Prelude.{ℕ, ◌≤◌, refl, ◌≢◌, Bool, true, false, arith}
use py_evm.Prelude.Exec.{ok, err, Exec, modify, raise_if}
use py_evm.Prelude.Int.{pos}
use py_evm.Exceptions.{
  Exception, VmError, vm_error, halt, value_error, type_error, fuel_exhausted, validation_error,
}
use py_evm.Numeric.{Bytes}
use py_evm.Vm.Stack
use py_evm.Vm.Stack.{Item, TypeHint, Popped}
use py_evm.Vm.Memory
use py_evm.Vm.Memory.{Memory, validate_uint256}
use py_evm.Vm.Memory.Laws.{extend_lem, write-IsWhole, write_uncut}
use py_evm.Vm.GasMeter
use py_evm.Vm.GasMeter.{GasMeter}
use py_evm.Vm.CodeStream.{CodeStream}
use py_evm.Vm.CodeStream.Jumps.{IsCache}
use py_evm.Vm.Computation.{
  Computation, on_stack, on_code, consume_gas, return_gas, refund_gas, stack_push, stack_pop,
  stack_pop2, stack_pop3, stack_pop_list, stack_swap, stack_dup, memory_read, memory_write,
  pay_expansion, extend_memory, set_output,
}
use py_evm.Vm.Logic.World.{on_accounts}
use py_evm.Vm.Steady.{
  Steady, Ran, IsSound, gas_of, Steady-pure, Steady-raise, Steady-gets, Steady-if, Steady-bind,
}
use py_evm.Vm.Steady.Items.{
  Fine, Fine-push, Fine-pop, Fine-pop2, Fine-pop3, Fine-pop_list, Fine-swap, Fine-dup,
}

consume_uncut :
    (amount : ℕ) (g : GasMeter)
    → ((GasMeter.consume_gas (pos amount) g).0 ≢ err fuel_exhausted)
      × ((GasMeter.consume_gas (pos amount) g).1.gas_remaining ≤ g.gas_remaining)
unfolding GasMeter.consume_gas
consume_uncut amount g = (λ e. ground arith, ground arith)

-- No exception of the program marks a cut.
pub vm_error_ne : (e : VmError) → vm_error e ≢ fuel_exhausted
vm_error_ne e p = cc

pub halt_ne : halt ≢ fuel_exhausted
halt_ne p = cc

pub validation_error_ne : validation_error ≢ fuel_exhausted
validation_error_ne p = cc

pub value_error_ne : value_error ≢ fuel_exhausted
value_error_ne p = cc

pub type_error_ne : type_error ≢ fuel_exhausted
type_error_ne p = cc

pub ruleset uncut = (vm_error_ne, halt_ne, validation_error_ne, value_error_ne, type_error_ne)

module _ {W : Type 0} {d : ℕ} where
  pub Steady-raise_if :
      (b : Bool) (e : Exception) → e ≢ fuel_exhausted → Steady {W = W} d 0 (raise_if b e)
  Steady-raise_if true e n = Steady-raise e n
  Steady-raise_if false e n = Steady-pure tt

  -- What is the same in the message, the gas meter, the stack, the memory and the code.
  pub Steady-modify :
      (f : Computation W → Computation W)
      → ((c : Computation W) → Ran {A = Unit} 0 c (ok tt, f c))
      → Steady d 0 (modify f)
  Steady-modify f k = record { at = λ c h. k c }

  pub Steady-on_stack : {A : Type 0} (m : Stack.Action A) → Fine m → Steady d 0 (on_stack {W = W} m)
  Steady-on_stack m fine = record {
    at = λ c h. record {
      uncut = fine.uncut c.stack;
      same_msg = refl;
      gas = omega arith;
      sound = λ s. record { stack = fine.keeps c.stack s.stack; memory = s.memory; code = s.code };
    };
  }

  pub Steady-on_code :
      {A : Type 0} (m : CodeStream → A × CodeStream)
      → ((s : CodeStream) → IsCache s → IsCache (m s).1)
      → Steady d 0 (on_code {W = W} m)
  Steady-on_code m k = record {
    at = λ c h. record {
      uncut = λ e. cc;
      same_msg = refl;
      gas = omega arith;
      sound = λ s. record { stack = s.stack; memory = s.memory; code = k c.code s.code };
    };
  }

  pub Steady-on_accounts :
      {A : Type 0} (m : Exec Exception W A)
      → ((w : W) → (m w).0 ≢ err fuel_exhausted)
      → Steady d 0 (on_accounts m)
  Steady-on_accounts m k = record {
    at = λ c h. record {
      uncut = k c.accounts;
      same_msg = refl;
      gas = omega arith;
      sound = λ s. record { stack = s.stack; memory = s.memory; code = s.code };
    };
  }

  pub Steady-stack_push : (value : Item) → Steady {W = W} d 0 (stack_push value)
  unfolding stack_push
  Steady-stack_push value = Steady-on_stack (Stack.push value) (Fine-push value)

  pub Steady-stack_pop : (hint : TypeHint) → Steady {W = W} d 0 (stack_pop hint)
  unfolding stack_pop
  Steady-stack_pop hint = Steady-on_stack (Stack.pop hint) (Fine-pop hint)

  pub Steady-stack_pop2 : (hint : TypeHint) → Steady {W = W} d 0 (stack_pop2 hint)
  unfolding stack_pop2
  Steady-stack_pop2 hint = Steady-on_stack (Stack.pop2 hint) (Fine-pop2 hint)

  pub Steady-stack_pop3 : (hint : TypeHint) → Steady {W = W} d 0 (stack_pop3 hint)
  unfolding stack_pop3
  Steady-stack_pop3 hint = Steady-on_stack (Stack.pop3 hint) (Fine-pop3 hint)

  pub Steady-stack_pop_list :
      (count : ℕ) (hint : TypeHint) → Steady {W = W} d 0 (stack_pop_list count hint)
  unfolding stack_pop_list
  Steady-stack_pop_list count hint =
      Steady-on_stack (Stack.pop_list count hint) (Fine-pop_list count hint)

  pub Steady-stack_swap : (position : ℕ) → Steady {W = W} d 0 (stack_swap position)
  unfolding stack_swap
  Steady-stack_swap position = Steady-on_stack (Stack.swap position) (Fine-swap position)

  pub Steady-stack_dup : (position : ℕ) → Steady {W = W} d 0 (stack_dup position)
  unfolding stack_dup
  Steady-stack_dup position = Steady-on_stack (Stack.dup position) (Fine-dup position)

  pub Steady-memory_read :
      (start_position size : ℕ) → Steady {W = W} d 0 (memory_read start_position size)
  unfolding memory_read
  Steady-memory_read start_position size =
      Steady-gets (λ c. Memory.read start_position size c.memory)

  pub Steady-memory_write :
      (start_position size : ℕ) (value : Bytes)
      → Steady {W = W} d 0 (memory_write start_position size value)
  unfolding memory_write
  Steady-memory_write start_position size value = record {
    at = λ c h. record {
      uncut = write_uncut start_position size value c.memory;
      same_msg = refl;
      gas = omega arith;
      sound = λ s. record {
        stack = s.stack;
        memory = write-IsWhole start_position size value c.memory s.memory;
        code = s.code;
      };
    };
  }

  pub Steady-consume_gas : (amount : ℕ) → Steady {W = W} d 0 (consume_gas amount)
  unfolding consume_gas
  Steady-consume_gas amount = record {
    at = λ c h. record {
      uncut = (consume_uncut amount c.gas_meter).0;
      same_msg = refl;
      gas = omega (arith, (consume_uncut amount c.gas_meter).1);
      sound = λ s. record { stack = s.stack; memory = s.memory; code = s.code };
    };
  }

  pub Steady-return_gas : (amount : ℕ) → Steady {W = W} d amount (return_gas amount)
  unfolding return_gas GasMeter.return_gas
  Steady-return_gas amount = record {
    at = λ c h. record {
      uncut = λ e. cc;
      same_msg = refl;
      gas = omega arith;
      sound = λ s. record { stack = s.stack; memory = s.memory; code = s.code };
    };
  }

  pub Steady-refund_gas : (amount : ℕ) → Steady {W = W} d 0 (refund_gas amount)
  unfolding refund_gas GasMeter.refund_gas
  Steady-refund_gas amount = record {
    at = λ c h. record {
      uncut = λ e. cc;
      same_msg = refl;
      gas = omega arith;
      sound = λ s. record { stack = s.stack; memory = s.memory; code = s.code };
    };
  }

  pub Steady-set_output : (value : Bytes) → Steady {W = W} d 0 (set_output value)
  unfolding set_output
  Steady-set_output value = record {
    at = λ c h. record {
      uncut = λ e. cc;
      same_msg = refl;
      gas = omega arith;
      sound = λ s. record { stack = s.stack; memory = s.memory; code = s.code };
    };
  }

  Steady-pay_expansion :
      (before_size after_size : ℕ) → Steady {W = W} d 0 (pay_expansion before_size after_size)
  unfolding pay_expansion
  Steady-pay_expansion before_size after_size = search (Steady-if, Steady-consume_gas, Steady-pure)

  Steady-memory_extend :
      (start_position size : ℕ)
      → Steady {W = W} d 0
          (modify (λ c. record c { memory = Memory.extend start_position size c.memory }))
  Steady-memory_extend start_position size = record {
    at = λ c h. record {
      uncut = λ e. cc;
      same_msg = refl;
      gas = omega arith;
      sound = λ s. record {
        stack = s.stack;
        memory = (extend_lem start_position size c.memory s.memory).1;
        code = s.code;
      };
    };
  }

  pub Steady-extend_memory :
      (start_position size : ℕ) → Steady {W = W} d 0 (extend_memory start_position size)
  unfolding extend_memory
  Steady-extend_memory start_position size =
      search
        (
          Steady-bind, Steady-raise_if, validation_error_ne, Steady-gets, Steady-if, Steady-pure,
          Steady-pay_expansion, Steady-memory_extend,
        )
        depth 12

pub ruleset steady = (
  uncut, Steady-bind, Steady-if, Steady-pure, Steady-raise, Steady-raise_if, Steady-gets,
  Steady-on_accounts, Steady-stack_push, Steady-stack_pop, Steady-stack_pop2, Steady-stack_pop3,
  Steady-stack_pop_list, Steady-stack_swap, Steady-stack_dup, Steady-memory_read,
  Steady-memory_write, Steady-extend_memory, Steady-consume_gas, Steady-refund_gas,
  Steady-set_output,
)
