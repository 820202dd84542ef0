-- ===== src/Vm/Steady/Calls.antt =====
-- The opcodes that run another computation are steady if it is: what the child gives back is not more
-- than what the parent paid for it.
use py_evm.Constants.{stack_depth_limit}
use py_evm.Vm.Message.{storage_address, Address}
use py_evm.Prelude.{
  suc, ◌&&◌, ◌||◌, ℕ, suc, ◌+◌, ◌≤◌, ◌≡◌, refl, sym, inl, inr, ◌&&◌, ◌||◌, arith, ltb,
  if◌then◌else◌, Bool-cases,
}
use py_evm.Prelude.Exec.{Result, ◌>>=◌, gets, ok, pure, gets, ◌>>=◌}
use py_evm.Exceptions.{Exception}
use py_evm.Numeric.{Bytes}
use py_evm.Vm.Accounts.{Accounts}
use py_evm.Vm.Stack.{int}
use py_evm.Vm.Computation.{Computation, Action, return_gas}
use py_evm.Vm.Computation.Outcome.{should_burn_gas, get_gas_remaining}
use py_evm.Vm.Logic.Call
use py_evm.Vm.Logic.Call.{
  CallClass, CallParams, stipend, finish_call, make_call, refuse_call, call_op, call_message,
  compute_msg_gas, compute_eip150_msg_gas,
}
use py_evm.Vm.Steady.{
  Steady-bind_last_with, Steady-bind, Steady-bind_with, Steady, gas_of, Steady-pure, Steady-bind,
  Steady-bind_last, Steady-bind_last_with, Steady-weaken, Steady-gets,
}
use py_evm.Vm.Steady.Children.{
  has_room, Steady-consume_then, Steady-run_child, Steady-consume_then, Steady-if_last,
  get_gas_remaining-le,
}
use py_evm.Vm.Steady.Parts.{
  Steady-extend_memory, Steady-memory_read, Steady-stack_push, Steady-modify, Steady-return_gas,
  steady,
}

module _ {W : Type 0} {d : ℕ} (db : Accounts W) where
  Steady-finish_call :
      (p : CallParams) (x : Computation W) → Steady d (gas_of x) (finish_call db p x)
  unfolding finish_call
  Steady-finish_call p x = search (steady, Steady-bind_last, Steady-give_back) depth 14
    where
      Steady-give_back :
          Steady {W = W} d
            (gas_of x)
            (if should_burn_gas x then pure tt else return_gas (get_gas_remaining x))
      Steady-give_back =
          Steady-if_last (should_burn_gas x) _ _ (λ e. Steady-weaken (Steady-pure tt) (omega arith))
            (λ e. Steady-weaken (Steady-return_gas (get_gas_remaining x)) (get_gas_remaining-le x))

  Steady-refuse_call : (gas : ℕ) → Steady d gas (refuse_call db gas)
  unfolding refuse_call
  Steady-refuse_call gas =
      Steady-bind_last _ _
        (Steady-modify _ (λ c. record {
          uncut = λ e. cc;
          same_msg = refl;
          gas = omega arith;
          sound = λ s. record { stack = s.stack; memory = s.memory; code = s.code };
        }))
        (λ _.
          Steady-weaken
            (Steady-bind_with _ _ (Steady-return_gas gas) (λ _ _ _ _. Steady-stack_push (int 0)))
            (omega arith))

  module _ (run : Action W Unit) (child : Steady (suc d) 0 run) where
    Steady-make_call :
        (p : CallParams) (gas : ℕ) (call_data : Bytes)
        → Steady d gas (make_call db run p gas call_data)
    unfolding make_call call_message
    Steady-make_call p gas call_data = Steady-bind_last _ _ (Steady-gets _) (λ w.
        Steady-run_child run child p.sender (call_message db p gas call_data w) (finish_call db p)
          (λ x le. Steady-weaken (Steady-finish_call p x) le))

  Steady-pop_target : Steady {W = W} d 0 (Call.pop_target)
  unfolding Call.pop_target
  Steady-pop_target = search steady depth 9

  Steady-pop_ranges : Steady {W = W} d 0 (Call.pop_ranges)
  unfolding Call.pop_ranges
  Steady-pop_ranges = search steady depth 9

  Steady-call_params : Steady {W = W} d 0 (Call.call_params)
  unfolding Call.call_params
  Steady-call_params = search (steady, Steady-pop_target, Steady-pop_ranges) depth 14

  Steady-call_code_params : Steady {W = W} d 0 (Call.call_code_params)
  unfolding Call.call_code_params
  Steady-call_code_params = search (steady, Steady-pop_target, Steady-pop_ranges) depth 14

  Steady-delegate_call_params : Steady {W = W} d 0 (Call.delegate_call_params)
  unfolding Call.delegate_call_params
  Steady-delegate_call_params = search (steady, Steady-pop_target, Steady-pop_ranges) depth 14

  Steady-static_call_params : Steady {W = W} d 0 (Call.static_call_params)
  unfolding Call.static_call_params
  Steady-static_call_params = search (steady, Steady-pop_target, Steady-pop_ranges) depth 14

  Steady-call_byzantium_params : Steady {W = W} d 0 (Call.call_byzantium_params)
  unfolding Call.call_byzantium_params
  Steady-call_byzantium_params = search (steady, Steady-call_params) depth 12

  Steady-get_call_params : (cls : CallClass) → Steady {W = W} d 0 (Call.get_call_params cls)
  unfolding Call.get_call_params
  Steady-get_call_params Call.call = Steady-call_params
  Steady-get_call_params Call.call_code = Steady-call_code_params
  Steady-get_call_params Call.delegate_call = Steady-delegate_call_params
  Steady-get_call_params Call.call_eip150 = Steady-call_params
  Steady-get_call_params Call.call_code_eip150 = Steady-call_code_params
  Steady-get_call_params Call.delegate_call_eip150 = Steady-delegate_call_params
  Steady-get_call_params Call.call_eip161 = Steady-call_params
  Steady-get_call_params Call.static_call = Steady-static_call_params
  Steady-get_call_params Call.call_byzantium = Steady-call_byzantium_params

  Steady-eip150 :
      (gas extra_gas callstipend : ℕ)
      → Steady {W = W} d 0 (compute_eip150_msg_gas gas extra_gas callstipend)
  unfolding compute_eip150_msg_gas
  Steady-eip150 gas extra_gas callstipend = search steady depth 9

  Steady-compute_msg_gas :
      (cls : CallClass) (gas : ℕ) (to : Address) (value : ℕ)
      → Steady d 0 (compute_msg_gas db cls gas to value)
  unfolding compute_msg_gas
  Steady-compute_msg_gas Call.call gas to value = search steady
  Steady-compute_msg_gas cls gas to value = search (steady, Steady-eip150) depth 9

pair-le :
    (a b : ℕ) (r : ℕ × ℕ)
    → ◌≡◌ {A = Result Exception (ℕ × ℕ)} (ok (a, b)) (ok r)
    → a ≤ b
    → r.0 ≤ r.1
pair-le a b r e le = let same : (a, b) ≡ r = cc in rw (sym same) le

stipend-le : (value : ℕ) → stipend value ≤ Call.transfer_gas_fee value
stipend-le value = ground arith

module _ {W : Type 0} where
  -- What the child gets is paid for by the fee.
  eip150_lem :
      (gas extra_gas callstipend : ℕ) (c : Computation W) (r : ℕ × ℕ)
      → callstipend ≤ extra_gas
      → (compute_eip150_msg_gas gas extra_gas callstipend c).0 ≡ ok r
      → r.0 ≤ r.1
  unfolding compute_eip150_msg_gas
  eip150_lem gas extra_gas callstipend c r le e =
      elim (Bool-cases (ltb (get_gas_remaining c) extra_gas)) [
        | inl poor ↦ (let bad = rw poor at e in absurd (cc))
        | inr rich ↦ (let good = rw rich at e in pair-le _ _ r good (omega (arith, le)))
      ]

  msg_gas-le :
      (db : Accounts W) (cls : CallClass) (gas : ℕ) (to : Address) (value : ℕ) (c : Computation W)
      (r : ℕ × ℕ)
      → (compute_msg_gas db cls gas to value c).0 ≡ ok r
      → r.0 ≤ r.1
  unfolding compute_msg_gas Call.compute_msg_extra_gas Call.call_extra_gas Call.eip161_extra_gas
  msg_gas-le db Call.delegate_call gas to value c r e = pair-le _ _ r e (omega arith)
  msg_gas-le db Call.call gas to value c r e = pair-le _ _ r e (omega (arith, stipend-le value))
  msg_gas-le db Call.call_code gas to value c r e =
      pair-le _ _ r e (omega (arith, stipend-le value))
  msg_gas-le db Call.delegate_call_eip150 gas to value c r e =
      eip150_lem gas _ 0 c r (omega arith) e
  msg_gas-le db cls gas to value c r e =
      eip150_lem gas _ (stipend value) c r (omega (arith, stipend-le value)) e

module _ {W : Type 0} {d : ℕ} (db : Accounts W) (run : Action W Unit)
    (child : d + 1 ≤ 1024 → Steady (suc d) 0 run) where
  -- After the fee: the child runs, or is refused.
  Steady-settle :
      (p : CallParams) (gas : ℕ) (call_data : Bytes)
      → Steady d gas (do
        sender_balance ← gets (λ c. db.get_balance c.accounts (storage_address c.msg))
        depth ← gets (λ c. c.msg.depth)
        if (p.should_transfer_value && ltb sender_balance p.value)
              || ltb stack_depth_limit (depth + 1)
            then refuse_call db gas
            else make_call db run p gas call_data)
  Steady-settle p gas call_data =
      Steady-bind_last (gets (λ c. db.get_balance c.accounts (storage_address c.msg))) _
        (Steady-gets _)
        (λ sender_balance.
          Steady-bind_last_with (gets (λ c. c.msg.depth)) _ (Steady-gets _) (λ depth c h e.
            let poor = p.should_transfer_value && ltb sender_balance p.value in
            Steady-if_last (poor || ltb stack_depth_limit (depth + 1)) _ _
              (λ yes. Steady-refuse_call db gas)
              (λ not.
                Steady-make_call db run (child (has_room d depth c.msg.depth poor h e not)) p gas
                  call_data)))

  pub Steady-call_op : (cls : CallClass) → Steady d 0 (call_op db run cls)
  unfolding call_op
  Steady-call_op cls = Steady-bind _ _ (Steady-get_call_params db cls) (λ p.
      Steady-bind _ _ (Steady-extend_memory p.input_start p.input_size) (λ _.
        Steady-bind _ _ (Steady-extend_memory p.output_start p.output_size) (λ _.
          Steady-bind _ _ (Steady-memory_read p.input_start p.input_size) (λ call_data.
            Steady-bind_with _ _ (Steady-compute_msg_gas db cls p.gas p.to p.value) (λ r c h e.
              Steady-consume_then r.1 r.0 _ (msg_gas-le db cls p.gas p.to p.value c r e)
                (Steady-settle p r.0 call_data))))))
