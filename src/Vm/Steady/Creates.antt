-- ===== src/Vm/Steady/Creates.antt =====
-- CREATE is steady if the computation of the new contract is.
use py_evm.Numeric.{Bytes}
use py_evm.Vm.Message.{storage_address, Message, Address}
use py_evm.Constants.{stack_depth_limit}
use py_evm.Prelude.Exec.{gets, ◌>>◌}
use py_evm.Prelude.{ltb, ◌||◌, Bool, if◌then◌else◌, ℕ, suc, ◌+◌, ◌≤◌, none, arith}
use py_evm.Vm.Accounts.{Accounts, Library}
use py_evm.Vm.Stack.{Item, bytes, int, uint256}
use py_evm.Vm.Computation.{consume_gas, stack_push, return_gas, Action}
use py_evm.Vm.Computation.Outcome.{is_error, get_gas_remaining}
use py_evm.Vm.Logic.Call.Create.{create_message, CreateClass, create_op, start_create, make_create}
use py_evm.Vm.Steady.{
  Steady, Steady-bind, Steady-bind_last, Steady-bind_last_with, Steady-weaken, Steady-gets,
  Steady-if,
}
use py_evm.Vm.Steady.Children.{
  Steady-run_child, Steady-consume_then, Steady-if_last, get_gas_remaining-le, has_room,
}
use py_evm.Vm.Steady.World.{Uncut}
use py_evm.Vm.Steady.Parts.{
  Steady-stack_push, Steady-stack_pop3, Steady-extend_memory, Steady-return_gas, Steady-memory_read,
  Steady-on_accounts,
}

module _ {W : Type 0} {d : ℕ} (lib : Library) (db : Accounts W) (run : Action W Unit) where
  Steady-make_create :
      (child : Steady (suc d) 0 run) (msg : Message) (contract_address : Address)
      → Steady d msg.gas (make_create lib db run msg contract_address)
  unfolding make_create
  Steady-make_create child msg contract_address =
      Steady-run_child run child none msg
        (λ d.
          (if is_error d then stack_push (int 0) else stack_push (bytes contract_address))
          >> return_gas (get_gas_remaining d))
        (λ x le.
          Steady-bind_last _ _
            (Steady-if (is_error x) _ _ (Steady-stack_push (int 0))
              (Steady-stack_push (bytes contract_address)))
            (λ _.
              Steady-weaken (Steady-return_gas (get_gas_remaining x))
                (omega (arith, get_gas_remaining-le x, le))))

  module _ (uncut : Uncut db) where
    Steady-start_create :
        (child : Steady (suc d) 0 run) (cls : CreateClass) (value start_position size : ℕ)
        → Steady d 0 (start_create lib db run cls value start_position size)
    unfolding start_create
    Steady-start_create child cls value start_position size =
        search
          (
            Steady-bind, Steady-memory_read, Steady-gets, Steady-paid, Steady-bind_last,
            Steady-on_accounts, uncut.increment_nonce, Steady-refused, Steady-either,
            Steady-created,
          )
          depth 16
      where
        Steady-refused : (gas : ℕ) (item : Item) → Steady {W = W} d gas (stack_push item)
        Steady-refused gas item = Steady-weaken (Steady-stack_push item) (omega arith)

        Steady-either :
            {gas : ℕ} (b : Bool) (m n : Action W Unit)
            → Steady d gas m
            → Steady d gas n
            → Steady d gas (if b then m else n)
        Steady-either b m n km kn = Steady-if_last b m n (λ _. km) (λ _. kn)

        Steady-created :
            (gas : ℕ) (call_data : Bytes) (contract_address : Address)
            → Steady d gas (
                make_create lib db run
                  (create_message gas value call_data contract_address)
                  contract_address)
        Steady-created gas call_data contract_address =
            Steady-make_create child (create_message gas value call_data contract_address)
              contract_address

        Steady-paid :
            (gas : ℕ) (m : Action W Unit) → Steady d gas m → Steady d 0 (consume_gas gas >> m)
        Steady-paid gas m km = Steady-consume_then gas gas m (omega arith) km

    module _ (child : d + 1 ≤ 1024 → Steady (suc d) 0 run) where
      pub Steady-create_op : (cls : CreateClass) → Steady d 0 (create_op lib db run cls)
      unfolding create_op
      Steady-create_op cls =
          Steady-bind _ _ (Steady-stack_pop3 uint256) (λ (value, start_position, size).
            Steady-bind _ _ (Steady-extend_memory start_position size) (λ _.
              Steady-bind (gets (λ c. db.get_balance c.accounts (storage_address c.msg))) _
                (Steady-gets _)
                (λ balance.
                  Steady-bind_last_with (gets (λ c. c.msg.depth)) _ (Steady-gets _) (λ depth c h e.
                    let poor = ltb balance value in
                    Steady-if_last (poor || ltb stack_depth_limit (depth + 1)) _ _
                      (λ yes. Steady-stack_push (int 0))
                      (λ not.
                        Steady-start_create (child (has_room d depth c.msg.depth poor h e not)) cls
                          value start_position size)))))
