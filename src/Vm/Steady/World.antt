-- ===== src/Vm/Steady/World.antt =====
-- The opcodes that jump, log, halt, or read and write accounts are steady.
use py_evm.Prelude.{ℕ, ◌+◌, refl, ◌≢◌, List, [], ◌∷◌, ◌++◌, arith}
use py_evm.Prelude.Exec.{ok, err, modify}
use py_evm.Exceptions.{fuel_exhausted}
use py_evm.Numeric.{Bytes}
use py_evm.Vm.Accounts.{Accounts, Snapshot}
use py_evm.Vm.CodeStream
use py_evm.Vm.CodeStream.{CodeStream}
use py_evm.Vm.CodeStream.Jumps.{is_valid_opcode-Answers}
use py_evm.Vm.Computation.{Computation, on_code}
use py_evm.Vm.Message.{Address}
use py_evm.Vm.Logic.Flow
use py_evm.Vm.Logic.Copy
use py_evm.Vm.Logic.World
use py_evm.Vm.Steady.{Steady, Ran}
use py_evm.Vm.Steady.Parts.{Steady-on_code, Steady-modify, steady}

-- No operation of the account database is cut off.
pub record Uncut {W : Type 0} (db : Accounts W) : Type 0 where
  pub set_storage :
      (a : Address) (k v : ℕ) (w : W) → (db.set_storage a k v w).0 ≢ err fuel_exhausted
  pub set_balance : (a : Address) (v : ℕ) (w : W) → (db.set_balance a v w).0 ≢ err fuel_exhausted
  pub increment_nonce : (a : Address) (w : W) → (db.increment_nonce a w).0 ≢ err fuel_exhausted
  pub set_code : (a : Address) (b : Bytes) (w : W) → (db.set_code a b w).0 ≢ err fuel_exhausted
  pub touch_account : (a : Address) (w : W) → (db.touch_account a w).0 ≢ err fuel_exhausted
  pub delete_account : (a : Address) (w : W) → (db.delete_account a w).0 ≢ err fuel_exhausted
  pub revert : (s : Snapshot) (w : W) → (db.revert s w).0 ≢ err fuel_exhausted
  pub commit : (s : Snapshot) (w : W) → (db.commit s w).0 ≢ err fuel_exhausted

module _ {W : Type 0} {d : ℕ} where
  Steady-add_log_entry :
      (account : Address) (topics : List ℕ) (contents : Bytes)
      → Steady {W = W} d 0 (Copy.add_log_entry account topics contents)
  unfolding Copy.add_log_entry
  Steady-add_log_entry account topics contents =
      search (steady, Steady-modify _ (λ c. unchanged c)) depth 9
    where
      unchanged :
          (c : Computation W)
          → Ran {A = Unit} 0 c (
            ok tt,
            record c {
              log_counter = c.log_counter + 1;
              log_entries =
                  c.log_entries
                  ++ record {
                    counter = c.log_counter;
                    account = account;
                    topics = topics;
                    contents = contents;
                  }
                    ∷ [];
            },
          )
      unchanged c = record {
        uncut = λ e. cc;
        same_msg = refl;
        gas = omega arith;
        sound = λ s. record { stack = s.stack; memory = s.memory; code = s.code };
      }

  pub Steady-log_xx : (topic_count : ℕ) → Steady {W = W} d 0 (Copy.log_xx topic_count)
  unfolding Copy.log_xx
  Steady-log_xx topic_count = search (steady, Steady-add_log_entry) depth 20

  pub Steady-return_op : Steady {W = W} d 0 Copy.return_op
  unfolding Copy.return_op
  Steady-return_op = search steady depth 14

  pub Steady-revert_op : Steady {W = W} d 0 Copy.revert_op
  unfolding Copy.revert_op
  Steady-revert_op = search steady depth 14

  pub Steady-stop : Steady {W = W} d 0 Flow.stop
  unfolding Flow.stop
  Steady-stop = search steady

  Steady-set_pc : (value : ℕ) → Steady {W = W} d 0 (Flow.set_pc value)
  unfolding Flow.set_pc CodeStream.seek
  Steady-set_pc value = Steady-on_code _ (λ s h. record { knows = h.knows; depth = h.depth })

  Steady-peek : Steady {W = W} d 0 (on_code CodeStream.peek)
  unfolding CodeStream.peek CodeStream.next CodeStream.read CodeStream.seek
  Steady-peek = Steady-on_code CodeStream.peek (λ s h. record { knows = h.knows; depth = h.depth })

  Steady-is_valid_opcode :
      (position : ℕ) → Steady {W = W} d 0 (on_code (CodeStream.is_valid_opcode position))
  Steady-is_valid_opcode position =
      Steady-on_code (CodeStream.is_valid_opcode position)
        (λ s h. (is_valid_opcode-Answers position s h).cache)

  pub Steady-next : Steady {W = W} d 0 (on_code CodeStream.next)
  unfolding CodeStream.next CodeStream.read
  Steady-next = Steady-on_code CodeStream.next (λ s h. record { knows = h.knows; depth = h.depth })

  Steady-jump_to : (jump_dest : ℕ) → Steady {W = W} d 0 (Flow.jump_to jump_dest)
  unfolding Flow.jump_to
  Steady-jump_to jump_dest =
      search (steady, Steady-set_pc, Steady-peek, Steady-is_valid_opcode) depth 14

  pub Steady-jump : Steady {W = W} d 0 Flow.jump
  unfolding Flow.jump
  Steady-jump = search (steady, Steady-jump_to)

  pub Steady-jumpi : Steady {W = W} d 0 Flow.jumpi
  unfolding Flow.jumpi
  Steady-jumpi = search (steady, Steady-jump_to) depth 8

  pub Steady-jumpdest_op : Steady {W = W} d 0 Flow.jumpdest_op
  unfolding Flow.jumpdest_op
  Steady-jumpdest_op = search steady

  pub Steady-pc : Steady {W = W} d 0 Flow.pc
  unfolding Flow.pc
  Steady-pc = search steady

  pub Steady-gas : Steady {W = W} d 0 Flow.gas
  unfolding Flow.gas
  Steady-gas = search steady

  pub Steady-invalid_opcode : Steady {W = W} d 0 Flow.invalid_opcode
  unfolding Flow.invalid_opcode
  Steady-invalid_opcode = search steady

  pub Steady-blockhash : Steady {W = W} d 0 World.blockhash
  unfolding World.blockhash
  Steady-blockhash = search steady depth 9

  pub Steady-register_account_for_deletion :
      (beneficiary : Address) → Steady {W = W} d 0 (World.register_account_for_deletion beneficiary)
  unfolding World.register_account_for_deletion
  Steady-register_account_for_deletion beneficiary = search (steady, Steady-registered) depth 14
    where
      Steady-registered :
          (l : List (Address × Address))
          → Steady {W = W} d 0 (modify (λ c. record c { accounts_to_delete = l }))
      Steady-registered l = Steady-modify _ (λ c. record {
        uncut = λ e. cc;
        same_msg = refl;
        gas = omega arith;
        sound = λ s. record { stack = s.stack; memory = s.memory; code = s.code };
      })

  module _ (db : Accounts W) where
    pub Steady-balance : Steady d 0 (World.balance db)
    unfolding World.balance
    Steady-balance = search steady depth 9

    pub Steady-extcodesize : Steady d 0 (World.extcodesize db)
    unfolding World.extcodesize
    Steady-extcodesize = search steady depth 9

    pub Steady-extcodecopy : Steady d 0 (World.extcodecopy db)
    unfolding World.extcodecopy Copy.copy_fee
    Steady-extcodecopy = search steady depth 16

    pub Steady-sload : Steady d 0 (World.sload db)
    unfolding World.sload
    Steady-sload = search steady depth 9

    module _ (uncut : Uncut db) where
      pub Steady-sstore : Steady d 0 (World.sstore db)
      unfolding World.sstore
      Steady-sstore = search (steady, uncut.set_storage) depth 16

      Steady-finish_selfdestruct :
          (beneficiary : Address) → Steady d 0 (World.finish_selfdestruct db beneficiary)
      unfolding World.finish_selfdestruct
      Steady-finish_selfdestruct beneficiary =
          search (steady, uncut.set_balance, Steady-register_account_for_deletion) depth 20

      pub Steady-selfdestruct : Steady d 0 (World.selfdestruct db)
      unfolding World.selfdestruct
      Steady-selfdestruct = search (steady, Steady-finish_selfdestruct)

      pub Steady-selfdestruct_eip150 : Steady d 0 (World.selfdestruct_eip150 db)
      unfolding World.selfdestruct_eip150
      Steady-selfdestruct_eip150 = search (steady, Steady-finish_selfdestruct) depth 12

      pub Steady-selfdestruct_eip161 : Steady d 0 (World.selfdestruct_eip161 db)
      unfolding World.selfdestruct_eip161
      Steady-selfdestruct_eip161 = search (steady, Steady-finish_selfdestruct) depth 14
