-- ===== src/Vm/Steady/Machine.antt =====
-- The whole machine: a message runs to its end, with no more fuel than the depth of calls allows.
use py_evm.Prelude.{
  ℕ, zero, suc, ◌+◌, ◌≤◌, ◌<◌, ◌≡◌, refl, sym, ◌≢◌, Bool, true, false, Option, none, some, arith,
  if◌then◌else◌,
}
use py_evm.Prelude.Exec.{err, pure, gets}
use py_evm.Numeric.{Bytes, rjust}
use py_evm.Vm.Computation.{Computation, set_output, Action}
use py_evm.Vm.Precompiles.{
  recover, Cryptography, identity, sha256, ripemd160, ecrecover, frontier_precompiles,
}
use py_evm.Vm.Steady.Parts.{Steady-consume_gas, Steady-set_output, steady}
use py_evm.Vm.Steady.{Steady-bind, Steady-gets, Steady-pure, Ran, IsSound, gas_of, Steady}
use py_evm.Vm.Message.{Address}
use py_evm.Vm.Accounts.{Accounts, Library}
use py_evm.Exceptions.{fuel_exhausted}
use py_evm.Vm.Run.{execute}
use py_evm.Vm.Steady.World.{Uncut}
use py_evm.Vm.Steady.Table.{Fall-frontier_opcodes}
use py_evm.Vm.Steady.Loop.{Steady-apply_computation, Steady-run_message}

-- A precompiled contract, if there is one, is steady.
pub record Known {W : Type 0} (d : ℕ) (found : Option (Action W Unit)) : Type 0 where
  pub at : (m : Action W Unit) → found ≡ some m → Steady d 0 m

module _ {W : Type 0} {d : ℕ} where
  Known-none : Known {W = W} d none
  Known-none = record { at = λ m e. absurd (cc) }

  pub Known-if :
      (b : Bool) (p : Action W Unit) (rest : Option (Action W Unit))
      → Steady d 0 p
      → Known d rest
      → Known d (if b then some p else rest)
  Known-if true p rest k ks = record { at = λ m e. let same : p ≡ m = cc in rw (sym same) k }
  Known-if false p rest k ks = ks

  Steady-identity : Steady {W = W} d 0 identity
  unfolding identity
  Steady-identity = search steady depth 9

module _ {W Public : Type 0} {d : ℕ} (crypto : Cryptography Public) where
  Steady-sha256 : Steady {W = W} d 0 (sha256 crypto)
  unfolding sha256
  Steady-sha256 = search steady depth 9

  Steady-ripemd160 : Steady {W = W} d 0 (ripemd160 crypto)
  unfolding ripemd160
  Steady-ripemd160 = search steady depth 9

  Steady-recovered :
      (found : Option Bytes)
      → Steady {W = W} d 0
          (elim found [ none ↦ pure tt | some address ↦ set_output (rjust 32 address) ])
  Steady-recovered none = Steady-pure tt
  Steady-recovered (some address) = Steady-set_output (rjust 32 address)

  Steady-ecrecover : Steady {W = W} d 0 (ecrecover crypto)
  unfolding ecrecover
  Steady-ecrecover = Steady-bind _ _ (Steady-consume_gas 3000) (λ _.
      Steady-bind (gets (λ c. c.msg.contents)) _ (Steady-gets _)
        (λ input. Steady-recovered (recover crypto input)))

  pub Known-precompiles : (a : Address) → Known {W = W} d (frontier_precompiles crypto a)
  unfolding frontier_precompiles
  Known-precompiles a =
      search
        (Known-if, Known-none, Steady-ecrecover, Steady-sha256, Steady-ripemd160, Steady-identity)
        depth 9

module _ {W Public : Type 0} (lib : Library) (crypto : Cryptography Public) (db : Accounts W)
    (uncut : Uncut db) where
  Steady-execute :
      (levels d : ℕ)
      → 0 < levels
      → 1024 < levels + d
      → Steady d 0 (execute lib db (frontier_precompiles crypto) levels)
  unfolding execute
  Steady-execute zero d some_level enough = absurd (omega (arith, some_level))
  Steady-execute (suc levels) d some_level enough = Steady-run_message db uncut _ (
      Steady-apply_computation _ _
        (Fall-frontier_opcodes d lib db (execute lib db (frontier_precompiles crypto) levels) uncut
          (λ fits.
            Steady-execute levels (suc d) (omega (arith, fits, enough)) (omega (arith, enough))))
        (λ a m e. (Known-precompiles crypto a).at m e))

  module _ (levels : ℕ) (c : Computation W) (enough : 1024 < levels) where
    pub machine-Ran : Ran 0 c (execute lib db (frontier_precompiles crypto) levels c)
    machine-Ran =
        (Steady-execute levels c.msg.depth (omega (arith, enough)) (omega (arith, enough))).at c
          refl

    -- With 1025 levels of calls or more, and an account database whose operations are never cut off,
    -- every computation comes to its end, whatever its code: neither the levels nor the rounds of the
    -- loop run out, in it or in a computation below it.
    pub execute_ends :
        (execute lib db (frontier_precompiles crypto) levels c).0 ≢ err fuel_exhausted
    execute_ends = machine-Ran.uncut

    -- Under the same conditions a computation ends, also with an exception, with no more gas left
    -- than it began with, and with the message it began with.
    pub execute-gas :
        let x = execute lib db (frontier_precompiles crypto) levels c in
        (gas_of x.1 ≤ gas_of c) × (x.1.msg ≡ c.msg)
    execute-gas = (omega (arith, machine-Ran.gas), machine-Ran.same_msg)

    -- Under the same conditions a computation that begins with a valid stack, a memory of whole words
    -- and a right cache of jump destinations ends with them, also with an exception.
    pub execute-IsSound :
        IsSound c → IsSound (execute lib db (frontier_precompiles crypto) levels c).1
    execute-IsSound = machine-Ran.sound
