-- ===== src/Vm/Steady/Forks.antt =====
-- The machines of the forks behind Frontier come to their end too.
pub mod Tables
pub mod Creation
use py_evm.Vm.Computation.{Computation, Action}
use py_evm.Prelude.{
  ℕ, zero, suc, ◌+◌, ◌≤◌, ◌<◌, ◌≡◌, refl, ◌≢◌, inl, inr, [], ◌∷◌, arith, All, Bool-cases,
}
use py_evm.Prelude.Exec.{err}
use py_evm.Exceptions.{fuel_exhausted}
use py_evm.Vm.Steady.{IsSound, gas_of, Steady}
use py_evm.Vm.Steady.Forks.Tables.{
  Fall-homestead, Fall-tangerine_whistle, Fall-spurious_dragon, Fall-byzantium, Steady-modexp,
}
use py_evm.Vm.Steady.Forks.Creation.{Steady-homestead_create, Steady-spurious_dragon_create}
use py_evm.Vm.Precompiles.{Cryptography}
use py_evm.Vm.Forks.{
  homestead, tangerine_whistle, spurious_dragon, byzantium, byzantium_precompiles, Fork,
  execute_fork,
}
use py_evm.Vm.Steady.Machine.{Known-if, Known-precompiles, Known}
use py_evm.Vm.Message.{Address, is_create}
use py_evm.Vm.Steady.Loop.{Steady-apply_computation, Steady-apply_message}
use py_evm.Vm.Accounts.{Accounts, Library}
use py_evm.Vm.Logic.Copy
use py_evm.Vm.Steady.World.{Uncut}
use py_evm.Vm.Steady.Falling.{Fall}

-- What the classes of a fork keep.
record Keeps {W : Type 0} (fork : Fork W) : Type 0 where
  opcodes :
      (d : ℕ) (run : Action W Unit)
      → (d + 1 ≤ 1024 → Steady (suc d) 0 run)
      → Fall d (fork.opcodes run)
  precompiles : (d : ℕ) (a : Address) → Known d (fork.precompiles a)
  create : (d : ℕ) (body : Action W Unit) → Steady d 0 body → Steady d 0 (fork.create body)

module _ {W : Type 0} (db : Accounts W) (uncut : Uncut db) (fork : Fork W)
    (keeps : Keeps fork) where
  Steady-execute_fork :
      (levels d : ℕ) → 0 < levels → 1024 < levels + d → Steady d 0 (execute_fork db fork levels)
  unfolding execute_fork
  Steady-execute_fork zero d some_level enough = absurd (omega (arith, some_level))
  Steady-execute_fork (suc levels) d some_level enough =
      let body =
        Steady-apply_computation fork.precompiles (fork.opcodes (execute_fork db fork levels))
          (keeps.opcodes d (execute_fork db fork levels) (λ fits.
            Steady-execute_fork levels (suc d) (omega (arith, fits, enough))
              (omega (arith, enough))))
          (λ a m e. (keeps.precompiles d a).at m e) in
      record {
        at = λ c h. elim (Bool-cases (is_create c.msg)) [
          | inl new ↦ rw new ((keeps.create d _ body).at c h)
          | inr old ↦ rw old ((Steady-apply_message db uncut _ body).at c h)
        ];
      }

-- A computation of a fork that ends, and keeps what every step keeps.
pub EndsWell : {W : Type 0} → Accounts W → ℕ → Computation W → Fork W → Type 0
EndsWell db levels c fork =
    let x = execute_fork db fork levels c in
    (x.0 ≢ err fuel_exhausted)
    × (gas_of x.1 ≤ gas_of c)
    × (x.1.msg ≡ c.msg)
    × (IsSound c → IsSound x.1)

ends_well :
    {W : Type 0} (db : Accounts W) (uncut : Uncut db) (fork : Fork W) (keeps : Keeps fork)
    (levels : ℕ) (c : Computation W)
    → 1024 < levels
    → EndsWell db levels c fork
unfolding EndsWell
ends_well db uncut fork keeps levels c enough =
    let ran =
      (Steady-execute_fork db uncut fork keeps levels c.msg.depth (omega (arith, enough))
          (omega (arith, enough))).at
        c refl in
    (ran.uncut, omega (arith, ran.gas), ran.same_msg, ran.sound)

module _ {W Public : Type 0} (lib : Library) (crypto : Cryptography Public) (db : Accounts W)
    (uncut : Uncut db) where
  Keeps-homestead : Keeps (homestead lib crypto db)
  Keeps-homestead = record {
    opcodes = λ d run child. Fall-homestead d lib db run uncut child;
    precompiles = λ d a. Known-precompiles crypto a;
    create = λ d body k. Steady-homestead_create db uncut body k;
  }

  Keeps-tangerine_whistle : Keeps (tangerine_whistle lib crypto db)
  Keeps-tangerine_whistle = record {
    opcodes = λ d run child. Fall-tangerine_whistle d lib db run uncut child;
    precompiles = λ d a. Known-precompiles crypto a;
    create = λ d body k. Steady-homestead_create db uncut body k;
  }

  Keeps-spurious_dragon : Keeps (spurious_dragon lib crypto db)
  Keeps-spurious_dragon = record {
    opcodes = λ d run child. Fall-spurious_dragon d lib db run uncut child;
    precompiles = λ d a. Known-precompiles crypto a;
    create = λ d body k. Steady-spurious_dragon_create db uncut body k;
  }

  module _ (ecadd ecmul ecpairing : Action W Unit) (steady_ecadd : (d : ℕ) → Steady d 0 ecadd)
      (steady_ecmul : (d : ℕ) → Steady d 0 ecmul)
      (steady_ecpairing : (d : ℕ) → Steady d 0 ecpairing) where
    Keeps-byzantium : Keeps (byzantium lib crypto db ecadd ecmul ecpairing)
    unfolding byzantium_precompiles
    Keeps-byzantium = record {
      opcodes = λ d run child. Fall-byzantium d lib db run uncut child;
      precompiles = λ d a. Known-if _ _ _ Steady-modexp (
          Known-if _ _ _ (steady_ecadd d) (
            Known-if _ _ _ (steady_ecmul d)
              (Known-if _ _ _ (steady_ecpairing d) (Known-precompiles crypto a))));
      create = λ d body k. Steady-spurious_dragon_create db uncut body k;
    }

    -- With 1025 levels of calls or more, an account database whose operations are never cut off, and
    -- contracts on alt_bn128 that keep what every step keeps, every computation of the forks from
    -- Homestead to Byzantium comes to its end, without more gas than it began with and with the
    -- message it began with, and keeps a valid stack, a memory of whole words and a right cache of
    -- jump destinations.
    pub execute_fork_ends :
        (levels : ℕ) (c : Computation W)
        → 1024 < levels
        → All (EndsWell db levels c) (
            homestead lib crypto db
            ∷ tangerine_whistle lib crypto db
            ∷ spurious_dragon lib crypto db
            ∷ byzantium lib crypto db ecadd ecmul ecpairing
            ∷ [])
    execute_fork_ends levels c enough = (
      ends_well db uncut _ Keeps-homestead levels c enough,
      (
        ends_well db uncut _ Keeps-tangerine_whistle levels c enough,
        (
          ends_well db uncut _ Keeps-spurious_dragon levels c enough,
          (ends_well db uncut _ Keeps-byzantium levels c enough, tt),
        ),
      ),
    )
