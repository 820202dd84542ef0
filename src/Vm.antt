-- ===== src/Vm.antt =====
-- evm/vm: the parts of the virtual machine.
pub mod Stack
pub mod Memory
pub mod GasMeter
pub mod CodeStream
pub mod Message
pub mod Computation
pub mod Accounts
pub mod Logic
pub mod Opcodes
pub mod Run
pub mod Precompiles
pub mod Forks
pub mod Executor
pub mod Steady
