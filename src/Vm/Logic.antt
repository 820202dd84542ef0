-- ===== src/Vm/Logic.antt =====
-- evm/vm/logic: the functions of the opcodes.
pub mod Words
pub mod Arithmetic
pub mod Comparison
pub mod Data
pub mod Flow
pub mod Copy
pub mod World
pub mod Call
