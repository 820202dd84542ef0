-- ===== src/Tests.antt =====
-- Runs at concrete inputs, and the theorems at inputs where their hypotheses hold.
mod Vm
mod Machine
mod Executor
mod Db
mod Rules
mod Network
mod Chain
mod Blocks
mod State
mod Gas
