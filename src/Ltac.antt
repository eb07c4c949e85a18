-- ===== src/Ltac.antt =====
-- The low-level three-address code (src/ltac): one instruction of the target machine each, and the
-- peephole optimiser that runs over it.
pub mod Instruction
pub mod Peephole
pub mod Machine
pub mod Constants
pub mod Copies
pub mod Pairs
pub mod Allocation
