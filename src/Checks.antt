-- ===== src/Checks.antt =====
-- Concrete runs of the definitions, and each property at an input where its hypotheses hold.
pub mod Passes
mod Types
pub mod Peephole
mod Pairs
mod Constants
mod Allocation
mod Layout
mod Calls
mod Spill
pub mod Blocks
mod Merging
