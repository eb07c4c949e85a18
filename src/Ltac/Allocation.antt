-- ===== src/Ltac/Allocation.antt =====
-- Register allocation: src/ltac/register_allocator.cpp and the interference graph.
pub mod Graph
pub mod Simplify
pub mod Select
pub mod Attempt
pub mod Spill
pub mod Replace
