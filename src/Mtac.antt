-- ===== src/Mtac.antt =====
-- The three-address code and the passes that rewrite one quadruple at a time.
pub mod Operator
pub mod Quadruple
pub mod Meaning
pub mod Preserve
pub mod Identities
pub mod Folding
pub mod Strength
pub mod MathPropagation
pub mod CallGraph
pub mod Function
pub mod Blocks
pub mod Branches
pub mod DeadBlocks
pub mod Merging
