-- ===== src/Passes.antt =====
-- The passes RefineAliasing, DeadStoreElim and DeadCodeElim of jitir.tmpl.hpp.
pub mod Refine
pub mod Exact
pub mod Apart
pub mod Collected
pub mod Groups
pub mod Unaligned
pub mod DeadStore
pub mod Marks
pub mod Overwritten
pub mod Held
pub mod Kept
pub mod Ranges
pub mod Trimmed
pub mod DeadCode
pub mod Closed
pub mod Stepped
pub mod Simulation
