-- ===== src/Examples.antt =====
-- Concrete inputs: runs of the modelled code, and the theorems at inputs where they apply.
pub mod Merging
pub mod Stacking
pub mod Squashing
pub mod Planning
pub mod Managing
pub mod Viewing
