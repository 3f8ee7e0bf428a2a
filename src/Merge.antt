-- ===== src/Merge.antt =====
-- The three-way line merge of a publish, crates/sandbox-runtime/layerstack/src/stack/publish/merge.rs:
-- lines, the edit script, its regions, the origins of merged lines, the merge loop.
pub mod Lines
pub mod Diff
pub mod Regions
pub mod Origins
pub mod Loop
