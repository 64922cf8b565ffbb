-- ===== src/Worker.antt =====
-- worker/src/lib.rs: what stands between a skill's request and its execution.
pub mod GrantSets
pub mod Actions
pub mod Aliases
