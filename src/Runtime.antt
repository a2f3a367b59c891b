-- ===== src/Runtime.antt =====
-- internal/runtime: how the instances of challenges are aligned with their rows.
pub mod Reconcile
pub mod Reasons
pub mod Decisions
mod Tests
