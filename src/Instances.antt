-- ===== src/Instances.antt =====
-- The life of challenge instances: internal/runtime/manager.go, the writes of internal/runtime/docker.go
-- and internal/scheduler/scheduler.go, over the table of internal/db/queries/instances.sql.
pub mod Table
pub mod Manager
pub mod Shared
pub mod Scheduler
pub mod Quota
pub mod Allocation
pub mod Ensured
pub mod Operations
pub mod SharedOperations
pub mod History
pub mod Sweeps
pub mod Passes
pub mod Replies
pub mod Restarts
mod Tests
