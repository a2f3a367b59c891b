-- ===== src/Submissions.antt =====
-- internal/submissions/service.go: the flag submission path.
--
-- `admit` is what Submit does before its transaction, on the rows that it reads then; `attempt` is
-- the transaction, on the rows as they are when the challenge's row is locked; `settle` is what
-- follows the commit. Other requests may run between the three.
pub mod Store
pub mod Queries
pub mod Request
pub mod Admission
pub mod Transaction
pub mod Settlement
pub mod Repair
pub mod Attempt
pub mod History
pub mod Secrets
pub mod Points
pub mod Backfill
mod Tests
mod RepairTests
