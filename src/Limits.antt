-- ===== src/Limits.antt =====
-- The bounds of the process: internal/ws/limits.go, internal/fdbudget and internal/pagination.
pub mod Admissions
pub mod Connections
pub mod Budget
pub mod Pagination
mod Tests
