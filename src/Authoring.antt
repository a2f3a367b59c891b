-- ===== src/Authoring.antt =====
-- internal/challenges: what an author may write, and what the database takes.
pub mod Input
pub mod Validation
pub mod Checks
mod Tests
