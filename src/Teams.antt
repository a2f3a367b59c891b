-- ===== src/Teams.antt =====
-- internal/teams: teams, their members and their captains, over the two tables. Each operation is a
-- transaction on the tables as they are when it runs; what it read before that is an argument.
pub mod Tables
pub mod Service
pub mod Admin
pub mod WellFormed
pub mod Captains
pub mod Membership
pub mod History
pub mod Replies
pub mod Invites
mod Tests
