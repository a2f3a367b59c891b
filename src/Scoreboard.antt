-- ===== src/Scoreboard.antt =====
-- internal/scoreboard: the standings, computed from the log of solves; their cache; the freeze.
pub mod Standings
pub mod Order
pub mod Ranks
pub mod Values
pub mod Points
pub mod Cache
pub mod Guard
pub mod Log
pub mod Freshness
pub mod Freeze
mod Tests
