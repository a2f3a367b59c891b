-- ===== src/Plugins.antt =====
-- internal/plugin: the life of a supervised plugin, and what may be sent to it.
pub mod Machine
pub mod Supervisor
pub mod Lifecycle
pub mod Quarantine
mod Tests
