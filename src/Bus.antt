-- ===== src/Bus.antt =====
-- internal/events/bus.go: the bus of domain events.
pub mod Subscriber
pub mod Accounts
mod Tests
