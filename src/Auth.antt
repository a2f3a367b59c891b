-- ===== src/Auth.antt =====
-- internal/auth: the sessions, the API tokens, the logins through an outside provider.
pub mod Strings
pub mod Accounts
pub mod Names
pub mod External
pub mod Usernames
pub mod Provisioning
pub mod Resolution
pub mod Stability
pub mod LoginStates
pub mod SingleUse
pub mod Tokens
pub mod Bearer
pub mod Issue
pub mod Sessions
pub mod Revocation
pub mod Logouts
mod Tests
