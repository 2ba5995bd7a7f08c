-- ===== src/Auth.antt =====
-- auth/store.py: accounts, sessions, login challenges, throttling and the audit chain.
mod Tests
pub mod Domain
pub mod Texts
pub mod Password
pub mod Tables
pub mod Actions
pub mod Checks
pub mod Accounts
pub mod Sessions
pub mod Challenges
pub mod Lookups
pub mod Framing
pub mod Audit
pub mod Calls
