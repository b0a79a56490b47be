-- ===== src/Accounts.antt =====
-- The users of the panel, their sessions, roles and one-time tickets, over one database.
pub mod Tables
pub mod Users
pub mod Sessions
pub mod Rbac
pub mod Tickets
pub mod Auth
pub mod Login
pub mod SignIn
pub mod Passwords
pub mod Admin
mod Examples
