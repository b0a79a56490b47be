-- ===== src/Privileged.antt =====
-- The privileged runner, src/privileged/: which host commands the panel may run, and how.
pub mod Action
pub mod Validate
pub mod Command
pub mod Message
mod Examples
