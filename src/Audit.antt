-- ===== src/Audit.antt =====
-- src/audit/: what is recorded of a privileged action before and after it runs, the outbox by which the
-- records are delivered, and src/privileged/audited.rs, which runs an action only under such a record.
pub mod Mask
pub mod Tables
pub mod Ids
pub mod Intents
pub mod Outbox
pub mod Upkeep
pub mod Integrity
pub mod Audited
mod Examples
