-- ===== src/Workers.antt =====
-- workers/: the background tasks and the cursors they share.
pub mod EventCursor
pub mod VaultSync
mod Tests
