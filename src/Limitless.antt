-- ===== src/Limitless.antt =====
-- limitless/: the orders placed on Limitless Exchange.
pub mod Amounts
pub mod Config
pub mod OrderResult
pub mod TokenId
pub mod Discovery
pub mod Posting
pub mod Book
pub mod Executor
pub mod PositionSync
mod Tests
