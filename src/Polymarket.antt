-- ===== src/Polymarket.antt =====
-- src/polymarket: trading of the pools' capital on Polymarket.
pub mod TradeExecutor
pub mod Allocation
pub mod Accounting
pub mod TradeIntents
pub mod StableJson
pub mod Money
pub mod DirectDeposit
mod Tests
