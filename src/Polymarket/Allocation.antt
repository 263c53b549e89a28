-- ===== src/Polymarket/Allocation.antt =====
-- src/polymarket/allocationEngine.ts: how much of a pool's capital goes to each selected market.
-- `Engine` is the parent of the parts in the order of the engine's steps.
pub mod Number
pub mod Laws
pub mod Fixed
pub mod Series
pub mod Edge
pub mod Correlation
pub mod Sizing
pub mod Projection
pub mod Weights
pub mod Notes
pub mod Report
pub mod Engine
mod Tests
