-- ===== src/Polymarket/Accounting.antt =====
-- src/polymarket/accountingService.ts: the positions, orders and trades of a pool, brought in line with
-- Polymarket. Quantities, prices and dollars are decimals with twelve places, written by their 10^-12
-- units, with exact products that are rounded down.
pub mod Pages
pub mod Tables
pub mod Reconcile
pub mod Mirror
mod Tests
