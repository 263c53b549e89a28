-- ===== src/Services.antt =====
-- src/services: what the backend does for every pool.
pub mod Scheduler
pub mod RiskEngine
pub mod PriceEngine
mod Tests
