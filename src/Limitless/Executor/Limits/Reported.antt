-- ===== src/Limitless/Executor/Limits/Reported.antt =====
-- src/limitless/limitlessExecutor.ts: the limits of the pool, where a call reports a trade.
