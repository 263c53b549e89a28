-- ===== src/Limitless/Executor.antt =====
-- src/limitless/limitlessExecutor.ts: a row of the queue of trades becomes an order and a position.
pub mod Calls
pub mod Rows
pub mod Trade
pub mod Wallet
pub mod Checks
pub mod Quiet
pub mod Posted
pub mod Closed
pub mod Limits
pub mod Once
pub mod Rescheduled
mod Tests
use team_index.Base.{
  ℕ, zero, suc, ◌+◌, ◌-◌, ◌*◌, List, [], ◌∷◌, Bool, true, false, ◌&&◌, Option, none, some, Result,
  ok, throw, ltb, leb, ◌==◌, if◌then◌else◌, Text, codes, String, str_eq,
}
use team_index.Services.Scheduler.{
  QueueStatus, scheduled, processing, executed, skipped_match, failed, Key, key_eq, QueueRow, Table,
  put,
}
use team_index.Limitless.Amounts.{plus, buy, OrderAmounts, AmountError, quote_limitless_fok_amounts}
use team_index.Limitless.TokenId.{OutcomeSide, decode_limitless_token_id}
use team_index.Limitless.OrderResult.{
  OrderResult, get_limitless_order_id, is_accepted_order_result, get_order_reject_message,
}
use team_index.Limitless.OrderResult.Fill.{LimitlessFill, extract_limitless_fill}
use team_index.Limitless.Book.{over, MarketBuySimulation}
use team_index.Limitless.Posting.{Outcome, PostParams, PostError, server_wallet}
use team_index.Limitless.Posting.Retries.{fok}
use team_index.Limitless.Executor.Calls.{
  SkipReason, missed_window, missing_vault_address, missing_token_id, RefuseReason,
  invalid_server_wallet_profile, missing_limitless_exchange, order_rejected, Stop, skip, refuse,
  raise, WalletAccount, MarketDetail, Exchange, Exec, pure, stop, call, ◌>>=◌,
}
use team_index.Limitless.Executor.Wallet.{ServerWallet, ensure_pool_limitless_server_wallet}
use team_index.Limitless.Executor.Checks.{RiskParams, outcome_of, Sized, checked}
use team_index.Limitless.Executor.Rows.{
  TradePool, TradeCandidate, Position, TradeDb, TrancheParams, TradeEnv, exposure_of, Placed,
  claimed_row, closed_row, TradeOutcome, unclaimed, with_account, closed,
}
use team_index.Limitless.Executor.Trade.{attempt}

abbrev pub queue_key : TrancheParams → Key
queue_key p = elim p.queue_id [ none ↦ p.key | some k ↦ k ]

abbrev pub expected_of : Option ℕ → QueueRow → ℕ
expected_of none row = row.execution_time
expected_of (some ms) row = ms

module _ {W : Type 0} (ex : Exchange W) (env : TradeEnv) where
  -- With the claimed row
  abbrev pub claimed :
      TrancheParams → Key → QueueRow → TradeDb → W → Result Text TradeOutcome × (TradeDb × W)
  claimed params key row db w =
      let pool_id = params.key.pool_id in
      let candidate = db.candidates params.key.candidate_id in
      let (r, (account, w1)) =
        attempt ex env (expected_of params.expected_execution_time_ms row) (db.pools pool_id)
          (exposure_of pool_id db.positions) candidate (db.accounts pool_id) w in
      let (time, w2) = ex.now w1 in
      let (out, db') = closed key row pool_id candidate time r (with_account pool_id account db) in
      (out, (db', w2))

  -- The claim is an update of a row that is SCHEDULED.
  abbrev pub claim_queue :
      TrancheParams → Key → Option QueueRow → TradeDb → W → Result Text TradeOutcome × (TradeDb × W)
  claim_queue params key none db w = (ok (unclaimed none), (db, w))
  claim_queue params key (some row) db w = elim row.status [
    | scheduled ↦
        let (time, w') = ex.now w in
        let row' = claimed_row row time env.lock_owner in
        claimed params key row' (record db { queue = put db.queue key row' }) w'
    | status ↦ (ok (unclaimed (some row.status)), (db, w))
  ]

  unfoldable pub execute_limitless_tranche :
      TrancheParams → TradeDb → W → Result Text TradeOutcome × (TradeDb × W)
  unfolding attempt closed
  execute_limitless_tranche params db w =
      claim_queue params (queue_key params) (db.queue (queue_key params)) db w
