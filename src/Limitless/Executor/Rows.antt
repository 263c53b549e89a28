-- ===== src/Limitless/Executor/Rows.antt =====
-- src/limitless/limitlessExecutor.ts: the rows that a trade reads, and those that it writes.
use team_index.Base.{
  or_positive, take, ℕ, ◌+◌, List, [], ◌∷◌, Bool, true, ◌&&◌, Option, none, some, Result, ok, throw,
  if◌then◌else◌, Text, codes, String, str_eq,
}
use team_index.Services.Scheduler.{
  QueueStatus, processing, executed, skipped_match, failed, Key, key_eq, QueueRow, Table, put,
}
use team_index.Limitless.TokenId.{OutcomeSide}
use team_index.Limitless.OrderResult.{get_order_reject_message}
use team_index.Limitless.OrderResult.Fill.{LimitlessFill}
use team_index.Limitless.Book.{over, MarketBuySimulation}
use team_index.Limitless.Executor.Calls.{
  SkipReason, missed_window, missing_vault_address, missing_token_id, RefuseReason,
  invalid_server_wallet_profile, missing_limitless_exchange, order_rejected, Stop, skip, refuse,
  raise, WalletAccount,
}
use team_index.Limitless.Executor.Checks.{RiskParams, Sized}

-- The columns of club_pools and club_market_candidates that a trade reads; an empty text is a missing one.
pub record TradePool : Type 0 where
  pub vault_address : Text
  pub total_pool_value : ℕ
  pub risk_params : RiskParams

pub record TradeCandidate : Type 0 where
  pub event_id : Text
  pub token_id : Text
  pub side : OutcomeSide

-- A row of club_pool_positions
pub record Position : Type 0 where
  pub queue_id : Key
  pub pool_id : String
  pub event_id : Text
  pub market_id : Text
  pub token_id : Text
  pub side : OutcomeSide
  pub entry_price : ℕ
  pub clob_order_id : Option Text
  pub planned_stake : ℕ
  pub planned_quantity : ℕ
  pub stake : ℕ
  pub quantity : ℕ
  pub invested_amount : ℕ
  pub current_value : ℕ
  pub is_open : Bool

-- The tables; accounts are by pool, and a row of the queue is named by its unique columns.
pub record TradeDb : Type 0 where
  pub queue : Table
  pub pools : String → Option TradePool
  pub candidates : String → Option TradeCandidate
  pub accounts : String → Option WalletAccount
  pub positions : List Position

pub record TrancheParams : Type 0 where
  pub queue_id : Option Key
  pub key : Key
  pub expected_execution_time_ms : Option ℕ

-- The settings; `ready` is isLimitlessTradingReady of them.
pub record TradeEnv : Type 0 where
  pub grace_minutes : ℕ
  pub base_usdc_address : Text
  pub ready : Bool
  pub lock_owner : String

-- The open stakes of the pool
abbrev pub exposure_of : String → List Position → ℕ
exposure_of pool [] = 0
exposure_of pool (p ∷ ps) =
    let rest = exposure_of pool ps in
    if p.is_open && str_eq p.pool_id pool then p.planned_stake + rest else rest

-- What a trade has done once its order is accepted
pub record Placed : Type 0 where
  pub market_slug : Text
  pub sized : Sized
  pub fill : Option LimitlessFill
  pub clob_order_id : Option Text

abbrev pub claimed_row : QueueRow → ℕ → String → QueueRow
claimed_row row time owner = record row {
  status = processing;
  locked_at = some time;
  locked_by = some owner;
  attempts = row.attempts + 1;
  last_error = none;
}

abbrev pub closed_row : QueueRow → QueueStatus → Option Text → Option ℕ → QueueRow
closed_row row status error executed_at = record row {
  status = status;
  last_error = error;
  locked_at = none;
  locked_by = none;
  executed_at = executed_at;
}

abbrev pub filled_stake : Option LimitlessFill → MarketBuySimulation → ℕ
filled_stake none sim = sim.spent_usd
filled_stake (some f) sim = f.invested_usd

abbrev pub filled_quantity : Option LimitlessFill → MarketBuySimulation → ℕ
filled_quantity none sim = sim.filled_shares
filled_quantity (some f) sim = or_positive f.shares sim.filled_shares

abbrev pub entry_price_of : Option LimitlessFill → MarketBuySimulation → ℕ → ℕ
entry_price_of none sim best_ask = or_positive sim.avg_price best_ask
entry_price_of (some f) sim best_ask = or_positive f.fill_price (or_positive sim.avg_price best_ask)

abbrev pub position_of : Key → String → TradeCandidate → Placed → Position
position_of queue_id pool_id candidate p =
    let stake = filled_stake p.fill p.sized.sim in
    record {
      queue_id = queue_id;
      pool_id = pool_id;
      event_id = candidate.event_id;
      market_id = p.market_slug;
      token_id = candidate.token_id;
      side = candidate.side;
      entry_price = entry_price_of p.fill p.sized.sim p.sized.best_ask;
      clob_order_id = p.clob_order_id;
      planned_stake = p.sized.stake_usd;
      planned_quantity = over p.sized.stake_usd p.sized.best_ask;
      stake = stake;
      quantity = filled_quantity p.fill p.sized.sim;
      invested_amount = stake;
      current_value = stake;
      is_open = true;
    }

-- An id that is undefined leaves the column.
abbrev pub with_order_id : Option Text → Position → Position
with_order_id none p = p
with_order_id (some id) p = record p { clob_order_id = some id }

-- By the unique queue id: an existing position only gets the order's id.
abbrev pub upsert_position : Position → List Position → List Position
upsert_position new [] = new ∷ []
upsert_position new (p ∷ ps) =
    let rest = upsert_position new ps in
    if key_eq p.queue_id new.queue_id then with_order_id new.clob_order_id p ∷ ps else p ∷ rest

abbrev pub inserted : Option TradeCandidate → Key → String → Placed → List Position → List Position
inserted none queue_id pool_id p ps = ps
inserted (some c) queue_id pool_id p ps = upsert_position (position_of queue_id pool_id c p) ps

abbrev pub skip_message : SkipReason → Text
skip_message missed_window = codes "Missed execution window"
skip_message missing_vault_address = codes "Pool vaultAddress missing"
skip_message missing_token_id = codes "Candidate tokenId missing"
skip_message SkipReason.no_liquidity = codes "No valid market / no liquidity"
skip_message SkipReason.low_liquidity = codes "Liquidity too low: "
skip_message SkipReason.risk = codes "Risk limits exceeded"
skip_message SkipReason.limitless_not_ready = codes "Limitless not ready: "
skip_message SkipReason.insufficient_depth = codes "Insufficient ask depth to fully fill FOK"
skip_message SkipReason.slippage = codes "FOK slippage too high: worst"

abbrev pub refuse_message : RefuseReason → Text
refuse_message invalid_server_wallet_profile =
    codes "Invalid Limitless server-wallet profileId for pool"
refuse_message missing_limitless_exchange = codes "Market has no Limitless exchange address"
refuse_message (order_rejected r) = get_order_reject_message (some r)

-- What the call returns
pub data TradeOutcome : Type 0 where
  unclaimed : Option QueueStatus → TradeOutcome
  skipped : SkipReason → TradeOutcome
  refused : RefuseReason → TradeOutcome
  traded : Placed → TradeOutcome

abbrev pub with_account : String → Option WalletAccount → TradeDb → TradeDb
with_account pool account db = record db {
  accounts = λ p. if str_eq pool p then account else db.accounts p;
}

-- finishQueue of the claimed row
abbrev pub finished_db : Key → QueueRow → QueueStatus → Text → TradeDb → TradeDb
finished_db key row status error db = record db {
  queue = put db.queue key (closed_row row status (some error) row.executed_at);
}

-- The end of the `try`: the position and the row in one transaction, the row closed by the reason, or closed
-- by the `catch`, which throws the error again
unfoldable pub closed :
    Key
    → QueueRow
    → String
    → Option TradeCandidate
    → ℕ
    → Result Stop Placed
    → TradeDb
    → Result Text TradeOutcome × TradeDb
closed key row pool_id candidate time (ok p) db = (
  ok (traded p),
  record db {
    positions = inserted candidate key pool_id p db.positions;
    queue = put db.queue key (closed_row row executed none (some time));
  },
)
closed key row pool_id candidate time (throw (skip reason)) db =
    (ok (skipped reason), finished_db key row skipped_match (skip_message reason) db)
closed key row pool_id candidate time (throw (refuse reason)) db =
    (ok (refused reason), finished_db key row failed (refuse_message reason) db)
closed key row pool_id candidate time (throw (raise e)) db =
    (throw e, finished_db key row failed (take 500 e) db)
