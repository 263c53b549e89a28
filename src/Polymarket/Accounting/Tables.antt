-- ===== src/Polymarket/Accounting/Tables.antt =====
-- src/polymarket/accountingService.ts: what Polymarket answers for an account, and the rows of its pool.
use team_index.Base.{ℕ, List, Bool, Option, Result, Text, ℤ}

-- An element of the list of positions; an id that is missing is empty, what is no number counts as 0.
pub record RemotePosition : Type 0 where
  pub asset : Text
  pub condition_id : Text
  pub size : ℕ
  pub avg_price : ℕ
  pub cur_price : ℕ
  pub current_value : ℕ
  pub cash_pnl : ℤ
  pub realized_pnl : ℤ
  pub outcome : Text

pub record RemoteOrder : Type 0 where
  pub id : Text
  pub status : Option Text
  pub size_matched : ℕ

pub record RemoteTrade : Type 0 where
  pub id : Text
  pub taker_order_id : Option Text
  pub first_maker_order_id : Option Text
  pub market : Option Text
  pub asset_id : Option Text
  pub price : ℕ
  pub size : ℕ
  pub fee_rate_bps : ℕ
  pub status : Option Text
  pub match_time : Option ℕ

-- A row of pool_polymarket_positions; `is_open` is the status OPEN, otherwise it is CLOSED.
pub record PositionRow : Type 0 where
  pub condition_id : Text
  pub outcome : Option Text
  pub quantity : ℕ
  pub average_price : ℕ
  pub current_price : ℕ
  pub current_value : ℕ
  pub realized_pnl : ℤ
  pub unrealized_pnl : ℤ
  pub is_open : Bool
  pub last_reconciled_at : ℕ

pub data OrderSide : Type 0 where
  yes_side no_side : OrderSide

-- A row of pool_polymarket_orders
pub record OrderRow : Type 0 where
  pub id : Text
  pub external_order_id : Option Text
  pub condition_id : Text
  pub token_id : Text
  pub side : OrderSide
  pub matched_size : ℕ
  pub status : Text
  pub closed_at : Option ℕ

-- A row of pool_polymarket_trades
pub record TradeRow : Type 0 where
  pub order_id : Option Text
  pub condition_id : Text
  pub token_id : Text
  pub side : OrderSide
  pub price : ℕ
  pub size : ℕ
  pub fee : ℕ
  pub status : Text
  pub executed_at : ℕ

-- A row of polymarket_market_quotes
pub record Quote : Type 0 where
  pub best_bid : Option ℕ
  pub observed_at : ℕ

-- The rows of one pool: positions by token, orders, trades by their id at Polymarket; the quotes, by token;
-- and the time of the last reconciliation of its account
pub record AccountingDb : Type 0 where
  pub positions : Text → Option PositionRow
  pub orders : List OrderRow
  pub trades : Text → Option TradeRow
  pub quotes : Text → Option Quote
  pub last_reconciled_at : Option ℕ

-- The clients of Polymarket and the clock
pub record Polymarket (W : Type 0) : Type 0 where
  pub get_page : ℕ → W → Result Text (List RemotePosition) × W
  pub get_open_orders : W → Result Text (List RemoteOrder) × W
  pub get_trades : W → Result Text (List RemoteTrade) × W
  pub now : W → ℕ × W
