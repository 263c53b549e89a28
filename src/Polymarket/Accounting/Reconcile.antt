-- ===== src/Polymarket/Accounting/Reconcile.antt =====
-- src/polymarket/accountingService.ts, reconcilePoolPolymarket.
use team_index.Base.{
  ℕ, ◌+◌, ◌*◌, ◌/◌, List, [], ◌∷◌, map, any, Bool, false, ◌&&◌, ◌||◌, not, Option, none, some,
  Result, ok, throw, Text, codes, text_eq, to_upper, leb, ltb, or_positive, if◌then◌else◌, ◌<|>◌, ℤ,
  pos_part, neg_part, sub_ℕ,
}
use team_index.Polymarket.Accounting.Pages.{fetch_data_api_positions}
use team_index.Polymarket.Accounting.Tables.{
  RemotePosition, RemoteOrder, RemoteTrade, PositionRow, yes_side, OrderRow, TradeRow, Quote,
  AccountingDb, Polymarket,
}

abbrev pub difference : ℤ → ℤ → ℤ
difference a b = sub_ℕ (pos_part a + neg_part b) (neg_part a + pos_part b)

abbrev product : ℕ → ℕ → ℕ
product a b = a * b / 1_000_000_000_000

abbrev given_text : Text → Option Text
given_text [] = none
given_text (c ∷ s) = some (c ∷ s)

abbrev pub or_text : Text → Option Text → Text
or_text fallback none = fallback
or_text fallback (some s) = s

-- The best bid of a quote of the last 30 seconds
abbrev pub fresh_bid : ℕ → Option Quote → Option ℕ
fresh_bid now none = none
fresh_bid now (some q) = if leb now (q.observed_at + 30_000) then q.best_bid else none

abbrev mark_price : Option ℕ → RemotePosition → ℕ
mark_price none p = p.cur_price
mark_price (some bid) p = bid

abbrev mark_value : Option ℕ → RemotePosition → ℕ
mark_value none p = or_positive p.current_value (product p.size p.cur_price)
mark_value (some bid) p = product p.size bid

-- What a position is stored as, with the live bid, if there is one
abbrev pub row_of : ℕ → Option ℕ → RemotePosition → PositionRow
row_of now bid p = record {
  condition_id = p.condition_id;
  outcome = given_text p.outcome;
  quantity = p.size;
  average_price = p.avg_price;
  current_price = mark_price bid p;
  current_value = mark_value bid p;
  realized_pnl = p.realized_pnl;
  unrealized_pnl = difference p.cash_pnl p.realized_pnl;
  is_open = ltb 0 p.size;
  last_reconciled_at = now;
}

abbrev pub Positions : Type 0
Positions = Text → Option PositionRow

abbrev pub put_position : Text → PositionRow → Positions → Positions
put_position token row t k = if text_eq token k then some row else t k

-- With a token and a condition
abbrev pub is_known : RemotePosition → Bool
is_known p = not (text_eq p.asset []) && not (text_eq p.condition_id [])

-- One round of the loop over the positions: the tokens seen, and the rows
abbrev pub position_turn :
    ℕ → (Text → Option Quote) → RemotePosition → List Text × Positions → List Text × Positions
position_turn now quotes p (active, t) =
    if is_known p
    then (p.asset ∷ active, put_position p.asset (row_of now (fresh_bid now (quotes p.asset)) p) t)
    else (active, t)

unfoldable pub positions_loop :
    ℕ → (Text → Option Quote) → List RemotePosition → List Text × Positions → List Text × Positions
positions_loop now quotes [] s = s
positions_loop now quotes (p ∷ ps) s = positions_loop now quotes ps (position_turn now quotes p s)

abbrev pub shut : ℕ → PositionRow → PositionRow
shut now row =
    if row.is_open
    then record row { is_open = false; quantity = 0; current_value = 0; last_reconciled_at = now }
    else row

abbrev pub shut_row : ℕ → Option PositionRow → Option PositionRow
shut_row now none = none
shut_row now (some row) = some (shut now row)

-- `updateMany` of the open rows of the other tokens
abbrev pub close_others : ℕ → List Text → Positions → Positions
close_others now active t k = if any (text_eq k) active then t k else shut_row now (t k)

abbrev order_updated : RemoteOrder → OrderRow → OrderRow
order_updated o row = record row {
  status = to_upper (or_text (codes "OPEN") o.status);
  matched_size = o.size_matched;
}

abbrev pub has_external_id : Text → OrderRow → Bool
has_external_id id row = elim row.external_order_id [ none ↦ false | some e ↦ text_eq e id ]

abbrev update_order : RemoteOrder → OrderRow → OrderRow
update_order o row = if has_external_id o.id row then order_updated o row else row

unfoldable pub orders_loop : List RemoteOrder → List OrderRow → List OrderRow
orders_loop [] rows = rows
orders_loop (o ∷ os) rows = orders_loop os (map (update_order o) rows)

abbrev pub is_open_status : Text → Bool
is_open_status s =
    text_eq s (codes "OPEN") || (text_eq s (codes "LIVE") || text_eq s (codes "SUBMITTED"))

-- The order is among those that Polymarket has open.
abbrev pub is_listed : List RemoteOrder → Text → Bool
is_listed os id = any (λ o. text_eq id o.id) os

abbrev closed_order : ℕ → OrderRow → OrderRow
closed_order now row = record row { status = codes "CLOSED"; closed_at = some now }

-- `notIn` does not hold of a missing id.
abbrev pub is_gone : List RemoteOrder → OrderRow → Bool
is_gone os row = elim row.external_order_id [
  | none ↦ false
  | some id ↦ not (is_listed os id) && is_open_status row.status
]

abbrev close_order : ℕ → List RemoteOrder → OrderRow → OrderRow
close_order now os row = if is_gone os row then closed_order now row else row

abbrev trade_order_id : RemoteTrade → Option Text
trade_order_id t = t.taker_order_id <|> t.first_maker_order_id

abbrev find_order : List OrderRow → Text → Option OrderRow
find_order [] id = none
find_order (row ∷ rows) id =
    let rest = find_order rows id in if has_external_id id row then some row else rest

abbrev order_of : List OrderRow → Option Text → Option OrderRow
order_of rows (some (c ∷ id)) = find_order rows (c ∷ id)
order_of rows _ = none

abbrev from_order : {A : Type 0} → A → (OrderRow → A) → Option OrderRow → A
from_order fallback f none = fallback
from_order fallback f (some row) = f row

abbrev trade_status : RemoteTrade → Text
trade_status t = to_upper (or_text (codes "MATCHED") t.status)

abbrev fresh_trade : ℕ → RemoteTrade → Option OrderRow → TradeRow
fresh_trade now t order = record {
  order_id = from_order none (λ o. some o.id) order;
  condition_id = or_text (from_order [] (λ o. o.condition_id) order) t.market;
  token_id = or_text (from_order [] (λ o. o.token_id) order) t.asset_id;
  side = from_order yes_side (λ o. o.side) order;
  price = t.price;
  size = t.size;
  fee = t.fee_rate_bps * product t.price t.size / 10_000;
  status = trade_status t;
  executed_at = elim t.match_time [ none ↦ now | some time ↦ time ];
}

abbrev trade_row : ℕ → List OrderRow → RemoteTrade → Option TradeRow → TradeRow
trade_row now orders t none = fresh_trade now t (order_of orders (trade_order_id t))
trade_row now orders t (some row) = record row { status = trade_status t }

abbrev pub trade_turn :
    ℕ → List OrderRow → RemoteTrade → (Text → Option TradeRow) → Text → Option TradeRow
trade_turn now orders t table k =
    if not (text_eq t.id []) && text_eq t.id k
    then some (trade_row now orders t (table k))
    else table k

unfoldable pub trades_loop :
    ℕ → List OrderRow → List RemoteTrade → (Text → Option TradeRow) → Text → Option TradeRow
trades_loop now orders [] table = table
trades_loop now orders (t ∷ ts) table = trades_loop now orders ts (trade_turn now orders t table)

-- The transaction
unfoldable pub reconciled :
    ℕ → List RemotePosition → List RemoteOrder → List RemoteTrade → AccountingDb → AccountingDb
unfolding positions_loop orders_loop trades_loop
reconciled now positions open_orders trades db =
    let (active, rows) = positions_loop now db.quotes positions ([], db.positions) in
    let orders = map (close_order now open_orders) (orders_loop open_orders db.orders) in
    record db {
      positions = close_others now active rows;
      orders = orders;
      trades = trades_loop now orders trades db.trades;
      last_reconciled_at = some now;
    }

abbrev pub all_of :
    {W : Type 0}
    → (W → ℕ × W)
    → Result Text (List RemotePosition)
    → Result Text (List RemoteOrder)
    → Result Text (List RemoteTrade)
    → AccountingDb
    → W
    → Result Text (List RemotePosition) × (AccountingDb × W)
all_of clock (ok positions) (ok open_orders) (ok trades) db w =
    let (now, w') = clock w in (ok positions, (reconciled now positions open_orders trades db, w'))
all_of clock (throw e) orders trades db w = (throw e, (db, w))
all_of clock (ok positions) (throw e) trades db w = (throw e, (db, w))
all_of clock (ok positions) (ok open_orders) (throw e) db w = (throw e, (db, w))

-- `none` stands for a loop over the pages that ran out of fuel.
abbrev pub fetched :
    {W : Type 0}
    → Option (Result Text (List RemotePosition) × W)
    → W
    → Result Text (List RemotePosition) × W
fetched none w = (throw [], w)
fetched (some o) w = o

-- For a pool with an account; it returns the positions, of which the source returns the number
unfoldable pub reconcile_pool_polymarket :
    {W : Type 0}
    → Polymarket W
    → AccountingDb
    → W
    → Result Text (List RemotePosition) × (AccountingDb × W)
unfolding fetch_data_api_positions reconciled
reconcile_pool_polymarket api db w =
    let (positions, w1) = fetched (fetch_data_api_positions api.get_page w) w in
    let (open_orders, w2) = api.get_open_orders w1 in
    let (trades, w3) = api.get_trades w2 in all_of api.now positions open_orders trades db w3
