-- ===== src/Limitless/PositionSync.antt =====
-- src/limitless/limitlessPositionSync.ts: the open positions against their orders and the resolution of
-- their markets. Shares, prices and dollars are in 10^-12 units; products and quotients are rounded down.
pub mod Money
pub mod Conserved
mod Tests
use team_index.Base.{
  ℕ, zero, suc, ◌+◌, ◌-◌, ◌*◌, ◌/◌, min, List, [], ◌∷◌, any, Bool, true, false, ◌&&◌, ◌||◌, not,
  Option, none, some, Result, ok, throw, Text, codes, text_eq, to_lower, includes, String, str_eq,
  leb, ltb, ◌==◌, if◌then◌else◌, or_positive, ℤ, pos, pos_part, neg_part, sub_ℕ, ◌+ℤ◌,
}
use team_index.Limitless.Book.{unit, times}
use team_index.Limitless.TokenId.{decode_limitless_token_id}

pub data PositionStatus : Type 0 where
  opened cancelled_position settled : PositionStatus

-- The columns of club_pool_positions that a synchronisation reads or writes
pub record SyncRow : Type 0 where
  pub pool_id : String
  pub token_id : Text
  pub clob_order_id : Option Text
  pub planned_quantity : ℕ
  pub planned_stake : ℕ
  pub quantity : ℕ
  pub stake : ℕ
  pub invested_amount : ℕ
  pub current_value : ℕ
  pub realized_pnl : ℤ
  pub status : PositionStatus

-- The columns of club_pools
pub record PoolMoney : Type 0 where
  pub cash : ℤ
  pub realized_pnl : ℤ

-- A row of limitless_markets
pub record CachedMarket : Type 0 where
  pub yes_price : ℕ
  pub is_resolved : Bool
  pub resolution : Option Text

-- `order.status` and the matched size of an order; what is missing is empty or 0.
pub record OrderState : Type 0 where
  pub status : Text
  pub size_matched : ℕ

-- The Limitless API, and the table of markets
pub record Venue (W : Type 0) : Type 0 where
  pub get_limitless_order : Text → W → Result Text OrderState × W
  pub get_midpoint : Text → ℕ → W → Result Text ℕ × W
  pub market : Text → W → Option CachedMarket

abbrev pub minus_ℕ : ℤ → ℕ → ℤ
minus_ℕ z n = sub_ℕ (pos_part z) (neg_part z + n)

abbrev pub plus_ℕ : ℤ → ℕ → ℤ
plus_ℕ z n = sub_ℕ (pos_part z + n) (neg_part z)

-- The order was stopped before anything was filled.
abbrev pub is_stopped : OrderState → Bool
is_stopped o =
    o.size_matched == 0
    && (includes (codes "cancel") (to_lower o.status)
        || includes (codes "reject") (to_lower o.status))

-- `none` for a position that is to be cancelled, otherwise the matched quantity
abbrev pub matched_of : ℕ → Result Text OrderState → Option ℕ
matched_of filled (throw e) = some filled
matched_of filled (ok o) = if is_stopped o then none else some (or_positive o.size_matched filled)

abbrev pub order_matched : {W : Type 0} → Venue W → Option Text → ℕ → W → Option ℕ × W
order_matched venue none filled w = (some filled, w)
order_matched venue (some []) filled w = (some filled, w)
order_matched venue (some (c ∷ id)) filled w =
    let (r, w') = venue.get_limitless_order (c ∷ id) w in (matched_of filled r, w')

-- Half a dollar without a cached price
abbrev pub cached_yes_price : Option CachedMarket → ℕ
cached_yes_price none = 500_000_000_000
cached_yes_price (some m) = m.yes_price

abbrev pub side_price : ℕ → ℕ → ℕ
side_price zero yes_price = yes_price
side_price (suc k) yes_price = unit - yes_price

abbrev pub mid_of : ℕ → Option CachedMarket → Result Text ℕ → ℕ
mid_of outcome_index m (ok mid) = mid
mid_of outcome_index m (throw e) = side_price outcome_index (cached_yes_price m)

abbrev pub cancelled_row : SyncRow → SyncRow
cancelled_row row = record row {
  status = cancelled_position;
  current_value = 0;
  quantity = 0;
  stake = 0;
  invested_amount = 0;
  realized_pnl = pos 0;
}

-- `plannedStake * min(1, matchedQty / plannedQty)`
abbrev pub new_invested : SyncRow → ℕ → ℕ
new_invested row matched =
    min row.planned_stake (row.planned_stake * matched / row.planned_quantity)

-- More was filled: the pool pays the difference.
abbrev pub filled_more : ℕ → ℕ → ℕ → SyncRow → PoolMoney → SyncRow × PoolMoney
filled_more matched mid invested row pool = (
  record row {
    quantity = matched;
    stake = invested;
    invested_amount = invested;
    current_value = times matched mid;
  },
  record pool { cash = minus_ℕ pool.cash (invested - row.invested_amount) },
)

abbrev pub marked : ℕ → ℕ → SyncRow → SyncRow
marked matched mid row = record row { current_value = times matched mid }

abbrev pub emptied : SyncRow → SyncRow
emptied row =
    if row.quantity == 0
    then row
    else record row { current_value = 0; quantity = 0; stake = 0; invested_amount = 0 }

-- The fill accounting: `investedNow`, the row and the pool
unfoldable pub accounted : ℕ → ℕ → SyncRow → PoolMoney → ℕ × (SyncRow × PoolMoney)
accounted matched mid row pool =
    if ltb 0 row.planned_quantity && (ltb 0 row.planned_stake && ltb 0 matched)
    then if ltb row.invested_amount (new_invested row matched)
      then (new_invested row matched, filled_more matched mid (new_invested row matched) row pool)
      else (row.invested_amount, (marked matched mid row, pool))
    else (row.invested_amount, (emptied row, pool))

abbrev text_of : Option Text → Text
text_of none = []
text_of (some s) = to_lower s

abbrev one_of : Text → Text → Text → Text → Bool
one_of s a b c = text_eq s a || (text_eq s b || text_eq s c)

unfoldable pub did_win : ℕ → Option Text → Bool
did_win zero resolution = one_of (text_of resolution) (codes "yes") (codes "1") (codes "true")
did_win (suc k) resolution = one_of (text_of resolution) (codes "no") (codes "0") (codes "false")

abbrev pub payout : Bool → ℕ → ℕ
payout won matched = if won then matched else 0

-- The stake goes back to the cash, the profit or loss to the realized one.
abbrev pub settled_with : ℕ → ℕ → SyncRow → PoolMoney → SyncRow × PoolMoney
settled_with paid invested row pool =
    let profit = sub_ℕ paid invested in
    (
      record row { status = settled; realized_pnl = profit; current_value = paid },
      record pool { cash = plus_ℕ pool.cash invested; realized_pnl = pool.realized_pnl +ℤ profit },
    )

unfoldable pub settle_if :
    ℕ → Option CachedMarket → ℕ → ℕ → SyncRow → PoolMoney → SyncRow × PoolMoney
unfolding did_win
settle_if outcome_index none matched invested row pool = (row, pool)
settle_if outcome_index (some m) matched invested row pool =
    if m.is_resolved && ltb 0 invested
    then settled_with (payout (did_win outcome_index m.resolution) matched) invested row pool
    else (row, pool)

abbrev pub after_fill : ℕ → ℕ → ℕ → Option CachedMarket → SyncRow → PoolMoney → SyncRow × PoolMoney
after_fill outcome_index matched mid m row pool =
    let (invested, s) = accounted matched mid row pool in
    settle_if outcome_index m matched invested s.0 s.1

abbrev pub is_open_position : PositionStatus → Bool
is_open_position opened = true
is_open_position _ = false

-- Only positions of Limitless, whose token ids have a colon
abbrev pub is_synced : SyncRow → Bool
is_synced row = is_open_position row.status && includes (codes ":") row.token_id

abbrev pub put_pool : String → PoolMoney → (String → PoolMoney) → String → PoolMoney
put_pool id pool pools k = if str_eq id k then pool else pools k

abbrev pub one_less : ℕ → ℕ
one_less n = n - 1

module _ {W : Type 0} (venue : Venue W) where
  abbrev pub with_matched :
      Text → ℕ → Option ℕ → SyncRow → PoolMoney → W → SyncRow × (PoolMoney × W)
  with_matched market_id outcome_index none row pool w = (cancelled_row row, (pool, w))
  with_matched market_id outcome_index (some matched) row pool w =
      let (r, w') = venue.get_midpoint market_id outcome_index w in
      let mid = mid_of outcome_index (venue.market market_id w') r in
      let (row', pool') =
        after_fill outcome_index matched mid (venue.market market_id w') row pool in
      (row', (pool', w'))

  -- One round of the loop, with the pool of the position
  unfoldable pub position_turn : SyncRow → PoolMoney → W → SyncRow × (PoolMoney × W)
  unfolding accounted settle_if
  position_turn row pool w =
      let (market_id, outcome_index) = decode_limitless_token_id row.token_id in
      let (matched, w') = order_matched venue row.clob_order_id row.quantity w in
      with_matched market_id outcome_index matched row pool w'

  -- The rows, of which at most so many are synchronised
  unfoldable pub sync_loop :
      ℕ → List SyncRow → (String → PoolMoney) → W → List SyncRow × ((String → PoolMoney) × W)
  unfolding position_turn
  sync_loop left [] pools w = ([], (pools, w))
  sync_loop left (row ∷ rows) pools w = elim (is_synced row && ltb 0 left) [
    | false ↦ let (rows', s) = sync_loop left rows pools w in (row ∷ rows', s)
    | true ↦
        let (row', (pool, w')) = position_turn row (pools row.pool_id) w in
        let (rows', s) = sync_loop (one_less left) rows (put_pool row.pool_id pool pools) w' in
        (row' ∷ rows', s)
  ]

  unfoldable pub sync_limitless_fills_and_settle :
      List SyncRow → (String → PoolMoney) → W → List SyncRow × ((String → PoolMoney) × W)
  unfolding sync_loop
  sync_limitless_fills_and_settle rows pools w = sync_loop 200 rows pools w
