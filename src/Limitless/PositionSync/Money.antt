-- ===== src/Limitless/PositionSync/Money.antt =====
-- src/limitless/limitlessPositionSync.ts: what a synchronisation does to the money of a pool.
use team_index.Base.{
  ℕ, zero, suc, ◌+◌, ◌-◌, ◌≤◌, ◌<◌, ◌≡◌, refl, sym, ap, ◌∙◌, max, [], ◌∷◌, Bool, true, false, ◌&&◌,
  Option, none, some, Result, ok, throw, Text, ltb, lt→ltb, ltb→lt, if◌then◌else◌, or_positive, ℤ,
  pos, negsuc, sub_ℕ, ◌+ℤ◌, arith, Bool-cases, inl, inr,
}
use team_index.Limitless.TokenId.{decode_limitless_token_id}
use team_index.Limitless.PositionSync.{
  opened, cancelled_position, settled, SyncRow, PoolMoney, CachedMarket, OrderState, Venue, minus_ℕ,
  plus_ℕ, matched_of, order_matched, is_stopped, mid_of, new_invested, accounted, did_win, payout,
  settle_if, with_matched, position_turn,
}

minus-plus : (c : ℤ) (d i j : ℕ) → i + d ≡ j → plus_ℕ (minus_ℕ c d) j ≡ plus_ℕ c i
minus-plus (pos n) d i j e = ground (arith, e)
minus-plus (negsuc n) d i j e = ground (arith, e)

-- A synchronised position and its pool, before and after
pub data Synced (row : SyncRow) (pool : PoolMoney) (row' : SyncRow) (pool' : PoolMoney)
    : Type 0 where
  was_cancelled :
      row'.pool_id ≡ row.pool_id
      → row'.status ≡ cancelled_position
      → row'.invested_amount ≡ 0
      → pool' ≡ pool
      → Synced row pool row' pool'
  stays_open :
      row'.pool_id ≡ row.pool_id
      → row'.status ≡ opened
      → row.invested_amount ≤ row'.invested_amount
      → row'.invested_amount ≤ max row.invested_amount row.planned_stake
      → plus_ℕ pool'.cash row'.invested_amount ≡ plus_ℕ pool.cash row.invested_amount
      → pool'.realized_pnl ≡ pool.realized_pnl
      → Synced row pool row' pool'
  was_settled :
      row'.pool_id ≡ row.pool_id
      → row'.status ≡ settled
      → row'.realized_pnl ≡ sub_ℕ row'.current_value row'.invested_amount
      → pool'.cash ≡ plus_ℕ pool.cash row.invested_amount
      → pool'.realized_pnl ≡ pool.realized_pnl +ℤ row'.realized_pnl
      → Synced row pool row' pool'

-- The fill accounting, where no filled position is emptied: the amount that it returns is that of the row,
-- and what the row gains the cash of the pool loses.
Filled : SyncRow → PoolMoney → ℕ × (SyncRow × PoolMoney) → Type 0
Filled row pool (invested, (row', pool')) =
    (row'.pool_id ≡ row.pool_id)
    × (row'.status ≡ row.status)
    × (row'.invested_amount ≡ invested)
    × (row.invested_amount ≤ invested)
    × (invested ≤ max row.invested_amount row.planned_stake)
    × (plus_ℕ pool'.cash invested ≡ plus_ℕ pool.cash row.invested_amount)
    × (pool'.realized_pnl ≡ pool.realized_pnl)

new_invested-le : (row : SyncRow) (matched : ℕ) → new_invested row matched ≤ row.planned_stake
new_invested-le row matched = omega arith

accounted-Filled :
    (matched mid : ℕ) (row : SyncRow) (pool : PoolMoney)
    → 0 < row.planned_quantity
    → 0 < row.planned_stake
    → (matched ≡ 0 → row.quantity ≡ 0)
    → Filled row pool (accounted matched mid row pool)
unfolding accounted Filled
accounted-Filled matched mid row pool q s h = elim (Bool-cases (ltb 0 matched)) [
  | inl m ↦ elim (Bool-cases (ltb row.invested_amount (new_invested row matched))) [
    | inl more ↦
        let le = new_invested-le row matched in
        let lt = ltb→lt row.invested_amount (new_invested row matched) more in
        rw (lt→ltb 0 row.planned_quantity q, lt→ltb 0 row.planned_stake s, m, more)
          (
            refl,
            refl,
            refl,
            omega (arith, lt),
            omega (arith, le),
            minus-plus pool.cash (new_invested row matched - row.invested_amount)
                row.invested_amount _ (omega (arith, lt)),
            refl,
          )
    | inr less ↦
        rw (lt→ltb 0 row.planned_quantity q, lt→ltb 0 row.planned_stake s, m, less)
          (refl, refl, refl, omega arith, omega arith, refl, refl)
  ]
  | inr m ↦
      let none_matched : matched ≡ 0 = ground (arith, m) in
      rw (lt→ltb 0 row.planned_quantity q, lt→ltb 0 row.planned_stake s, m, h none_matched)
        (refl, refl, refl, omega arith, omega arith, refl, refl)
]

open-Synced :
    (row : SyncRow) (pool : PoolMoney) (invested : ℕ) (row1 : SyncRow) (pool1 : PoolMoney)
    → row.status ≡ opened
    → Filled row pool (invested, (row1, pool1))
    → Synced row pool row1 pool1
unfolding Filled
open-Synced row pool invested row1 pool1 o (pool_id, status, same, grown, capped, cash, pnl) =
    stays_open pool_id (status ∙ o) (rw same grown) (rw same capped) (rw same cash) pnl

settle_if-Synced :
    (outcome_index : ℕ) (m : Option CachedMarket) (matched : ℕ) (row : SyncRow) (pool : PoolMoney)
    (invested : ℕ) (row1 : SyncRow) (pool1 : PoolMoney)
    → row.status ≡ opened
    → Filled row pool (invested, (row1, pool1))
    → let (row', pool') = settle_if outcome_index m matched invested row1 pool1 in
      Synced row pool row' pool'
unfolding settle_if Filled
settle_if-Synced outcome_index none matched row pool invested row1 pool1 o f =
    open-Synced row pool invested row1 pool1 o f
settle_if-Synced outcome_index (some m) matched row pool invested row1 pool1 o f =
    elim (Bool-cases (m.is_resolved && ltb 0 invested)) [
      | inr e ↦ rw e (open-Synced row pool invested row1 pool1 o f)
      | inl e ↦
          let (pool_id, status, same, grown, capped, cash, pnl) = f in
          let paid = payout (did_win outcome_index m.resolution) matched in
          rw e (
            was_settled pool_id refl (ap (λ n. sub_ℕ paid n) (sym same)) cash
              (ap (λ z. z +ℤ sub_ℕ paid invested) pnl))
    ]

or_positive-zero : (a b : ℕ) → or_positive a b ≡ 0 → b ≡ 0
or_positive-zero zero b h = h
or_positive-zero (suc a) b h = absurd (omega (arith, h))

if-some : (b : Bool) (n m : ℕ) → (if b then none else some n) ≡ some m → n ≡ m
if-some true n m h = absurd (ground (arith, h))
if-some false n m h = ground (arith, h)

-- A position with nothing matched has nothing filled.
matched_of-some :
    (filled matched : ℕ) (r : Result Text OrderState)
    → matched_of filled r ≡ some matched
    → matched ≡ 0
    → filled ≡ 0
matched_of-some filled matched (throw e) h z = ground (arith, h, z)
matched_of-some filled matched (ok o) h z =
    or_positive-zero o.size_matched filled
      (if-some (is_stopped o) (or_positive o.size_matched filled) matched h ∙ z)

module _ {W : Type 0} (venue : Venue W) where
  order_matched-some :
      (id : Option Text) (filled matched : ℕ) (w : W)
      → (order_matched venue id filled w).0 ≡ some matched
      → matched ≡ 0
      → filled ≡ 0
  order_matched-some none filled matched w h z = ground (arith, h, z)
  order_matched-some (some []) filled matched w h z = ground (arith, h, z)
  order_matched-some (some (c ∷ id)) filled matched w h z =
      matched_of-some filled matched (venue.get_limitless_order (c ∷ id) w).0 h z

  matched-Synced :
      (market_id : Text) (outcome_index : ℕ) (o : Option ℕ) (row : SyncRow) (pool : PoolMoney)
      (w : W)
      → row.status ≡ opened
      → 0 < row.planned_quantity
      → 0 < row.planned_stake
      → ((matched : ℕ) → o ≡ some matched → matched ≡ 0 → row.quantity ≡ 0)
      → let (row', (pool', w')) = with_matched venue market_id outcome_index o row pool w in
        Synced row pool row' pool'
  matched-Synced market_id outcome_index none row pool w opened_row q s k =
      was_cancelled refl refl refl refl
  matched-Synced market_id outcome_index (some matched) row pool w opened_row q s k =
      let (r, w') = venue.get_midpoint market_id outcome_index w in
      let m = venue.market market_id w' in
      let mid = mid_of outcome_index m r in
      let (invested, (row1, pool1)) = accounted matched mid row pool in
      settle_if-Synced outcome_index m matched row pool invested row1 pool1 opened_row
        (accounted-Filled matched mid row pool q s (k matched refl))

  -- An open position with a planned quantity and stake is cancelled, and its pool stays as it is; or it stays
  -- open, its invested amount does not fall, stays within the planned stake if it grows, and what it grows by
  -- leaves the cash of the pool; or it is settled, the amount that was invested before comes back to the cash,
  -- and the profit or loss of the position, its value less what was invested in the end, is added to the
  -- realized one of the pool.
  pub position_turn-Synced :
      (row : SyncRow) (pool : PoolMoney) (w : W)
      → row.status ≡ opened
      → 0 < row.planned_quantity
      → 0 < row.planned_stake
      → let (row', (pool', w')) = position_turn venue row pool w in Synced row pool row' pool'
  unfolding position_turn
  position_turn-Synced row pool w o q s =
      let (market_id, outcome_index) = decode_limitless_token_id row.token_id in
      let (matched, w') = order_matched venue row.clob_order_id row.quantity w in
      matched-Synced market_id outcome_index matched row pool w' o q s
        (λ n e. order_matched-some row.clob_order_id row.quantity n w e)
