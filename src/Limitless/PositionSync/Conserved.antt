-- ===== src/Limitless/PositionSync/Conserved.antt =====
-- src/limitless/limitlessPositionSync.ts: the money of a pool over a whole synchronisation.
use team_index.Base.{
  ℕ, ◌+◌, ◌≡◌, ◌≢◌, refl, sym, ap, ◌∙◌, List, [], ◌∷◌, All, true, ◌&&◌, String, str_eq, str_eq_iff,
  ltb, if◌then◌else◌, ℤ, pos, negsuc, arith, Bool-cases, inl, inr, ◌<◌,
}
use team_index.Limitless.PositionSync.{
  PositionStatus, opened, cancelled_position, settled, SyncRow, PoolMoney, Venue, plus_ℕ,
  position_turn, is_synced, is_open_position, put_pool, one_less, sync_loop,
  sync_limitless_fills_and_settle,
}
use team_index.Limitless.PositionSync.Money.{
  Synced, was_cancelled, stays_open, was_settled, position_turn-Synced,
}

abbrev open_amount : PositionStatus → ℕ → ℕ
open_amount opened n = n
open_amount _ n = 0

-- What is invested in the open position
abbrev pub open_invested : SyncRow → ℕ
open_invested row = open_amount row.status row.invested_amount

-- What is invested in the open positions of a pool
abbrev pub total_invested : String → List SyncRow → ℕ
total_invested id [] = 0
total_invested id (row ∷ rows) =
    let rest = total_invested id rows in
    if str_eq row.pool_id id then open_invested row + rest else rest

-- The cash of a pool with what is invested in its open positions
abbrev pub cash_and_invested : String → List SyncRow → (String → PoolMoney) → ℤ
cash_and_invested id rows pools = plus_ℕ (pools id).cash (total_invested id rows)

abbrev pub IsPlanned : SyncRow → Type 0
IsPlanned row = (0 < row.planned_quantity) × (0 < row.planned_stake)

plus-plus : (c : ℤ) (a b j : ℕ) → a + b ≡ j → plus_ℕ (plus_ℕ c a) b ≡ plus_ℕ c j
plus-plus (pos n) a b j e = ground (arith, e)
plus-plus (negsuc n) a b j e = ground (arith, e)

plus-zero : (c : ℤ) → plus_ℕ c 0 ≡ c
plus-zero (pos n) = ground arith
plus-zero (negsuc n) = ground arith

Synced-conserved :
    (row : SyncRow) (pool : PoolMoney) (row' : SyncRow) (pool' : PoolMoney)
    → Synced row pool row' pool'
    → row.status ≡ opened
    → row'.status ≢ cancelled_position
    → plus_ℕ pool'.cash (open_invested row') ≡ plus_ℕ pool.cash (open_invested row)
Synced-conserved row pool row' pool' (was_cancelled id status none same) o n = absurd (n status)
Synced-conserved row pool row' pool' (stays_open id status grown capped cash pnl) o n =
    rw (status, o) cash
Synced-conserved row pool row' pool' (was_settled id status profit cash pnl) o n =
    rw (status, o) (plus-zero pool'.cash ∙ cash)

Synced-pool_id :
    (row : SyncRow) (pool : PoolMoney) (row' : SyncRow) (pool' : PoolMoney)
    → Synced row pool row' pool'
    → row'.pool_id ≡ row.pool_id
Synced-pool_id row pool row' pool' (was_cancelled id status none same) = id
Synced-pool_id row pool row' pool' (stays_open id status grown capped cash pnl) = id
Synced-pool_id row pool row' pool' (was_settled id status profit cash pnl) = id

-- One row more on both sides
join :
    (c c' c'' : ℤ) (a a' rest rest' : ℕ)
    → plus_ℕ c' a' ≡ plus_ℕ c a
    → plus_ℕ c'' rest' ≡ plus_ℕ c' rest
    → plus_ℕ c'' (a' + rest') ≡ plus_ℕ c (a + rest)
join c c' c'' a a' rest rest' h k =
    sym (plus-plus c'' rest' a' (a' + rest') (omega arith))
    ∙ ap (λ z. plus_ℕ z a') k
    ∙ plus-plus c' rest a' (a' + rest) (omega arith)
    ∙ sym (plus-plus c' a' rest (a' + rest) refl)
    ∙ ap (λ z. plus_ℕ z rest) h
    ∙ plus-plus c a rest (a + rest) refl

status→opened : (s : PositionStatus) → is_open_position s ≡ true → s ≡ opened
status→opened opened h = refl
status→opened cancelled_position h = absurd (ground (arith, h))
status→opened settled h = absurd (ground (arith, h))

str_eq_same : (a b : String) → str_eq a b ≡ true → a ≡ b
str_eq_same a b h = (str_eq_iff a b).0 h

str_eq_refl : (a : String) → str_eq a a ≡ true
str_eq_refl a = (str_eq_iff a a).1 refl

is_synced→opened : (row : SyncRow) → is_synced row ≡ true → row.status ≡ opened
is_synced→opened row h = status→opened row.status (ground (arith, h))

module _ {W : Type 0} (venue : Venue W) (id : String) where
  -- A row that is synchronised, before the rows after it
  step-conserved :
      (row : SyncRow) (pools : String → PoolMoney) (w : W) (rows rows' : List SyncRow)
      (after : String → PoolMoney)
      → row.status ≡ opened
      → IsPlanned row
      → let (row', (pool', w')) = position_turn venue row (pools row.pool_id) w in
        row'.status ≢ cancelled_position
        → cash_and_invested id rows' after
          ≡ cash_and_invested id rows (put_pool row.pool_id pool' pools)
        → cash_and_invested id (row' ∷ rows') after ≡ cash_and_invested id (row ∷ rows) pools
  step-conserved row pools w rows rows' after o (q, s) =
      let (row', (pool', w')) = position_turn venue row (pools row.pool_id) w in
      let synced = position_turn-Synced venue row (pools row.pool_id) w o q s in
      let same_pool = Synced-pool_id row (pools row.pool_id) row' pool' synced in
      λ n rest. elim (Bool-cases (str_eq row.pool_id id)) [
        | inl e ↦
            let here : row.pool_id ≡ id = str_eq_same row.pool_id id e in
            let paid : plus_ℕ pool'.cash (open_invested row')
                ≡ plus_ℕ (pools id).cash (open_invested row) =
              Synced-conserved row (pools row.pool_id) row' pool' synced o n
              ∙ ap (λ k. plus_ℕ (pools k).cash (open_invested row)) here in
            let later : plus_ℕ (after id).cash (total_invested id rows')
                ≡ plus_ℕ pool'.cash (total_invested id rows) =
              rest ∙ rw e refl in
            rw (same_pool, e)
              (join (pools id).cash pool'.cash (after id).cash (open_invested row)
                (open_invested row') (total_invested id rows) (total_invested id rows') paid later)
        | inr e ↦ rw (same_pool, e) (rest ∙ rw e refl)
      ]

  skip-conserved :
      (row : SyncRow) (rows rows' : List SyncRow) (pools after : String → PoolMoney)
      → cash_and_invested id rows' after ≡ cash_and_invested id rows pools
      → cash_and_invested id (row ∷ rows') after ≡ cash_and_invested id (row ∷ rows) pools
  skip-conserved row rows rows' pools after rest = elim (Bool-cases (str_eq row.pool_id id)) [
    | inl e ↦ rw e (
        join (pools id).cash (pools id).cash (after id).cash (open_invested row) (open_invested row)
          (total_invested id rows) (total_invested id rows') refl rest)
    | inr e ↦ rw e rest
  ]

  loop-conserved :
      (left : ℕ) (rows : List SyncRow) (pools : String → PoolMoney) (w : W)
      → All IsPlanned rows
      → let (rows', (after, w')) = sync_loop venue left rows pools w in
        All (λ row. row.status ≢ cancelled_position) rows'
        → cash_and_invested id rows' after ≡ cash_and_invested id rows pools
  unfolding sync_loop
  loop-conserved left [] pools w planned = λ none. refl
  loop-conserved left (row ∷ rows) pools w (p, planned) =
      elim (Bool-cases (is_synced row && ltb 0 left)) [
        | inr e ↦
            let (rows', (after, w')) = sync_loop venue left rows pools w in
            rw (e, sync_loop)
              (λ none.
                skip-conserved row rows rows' pools after
                  (loop-conserved left rows pools w planned none.1))
        | inl e ↦
            let (row', (pool', w1)) = position_turn venue row (pools row.pool_id) w in
            let pools1 = put_pool row.pool_id pool' pools in
            let (rows', (after, w2)) = sync_loop venue (one_less left) rows pools1 w1 in
            let o : row.status ≡ opened = is_synced→opened row (ground (arith, e)) in
            rw (e, sync_loop)
              (λ none.
                step-conserved row pools w rows rows' after o p none.0
                  (loop-conserved (one_less left) rows pools1 w1 planned none.1))
      ]

  -- A synchronisation after which no position is cancelled keeps, for each pool, the cash with what is invested in
  -- its open positions, where all positions have a planned quantity and stake.
  pub sync-conserved :
      (rows : List SyncRow) (pools : String → PoolMoney) (w : W)
      → All IsPlanned rows
      → All
          (λ row. row.status ≢ cancelled_position)
          (sync_limitless_fills_and_settle venue rows pools w).0
      → let (rows', (after, w')) = sync_limitless_fills_and_settle venue rows pools w in
        cash_and_invested id rows' after ≡ cash_and_invested id rows pools
  unfolding sync_limitless_fills_and_settle
  sync-conserved rows pools w planned none = loop-conserved 200 rows pools w planned none
