-- ===== src/Limitless/PositionSync/Tests.antt =====
-- Runs of the synchronisation of positions.
use team_index.Base.{
  ℕ, suc, ◌*◌, ◌≡◌, refl, [], ◌∷◌, true, some, ok, throw, codes, pos, text_eq, to_lower, includes,
  starts_with, arith, ◌+ℤ◌,
}
use team_index.Limitless.Book.{unit}
use team_index.Limitless.TokenId.{decode_limitless_token_id}
use team_index.Limitless.PositionSync.{
  opened, settled, SyncRow, PoolMoney, Venue, position_turn, accounted, settle_if, did_win,
  sync_loop, sync_limitless_fills_and_settle,
}
use team_index.Limitless.PositionSync.Money.{Synced, position_turn-Synced}
use team_index.Limitless.PositionSync.Conserved.{cash_and_invested, sync-conserved}

-- Half of 20 shares was held; all are matched, and the market is won.
abbrev held : SyncRow
held = record {
  pool_id = "p";
  token_id = codes "a-b:0";
  clob_order_id = some (codes "o1");
  planned_quantity = 20 * unit;
  planned_stake = 10 * unit;
  quantity = 10 * unit;
  stake = 5 * unit;
  invested_amount = 5 * unit;
  current_value = 5 * unit;
  realized_pnl = pos 0;
  status = opened;
}

abbrev venue : Venue ℕ
venue = record {
  get_limitless_order =
      λ id w. (ok (record { status = codes "MATCHED"; size_matched = 20 * unit }), suc w);
  get_midpoint = λ id outcome w. (throw [], w);
  market = λ id w.
      some (record {
        yes_price = 900_000_000_000;
        is_resolved = true;
        resolution = some (codes "YES");
      });
}

abbrev money : PoolMoney
money = record { cash = pos (100 * unit); realized_pnl = pos 0 }

-- 5 dollars more are invested, 10 come back, and the profit is 10.
turn_run : position_turn venue held money 0 ≡ (
  record held {
    quantity = 20 * unit;
    stake = 10 * unit;
    invested_amount = 10 * unit;
    current_value = 20 * unit;
    realized_pnl = pos (10 * unit);
    status = settled;
  },
  (record { cash = pos (105 * unit); realized_pnl = pos (10 * unit) }, 1),
)
unfolding position_turn accounted settle_if did_win decode_limitless_token_id includes starts_with
    to_lower text_eq ◌+ℤ◌
turn_run = refl

position_turn-Synced_example :
    let (row', (pool', w')) = position_turn venue held money 0 in Synced held money row' pool'
position_turn-Synced_example =
    position_turn-Synced venue held money 0 refl (omega arith) (omega arith)

sync-conserved_example :
    let (rows', (after, w')) = sync_limitless_fills_and_settle venue (held ∷ []) (λ k. money) 0 in
    cash_and_invested "p" rows' after ≡ cash_and_invested "p" (held ∷ []) (λ k. money)
unfolding sync_limitless_fills_and_settle sync_loop position_turn accounted settle_if did_win
    decode_limitless_token_id includes starts_with to_lower text_eq ◌+ℤ◌
sync-conserved_example =
    sync-conserved venue "p" (held ∷ []) (λ k. money) 0 ((omega arith, omega arith), tt)
      ((λ h. absurd (ground (arith, h))), tt)
