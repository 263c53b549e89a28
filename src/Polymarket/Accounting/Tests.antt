-- ===== src/Polymarket/Accounting/Tests.antt =====
-- Runs of the reconciliation of a pool.
use team_index.Base.{
  ℕ, suc, ◌≡◌, refl, inl, List, [], ◌∷◌, take, drop, replicate, if◌then◌else◌, true, false, Option,
  none, some, Result, ok, Text, codes, pos, text_eq,
}
use team_index.Polymarket.Accounting.Pages.{
  pages, fetch_data_api_positions, counted, EndsWithin, fetch-EndsWithin,
}
use team_index.Polymarket.Accounting.Tables.{RemotePosition, PositionRow, AccountingDb, Polymarket}
use team_index.Polymarket.Accounting.Reconcile.{
  positions_loop, reconciled, reconcile_pool_polymarket,
}
use team_index.Polymarket.Accounting.Mirror.{Whole, reconcile-Whole}

-- Each page is full.
abbrev endless : ℕ → ℕ → Result Text (List ℕ) × ℕ
endless offset w = (ok (replicate 500 offset), w)

fetch-EndsWithin_example : EndsWithin 21 (fetch_data_api_positions (counted endless) (0, 0))
fetch-EndsWithin_example = fetch-EndsWithin endless 0

abbrev held : RemotePosition
held = record {
  asset = codes "t1";
  condition_id = codes "c1";
  size = 7;
  avg_price = 2;
  cur_price = 3;
  current_value = 21;
  cash_pnl = pos 7;
  realized_pnl = pos 1;
  outcome = codes "Yes";
}

abbrev old_row : PositionRow
old_row = record {
  condition_id = codes "c0";
  outcome = none;
  quantity = 4;
  average_price = 2;
  current_price = 2;
  current_value = 8;
  realized_pnl = pos 0;
  unrealized_pnl = pos 0;
  is_open = true;
  last_reconciled_at = 1;
}

abbrev api : Polymarket ℕ
api = record {
  get_page = λ offset w. (ok (take 500 (drop offset (held ∷ []))), suc w);
  get_open_orders = λ w. (ok [], w);
  get_trades = λ w. (ok [], w);
  now = λ w. (50, w);
}

-- The token t0 is no longer held.
abbrev db : AccountingDb
db = record {
  positions = λ k. if text_eq k (codes "t0") then some old_row else none;
  orders = [];
  trades = λ k. none;
  quotes = λ k. none;
  last_reconciled_at = none;
}

abbrev positions_after : Text → Option PositionRow
positions_after token = (reconcile_pool_polymarket api db 0).1.0.positions token

reconcile_runs :
    (positions_after (codes "t0")
      ≡ some (record old_row {
        is_open = false;
        quantity = 0;
        current_value = 0;
        last_reconciled_at = 50;
      }))
    × ((reconcile_pool_polymarket api db 0).1.1 ≡ 1)
unfolding reconcile_pool_polymarket fetch_data_api_positions pages reconciled positions_loop text_eq
reconcile_runs = (refl, refl)

reconcile-Whole_example : Whole (held ∷ []) db (reconcile_pool_polymarket api db 0)
reconcile-Whole_example = reconcile-Whole api (held ∷ []) db 0 (λ offset w. inl refl)
