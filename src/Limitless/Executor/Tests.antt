-- ===== src/Limitless/Executor/Tests.antt =====
-- Runs of the execution of a row.
use team_index.Base.{
  ℕ, suc, ◌+◌, ◌*◌, ◌≡◌, refl, List, [], ◌∷◌, true, false, none, some, ok, codes, ◌≤◌, ◌↔◌,
}
use team_index.Services.Scheduler.{scheduled, Key, QueueRow, put, Queue, Candidate}
use team_index.Limitless.OrderResult.{OrderResult}
use team_index.Limitless.Book.{unit, OrderBook, value_of, levels, simulate_market_buy}
use team_index.Limitless.Book.Depth.{fully_filled_iff}
use team_index.Limitless.TokenId.{yes}
use team_index.Limitless.Executor.Calls.{Exchange}
use team_index.Limitless.Executor.Checks.{RiskParams}
use team_index.Limitless.Executor.Quiet.{traced}
use team_index.Limitless.Executor.Rows.{TradeDb, TrancheParams, TradeEnv, Placed}
use team_index.Limitless.Executor.Closed.{Ended, scheduled-Ended}
use team_index.Limitless.Executor.Once.{Once, executions, executions-Once}
use team_index.Limitless.Executor.Rescheduled.{
  Event, executes, schedules, Sound, events, events-Sound,
}
use team_index.Limitless.Executor.{execute_limitless_tranche}

abbrev blank : OrderResult
blank = record {
  order_id = some (codes "o1");
  order_id_upper = none;
  id = none;
  nested_order_id = none;
  nested_order_id_upper = none;
  nested_id = none;
  success = none;
  status = some (codes "MATCHED");
  order_status = none;
  execution_status = none;
  settlement_status = none;
  error_msg = none;
  error = none;
  message = none;
  totals = some (record {
    usd_gross = some 15_000_000;
    usd_fee = none;
    contracts_net = some 30_000_000;
    contracts_gross = none;
  });
  maker_matches = [];
}

abbrev book : OrderBook
book = record {
  bids = record { price = 400_000_000_000; size = 100 * unit } ∷ [];
  asks = record { price = 500_000_000_000; size = 100 * unit } ∷ [];
}

-- The state counts the orders.
abbrev exchange : Exchange ℕ
exchange = record {
  now = λ w. (1000, w);
  get_order_book = λ slug w. (ok book, w);
  is_trading_wallet = λ v a w. (ok false, w);
  set_trading_wallet = λ v a w. (ok true, w);
  create_partner = λ w. (ok (some (codes "7"), some (codes "0xa")), w);
  get_market_by_slug =
      λ slug w. (ok (record { exchange = some (codes "0xe"); collateral_token = none }), w);
  erc20_balance = λ t a w. (ok 5, w);
  fund_trading_wallet = λ v a n w. (ok true, w);
  ensure_allowances = λ id w. w;
  post = λ params w. (ok blank, suc w);
}

abbrev env : TradeEnv
env = record {
  grace_minutes = 15;
  base_usdc_address = codes "0xc";
  ready = true;
  lock_owner = "executor";
}

abbrev key : Key
key = record { pool_id = "p"; candidate_id = "c"; tranche = 1 }

abbrev row : QueueRow
row = record {
  execution_time = 500;
  stake_usd = 0;
  status = scheduled;
  locked_at = none;
  locked_by = none;
  attempts = 0;
  executed_at = none;
  last_error = none;
}

abbrev risk : RiskParams
risk = record {
  max_per_match_pct = none;
  risk_per_match_pct = none;
  per_match_pct = none;
  liquidity_min_usd = some 50;
  liquidity_usd_min = none;
  min_liquidity_usd = none;
  max_total_exposure_pct = none;
  max_slippage_pct = some 2;
}

abbrev db : TradeDb
db = record {
  queue = put (λ k. none) key row;
  pools = λ p.
      some (record {
        vault_address = codes "0xb";
        total_pool_value = 1000 * unit;
        risk_params = risk;
      });
  candidates = λ c. some (record { event_id = codes "e"; token_id = codes "a-b:0"; side = yes });
  accounts = λ p. none;
  positions = [];
}

abbrev params : TrancheParams
params = record { queue_id = none; key = key; expected_execution_time_ms = none }

abbrev trade_of_run : Placed
trade_of_run = record {
  market_slug = codes "a-b";
  sized = record {
    best_ask = 500_000_000_000;
    stake_usd = 15 * unit;
    sim = record {
      fully_filled = true;
      filled_shares = 30 * unit;
      spent_usd = 15 * unit;
      worst_price = 500_000_000_000;
      avg_price = 500_000_000_000;
    };
  };
  fill = some (record {
    invested_usd = 15 * unit;
    shares = 30 * unit;
    fee_usd = 0;
    fill_price = 500_000_000_000;
    matched = true;
  });
  clob_order_id = some (codes "o1");
}

scheduled-Ended_example :
    let (out, (after, state)) = execute_limitless_tranche (traced exchange) env params db (0, []) in
    Ended key db.positions [] after out state.1
scheduled-Ended_example = scheduled-Ended exchange env params row db 0 [] refl refl

executions-Once_example :
    let (after, state) = executions (traced exchange) env (params ∷ params ∷ []) db (0, []) in
    Once key after state.1
executions-Once_example =
    executions-Once exchange env key (params ∷ params ∷ []) db 0 (refl, (refl, tt))

-- Jobs are added and answer.
abbrev jobs : Queue ℕ
jobs = record {
  now = λ v. (0, v);
  meanwhile = λ t v. (t, v);
  get_job = λ k v. (ok none, v);
  remove = λ k v. v;
  add = λ k delay time v. (ok tt, suc v);
}

abbrev candidate : Candidate
candidate = record { id = "c"; kickoff_time = some 100_000_000 }

abbrev two_runs : List Event
two_runs = executes params ∷ schedules "p" (candidate ∷ []) ∷ executes params ∷ []

events-Sound_example :
    let (after, (state, v)) = events (traced exchange) jobs env two_runs db (0, []) 0 in
    Sound key after state.1
events-Sound_example =
    events-Sound exchange jobs env key two_runs db 0 0 (λ t w h. refl) (refl, (tt, (refl, tt)))

fully_filled_iff_example :
    let s = simulate_market_buy book (15 * unit) in
    ((s.fully_filled ≡ true) ↔ (15 * unit ≤ value_of (levels book.asks) + 1000))
    × (s.spent_usd ≤ 15 * unit)
    × (s.fully_filled ≡ true → 15 * unit ≤ s.spent_usd + 1000)
fully_filled_iff_example = fully_filled_iff book (15 * unit)
