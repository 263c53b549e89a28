-- ===== src/Polymarket/Tests.antt =====
-- The theorems on src/polymarket at concrete inputs.
use team_index.Base.{
  ℕ, ◌+◌, ◌%◌, ◌≤◌, ◌<◌, ◌≡◌, ◌≢◌, refl, [], none, some, true, false, ok, String, codes, Option,
  inl, inr,
}
use team_index.Polymarket.TradeExecutor.{execute_claimed_trade_intent, claim_trade_intent}
use team_index.Polymarket.TradeExecutor.Prices.{
  hundredth, decimal_to_base_units, tick_aligned_ceiling, tick_aligned_ceiling_lem,
}
use team_index.Polymarket.TradeExecutor.Return.{
  Db, Intent, IntentStatus, pending, funding, Account, Trading,
}
use team_index.Polymarket.TradeExecutor.Outcomes.{
  execute-Ended, Refused-Unmoved, executed_once, claimed_once,
}
use team_index.Polymarket.TradeExecutor.Traced.{Ended, Unmoved, traced}

abbrev intent : IntentStatus → Option String → Intent
intent status worker = record {
  pool_id = "pool";
  proposal_hash = "0xabc";
  token_id = "token";
  limit_price = 50000000;
  amount = 2500000000000000000;
  max_slippage_bps = 100;
  reserved_pusd = 3000000000000000000;
  status = status;
  attempts = 1;
  locked_at = some 1000;
  locked_by = worker;
  last_error = none;
  funding_tx = none;
}

abbrev account : Account
account = record {
  deposit_wallet_address = "0xwallet";
  vault_address = "0xvault";
  ready = true;
  approvals_ready = true;
}

abbrev db_with : Intent → Db
db_with i = record {
  intents = λ id. some i;
  accounts = λ pool. some account;
  movements = λ k. none;
  orders = [];
}

-- The world counts the calls; the order is accepted at 0.50 and 1 pUSD is left over.
abbrev trading : Trading ℕ
trading = record {
  allocate_pool_capital = λ vault hash amount w. (ok (codes "0x1"), w + 1);
  market_terms = λ token amount w. (
    ok (record {
      tick_size = hundredth;
      neg_risk = false;
      fee_rate_bps = 0;
      market_price = 500000000000;
    }),
    w + 1,
  );
  create_and_post_market_order = λ r w. (
    ok (record {
      order_id = none;
      order_id_2 = some (codes "7");
      id = none;
      status = none;
      success = true;
      taking_amount = none;
    }),
    w + 1,
  );
  balance_of = λ a w. (ok 1000000, w + 1);
  transfer = λ a n w. (
    ok (codes "t1", some (record { state = codes "STATE_MINED"; transaction_hash = codes "0x2" })),
    w + 1,
  );
  sync_pool_returned_capital = λ vault w. (ok (codes "0x3"), w + 1);
}

abbrev claimed : Db
claimed = db_with (intent funding (some "w"))

reserved : decimal_to_base_units 3000000000000000000 ≡ ok 3000000
unfolding decimal_to_base_units
reserved = refl

pending_not_funding : IntentStatus.pending ≢ IntentStatus.funding
pending_not_funding e = absurd (cc e)

first_claim : (claim_trade_intent "i" "a" 5 (db_with (intent pending none))).0 ≡ true
unfolding claim_trade_intent
first_claim = refl

execute-Ended_example :
    let (out, (after, (events, w))) =
      execute_claimed_trade_intent (traced trading) "i" claimed ([], 0) in
    Ended "i" out (after.intents "i") events claimed.orders after.orders
execute-Ended_example =
    execute-Ended trading "i" claimed 0 (intent funding (some "w")) account 3000000 refl refl refl
      refl reserved

-- The intent is still pending.
Refused-Unmoved_example :
    Unmoved
      (db_with (intent pending none))
      (execute_claimed_trade_intent (traced trading) "i" (db_with (intent pending none)) ([], 0))
Refused-Unmoved_example =
    Refused-Unmoved trading "i" (db_with (intent pending none)) 0
      (inr (intent pending none, (refl, inl pending_not_funding)))

executed_once_example :
    Unmoved (execute_claimed_trade_intent (traced trading) "i" claimed ([], 0)).1.0 (
      execute_claimed_trade_intent
        (traced trading)
        "i"
        (execute_claimed_trade_intent (traced trading) "i" claimed ([], 0)).1.0
        ([], 0))
executed_once_example =
    executed_once trading "i" claimed 0 0 (intent funding (some "w")) account 3000000 refl refl refl
      refl reserved

claimed_once_example :
    (claim_trade_intent "i" "b" 6
      (claim_trade_intent "i" "a" 5 (db_with (intent pending none))).1).0
    ≡ false
claimed_once_example = claimed_once "i" "a" "b" 5 6 (db_with (intent pending none)) first_claim

-- A cap of 0.9999 becomes a price of 1.00 with a tick of 0.01.
tick_aligned_ceiling_lem_example :
    (tick_aligned_ceiling 999900000000 hundredth % 10000000000 ≡ 0)
    × (999900000000 ≤ tick_aligned_ceiling 999900000000 hundredth)
    × (tick_aligned_ceiling 999900000000 hundredth < 999900000000 + 10000000000)
tick_aligned_ceiling_lem_example = tick_aligned_ceiling_lem 999900000000 hundredth
