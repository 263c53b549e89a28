-- ===== src/Limitless/Tests.antt =====
-- Runs of the Limitless orders.
use team_index.Base.{
  ℕ, zero, suc, ◌+◌, ◌≡◌, refl, none, some, true, [], ◌++◌, Text, codes, to_lower, text_eq,
  includes, Result, ok, throw,
}
use team_index.Limitless.Amounts.{
  plus, buy, quote_limitless_order_amounts, quote_limitless_fok_amounts,
}
use team_index.Limitless.Config.{
  TradingEnv, assert_limitless_trading_config, get_limitless_order_signer_private_key,
}
use team_index.Limitless.OrderResult.{
  OrderResult, is_rejected_status, is_accepted_status, is_accepted_order_result,
  get_limitless_order_id, get_order_reject_message,
}
use team_index.Limitless.Posting.Messages.{
  is_eth_address, extract_expected_exchange_address, is_invalid_signature_error,
}
use team_index.Limitless.Posting.Retries.{Orders}
use team_index.Limitless.Posting.{
  Api, PostEnv, PostParams, yes_outcome, post_limitless_order, prepare, wallet_post,
}
use team_index.Limitless.Posting.Once.{traced_api, Ordered, post_limitless_order-Ordered}

-- 1.5 shares at 0.333333: the exact cost is 0.4999995.
quote_run :
    quote_limitless_order_amounts (plus 333_333_000_000) 1_500_000_000_000 buy
    ≡ (333_333_000_000, record { maker_amount = 500_000; taker_amount = 1_500_000 })
unfolding quote_limitless_order_amounts
quote_run = refl

abbrev keys : TradingEnv
keys = record {
  limitless_api_key = some (codes "k");
  limitless_api_secret = some (codes "s");
  limitless_order_signer_private_key = some [];
  limitless_trader_private_key = some (codes "0x1");
}

abbrev blank : OrderResult
blank = record {
  order_id = none;
  order_id_upper = none;
  id = none;
  nested_order_id = none;
  nested_order_id_upper = none;
  nested_id = none;
  success = none;
  status = none;
  order_status = none;
  execution_status = none;
  settlement_status = none;
  error_msg = none;
  error = none;
  message = none;
  totals = none;
  maker_matches = [];
}

abbrev unmatched : OrderResult
unmatched = record blank {
  order_id = some (codes "o1");
  status = some (codes "live");
  settlement_status = some (codes "UNMATCHED");
}

abbrev matched : OrderResult
matched = record blank { order_id = some (codes "o1"); settlement_status = some (codes "MATCHED") }

-- An id that is empty hides the ids after it.
result_runs :
    (get_limitless_order_id (some matched) ≡ some (codes "o1"))
    × (get_limitless_order_id (some (record blank { order_id = some []; id = some (codes "o2") }))
        ≡ none)
    × (get_order_reject_message (some unmatched) ≡ codes "Order rejected (live)")
unfolding get_limitless_order_id get_order_reject_message
result_runs = (refl, refl, refl)

matched_accepted : is_accepted_order_result (some matched) ≡ true
unfolding is_accepted_order_result is_rejected_status is_accepted_status text_eq to_lower
matched_accepted = refl

abbrev exchange_a : Text
exchange_a = codes "0x00000000000000000000000000000000000000aa"

abbrev exchange_b : Text
exchange_b = codes "0x00000000000000000000000000000000000000BB"

message_runs :
    (extract_expected_exchange_address
        (codes "Bad: exchange ADDRESS for this market: " ++ exchange_b)
      ≡ some exchange_b)
    × (extract_expected_exchange_address (codes "Exchange address for this market: 0x12") ≡ none)
    × (is_invalid_signature_error (codes "INVALID SIGNATURE") ≡ true)
    × (is_eth_address exchange_a ≡ true)
unfolding extract_expected_exchange_address is_invalid_signature_error is_eth_address includes
    to_lower
message_runs = (refl, refl, refl, refl)

-- An API that names another exchange first, then refuses the signature, then takes the order.
abbrev replies : ℕ → Result Text OrderResult
replies zero = throw (codes "Exchange address for this market: " ++ exchange_b)
replies (suc zero) = throw (codes "Invalid signature")
replies _ = ok matched

abbrev orders : Orders ℕ
orders = record { post_json = λ r w. (replies w, w + 1) }

abbrev api : Api ℕ
api = record {
  orders = orders;
  get_market_by_slug = λ slug w.
      (ok (some (record { exchange = some exchange_a; tokens = some (codes "1", codes "2") })), w);
  get_profile_me = λ w. (throw (codes "404"), w);
  get_profile = λ w. (ok (record { id = none; profile_id = some 7 }), w);
  wallet_address = λ key. exchange_a;
}

abbrev settings : PostEnv
settings = record { trading = keys; fee_rate_bps = none; signature_type = none }

abbrev bet : PostParams
bet = record {
  market_slug = codes "m";
  outcome = yes_outcome;
  price = plus 0;
  size = 2_000_000_000_000;
  side = buy;
  order_type = none;
  maker_address = some exchange_b;
  signing_mode = none;
  owner_id = none;
  on_behalf_of = none;
  signature_type = none;
  fee_rate_bps = none;
}

-- Two failures and a success: three posts, and the order is placed.
bet_run : (post_limitless_order api settings bet 0 ≡ (ok matched, 3))
unfolding post_limitless_order prepare wallet_post assert_limitless_trading_config
    get_limitless_order_signer_private_key quote_limitless_fok_amounts
    extract_expected_exchange_address is_invalid_signature_error includes text_eq to_lower
bet_run = refl

post_limitless_order-Ordered_example :
    Ordered
      (post_limitless_order (traced_api api) settings bet ([], 0)).0
      (post_limitless_order (traced_api api) settings bet ([], 0)).1.0
post_limitless_order-Ordered_example = post_limitless_order-Ordered api settings bet 0
