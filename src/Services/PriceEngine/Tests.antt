-- ===== src/Services/PriceEngine/Tests.antt =====
-- Runs of the price engine.
use team_index.Base.{
  ℕ, ◌+◌, ◌≡◌, refl, List, [], ◌∷◌, true, none, some, ok, throw, Text, codes, text_eq,
  if◌then◌else◌, pos, negsuc, length, includes, to_lower,
}
use team_index.Onchain.RpcError.{scalar, is_rpc_rate_limit_error}
use team_index.Onchain.Failover.{with_base_rpc_retry, split_rpc_urls, url_loop}
use team_index.Services.PriceEngine.{
  Pool, no_price, PriceDb, Memory, Chain, PriceEnv, recalculate_official_prices,
}
use team_index.Services.PriceEngine.Pushes.{Push, traced, Tracked, prices-Tracked}

abbrev pool : Pool
pool = record {
  cash = 900;
  realized_pnl = negsuc 29;
  total_token_supply = 500;
  open_positions_value = 0;
  total_pool_value = pos 900;
  official_token_price = no_price;
}

abbrev id : Text
id = codes "p1"

abbrev db : PriceDb
db = record {
  pools = λ j. if text_eq j id then some pool else none;
  positions = λ j. 40 ∷ 10 ∷ [];
  accounts = λ j. some (codes "0xserver");
  price_snapshots = [];
  valuation_snapshots = [];
}

-- The state is the clock, which each reading advances by an hour.
abbrev chain : Chain ℕ
chain = record {
  total_cash = λ j w. (some 1000, w);
  erc20_balance = λ usdc a w. (some 200, w);
  set_pool_valuation = λ url j nav w. (ok (codes "0x1"), w);
  wait = λ url hash w. (ok true, w);
  sleep = λ ms w. w;
  random_below = λ n w. (0, w);
  now = λ w. (w, w + 3600000);
}

abbrev env : PriceEnv
env = record {
  usdc_address = some (codes "0xusdc");
  push_enabled = true;
  executor_key = true;
  push_interval_ms = 3600000;
  base_rpc_url = none;
  base_rpc_fallback_urls = none;
  retry_base_ms = 250;
}

abbrev fresh : Memory
fresh = record { last_push_at = λ j. none; last_value = λ j. none }

-- The second run of the same pool sends nothing, as its value is the same.
abbrev start : ℕ × List Push
start = (7200000, [])

sent_once :
    length (recalculate_official_prices (traced chain) env (id ∷ id ∷ []) db fresh start).1.2.1 ≡ 1
unfolding recalculate_official_prices text_eq with_base_rpc_retry split_rpc_urls url_loop
sent_once = refl

-- The wait fails on the one URL, so the second run sends the same value again.
abbrev timing_out : Chain ℕ
timing_out = record chain { wait = λ url hash w. (throw (scalar (codes "timeout")), w) }

sent_twice :
    length (recalculate_official_prices (traced timing_out) env (id ∷ id ∷ []) db fresh start).1.2.1
    ≡ 2
unfolding recalculate_official_prices text_eq with_base_rpc_retry split_rpc_urls url_loop
    is_rpc_rate_limit_error includes to_lower
sent_twice = refl

fresh-Tracked : Tracked fresh []
fresh-Tracked = (λ j. refl, tt)

prices-Tracked_example :
    let out = recalculate_official_prices (traced chain) env (id ∷ id ∷ []) db fresh start in
    Tracked out.1.1 out.1.2.1
prices-Tracked_example = prices-Tracked chain env (id ∷ id ∷ []) db fresh start fresh-Tracked
