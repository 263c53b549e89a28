-- ===== src/Services/PriceEngine.antt =====
-- src/services/priceEngine.ts: the value of a pool, the price of its share, and the value that is written
-- to the vault. Money is in base units of USDC, shares in the vault's base units: a millionth each.
pub mod Pushes
pub mod Basis
mod Tests
use team_index.Base.{
  ℕ, zero, suc, ◌+◌, ◌-◌, ◌≡◌, List, [], ◌∷◌, Bool, true, false, ◌&&◌, ◌||◌, not, Option, none,
  some, Result, ok, throw, ◌==◌, leb, ltb, if◌then◌else◌, Text, codes, text_eq, ℤ, pos, ◌+ℤ◌, eqb_ℤ,
}
use team_index.Onchain.RpcError.{ErrorValue, is_rpc_rate_limit_error}
use team_index.Onchain.Failover.{Node, BaseRpcError, with_base_rpc_retry}

-- The price is `total / supply`, in USD per share; 0 where there are no shares.
pub data Price : Type 0 where
  no_price : Price
  quotient : ℤ → ℕ → Price

pub record Pool : Type 0 where
  pub cash : ℕ
  pub realized_pnl : ℤ
  pub total_token_supply : ℕ
  pub open_positions_value : ℕ
  pub total_pool_value : ℤ
  pub official_token_price : Price

pub record PoolValuation : Type 0 where
  pub vault_cash : ℕ
  pub server_wallet_cash : ℕ
  pub open_positions_value : ℕ
  pub realized_pnl : ℤ
  pub total_token_supply_raw : ℕ
  pub cash : ℕ
  pub synthetic_onchain_positions_value : ℕ
  pub total_pool_value : ℤ
  pub official_token_price : Price

abbrev price_of : ℤ → ℕ → Price
price_of total zero = no_price
price_of total (suc supply) = quotient total (suc supply)

unfoldable pub calculate_pool_valuation : ℕ → ℕ → ℕ → ℤ → ℕ → PoolValuation
calculate_pool_valuation vault_cash server_wallet_cash open_positions_value realized_pnl supply =
    let total = pos (vault_cash + server_wallet_cash + open_positions_value) +ℤ realized_pnl in
    record {
      vault_cash = vault_cash;
      server_wallet_cash = server_wallet_cash;
      open_positions_value = open_positions_value;
      realized_pnl = realized_pnl;
      total_token_supply_raw = supply;
      cash = vault_cash + server_wallet_cash;
      synthetic_onchain_positions_value = server_wallet_cash + open_positions_value;
      total_pool_value = total;
      official_token_price = price_of total supply;
    }

-- A row of club_pool_price_snapshots
pub record PriceSnapshot : Type 0 where
  pub pool_id : Text
  pub cash : ℕ
  pub positions_value : ℕ
  pub realized_pnl : ℤ
  pub total_pool_value : ℤ
  pub official_token_price : Price

-- The tables: pools, the values of their open positions, the addresses of their accounts, the snapshots,
-- and those with their source
pub record PriceDb : Type 0 where
  pub pools : Text → Option Pool
  pub positions : Text → List ℕ
  pub accounts : Text → Option Text
  pub price_snapshots : List PriceSnapshot
  pub valuation_snapshots : List (Text × PriceSnapshot)

-- The value that the vault keeps beside its own cash
pub record Nav : Type 0 where
  pub positions : ℕ
  pub pnl : ℤ

abbrev pub nav_eq : Nav → Nav → Bool
nav_eq a b = a.positions == b.positions && eqb_ℤ a.pnl b.pnl

-- lastOnchainNavPushAt and lastOnchainNavValue
pub record Memory : Type 0 where
  pub last_push_at : Text → Option ℕ
  pub last_value : Text → Option Nav

pub record PriceEnv : Type 0 where
  pub usdc_address : Option Text
  pub push_enabled : Bool
  pub executor_key : Bool
  pub push_interval_ms : ℕ
  pub base_rpc_url : Option Text
  pub base_rpc_fallback_urls : Option Text
  pub retry_base_ms : ℕ

-- The chain, the clock, the timer and the random source. The reads have their retries, and `none` is one that
-- failed. `set_pool_valuation` sends a transaction through the RPC of a URL and returns its hash, `wait` is
-- tx.wait(); both may throw.
pub record Chain (W : Type 0) : Type 0 where
  pub total_cash : Text → W → Option ℕ × W
  pub erc20_balance : Text → Text → W → Option ℕ × W
  pub set_pool_valuation : Text → Text → Nav → W → Result ErrorValue Text × W
  pub wait : Text → Text → W → Result ErrorValue Bool × W
  pub sleep : ℕ → W → W
  pub random_below : ℕ → W → ℕ × W
  pub now : W → ℕ × W

abbrev set_text : {A : Type 0} → Text → A → (Text → Option A) → Text → Option A
set_text k a f j = if text_eq k j then some a else f j

abbrev pub sum_of : List ℕ → ℕ
sum_of [] = 0
sum_of (x ∷ xs) = x + sum_of xs

pub record CashBreakdown : Type 0 where
  pub vault_cash : ℕ
  pub server_wallet_cash : ℕ
  pub read_vault_cash : Bool

abbrev or_zero : Option ℕ → ℕ
or_zero none = 0
or_zero (some x) = x

abbrev valued : PoolValuation → Pool → Pool
valued v pool = record pool {
  cash = v.cash;
  open_positions_value = v.open_positions_value;
  total_pool_value = v.total_pool_value;
  official_token_price = v.official_token_price;
}

abbrev snapshot_of : Text → PoolValuation → PriceSnapshot
snapshot_of id v = record {
  pool_id = id;
  cash = v.cash;
  positions_value = v.open_positions_value;
  realized_pnl = v.realized_pnl;
  total_pool_value = v.total_pool_value;
  official_token_price = v.official_token_price;
}

abbrev with_source :
    Option Text → PriceSnapshot → List (Text × PriceSnapshot) → List (Text × PriceSnapshot)
with_source none s rows = rows
with_source (some source) s rows = (source, s) ∷ rows

abbrev pub stored : Text → Option Text → Pool → PoolValuation → PriceDb → PriceDb
stored id source pool v db = record db {
  pools = set_text id (valued v pool) db.pools;
  price_snapshots = snapshot_of id v ∷ db.price_snapshots;
  valuation_snapshots = with_source source (snapshot_of id v) db.valuation_snapshots;
}

abbrev pub nav_of : PoolValuation → Nav
nav_of v = record { positions = v.synthetic_onchain_positions_value; pnl = v.realized_pnl }

abbrev pub changed_nav : Option Nav → Nav → Bool
changed_nav none nav = true
changed_nav (some last) nav = not (nav_eq last nav)

abbrev pub is_due : Option ℕ → ℕ → ℕ → Bool
is_due last now interval = leb interval (now - or_zero last)

module _ {W : Type 0} (chain : Chain W) (env : PriceEnv) where
  abbrev pub server_cash : Option Text → Option Text → W → ℕ × W
  server_cash (some usdc) (some (c ∷ account)) w =
      let (r, w') = chain.erc20_balance usdc (c ∷ account) w in (or_zero r, w')
  server_cash _ _ w = (0, w)

  abbrev pub with_cash : Text → PriceDb → ℕ → Option ℕ → W → CashBreakdown × W
  with_cash id db db_cash none w =
      (record { vault_cash = db_cash; server_wallet_cash = 0; read_vault_cash = false }, w)
  with_cash id db db_cash (some cash) w =
      let (server, w') = server_cash env.usdc_address (db.accounts id) w in
      (record { vault_cash = cash; server_wallet_cash = server; read_vault_cash = true }, w')

  unfoldable pub read_pool_cash_breakdown : Text → PriceDb → ℕ → W → CashBreakdown × W
  read_pool_cash_breakdown id db db_cash w =
      let (r, w') = chain.total_cash id w in with_cash id db db_cash r w'

  -- A rate limit while waiting is taken for a confirmation.
  abbrev pub waited : Result ErrorValue Bool → W → Result ErrorValue Bool × W
  waited (ok b) w = (ok true, w)
  waited (throw e) w = if is_rpc_rate_limit_error e then (ok true, w) else (throw e, w)

  abbrev pub confirmed : Text → Result ErrorValue Text → W → Result ErrorValue Bool × W
  confirmed url (throw e) w = (throw e, w)
  confirmed url (ok hash) w = let (c, w') = chain.wait url hash w in waited c w'

  -- What is tried on one URL after the other
  abbrev pub push_node : Text → Nav → Node W Bool
  push_node id nav = record {
    operation = λ url w. let (r, w') = chain.set_pool_valuation url id nav w in confirmed url r w';
    sleep = chain.sleep;
    random_below = chain.random_below;
  }

  abbrev pub send : Text → Nav → W → Result BaseRpcError Bool × W
  send id nav w =
      with_base_rpc_retry (push_node id nav) 1 env.retry_base_ms env.base_rpc_url
        env.base_rpc_fallback_urls w

  -- After a push: the memory keeps it, unless it failed.
  abbrev pub remembered : Text → Nav → Memory → Result BaseRpcError Bool × W → Memory × W
  remembered id nav memory (throw e, w) = (memory, w)
  remembered id nav memory (ok b, w) =
      let (t, w') = chain.now w in
      (
        record {
          last_push_at = set_text id t memory.last_push_at;
          last_value = set_text id nav memory.last_value;
        },
        w',
      )

  -- setPoolValuation, when all conditions for it hold
  abbrev pub push_if : Bool → Text → Nav → Memory → W → Memory × W
  push_if false id nav memory w = (memory, w)
  push_if true id nav memory w = remembered id nav memory (send id nav w)

  unfoldable pub push : Text → Nav → Bool → Memory → W → Memory × W
  push id nav read_vault_cash memory w =
      let (time, w') = chain.now w in
      push_if
        (read_vault_cash
          && (env.push_enabled
              && (env.executor_key
                  && (is_due (memory.last_push_at id) time env.push_interval_ms
                      && changed_nav (memory.last_value id) nav))))
        id nav memory w'

  abbrev pub valuation_of : Pool → Text → PriceDb → CashBreakdown → PoolValuation
  valuation_of pool id db c =
      calculate_pool_valuation c.vault_cash c.server_wallet_cash (sum_of (db.positions id))
        pool.realized_pnl pool.total_token_supply

  abbrev pub with_breakdown :
      Text
      → Option Text
      → Pool
      → PriceDb
      → Memory
      → CashBreakdown × W
      → Result Text PoolValuation × (PriceDb × Memory × W)
  with_breakdown id source pool db memory (c, w) =
      let v = valuation_of pool id db c in
      let (memory', w') = push id (nav_of v) c.read_vault_cash memory w in
      (ok v, (stored id source pool v db, memory', w'))

  abbrev pub of_pool :
      Text
      → Option Text
      → Option Pool
      → PriceDb
      → Memory
      → W
      → Result Text PoolValuation × (PriceDb × Memory × W)
  of_pool id source none db memory w = (throw (codes "Pool not found"), (db, memory, w))
  of_pool id source (some pool) db memory w =
      with_breakdown id source pool db memory (read_pool_cash_breakdown id db pool.cash w)

  unfoldable pub recalculate_official_price_for_pool :
      Text → Option Text → PriceDb → Memory → W → Result Text PoolValuation × (PriceDb × Memory × W)
  unfolding push read_pool_cash_breakdown calculate_pool_valuation
  recalculate_official_price_for_pool id source db memory w =
      of_pool id source (db.pools id) db memory w

  abbrev pub and_then :
      Result Text PoolValuation × (PriceDb × Memory × W)
      → (PriceDb → Memory → W → Result Text Bool × (PriceDb × Memory × W))
      → Result Text Bool × (PriceDb × Memory × W)
  and_then (throw e, s) next = (throw e, s)
  and_then (ok v, (db, memory, w)) next = next db memory w

  -- The loop over the active pools; an error ends it.
  unfoldable pub recalculate_official_prices :
      List Text → PriceDb → Memory → W → Result Text Bool × (PriceDb × Memory × W)
  unfolding recalculate_official_price_for_pool
  recalculate_official_prices [] db memory w = (ok true, (db, memory, w))
  recalculate_official_prices (id ∷ ids) db memory w =
      and_then (recalculate_official_price_for_pool id none db memory w)
        (λ db' memory' w'. recalculate_official_prices ids db' memory' w')
