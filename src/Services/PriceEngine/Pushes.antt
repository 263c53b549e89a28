-- ===== src/Services/PriceEngine/Pushes.antt =====
-- src/services/priceEngine.ts: the values that are written to the vaults, in any run.
use team_index.Base.{
  ℕ, ◌≡◌, refl, sym, ap, ◌∙◌, Bool-cases, inl, inr, List, [], ◌∷◌, Bool, true, false, ◌&&◌, Option,
  none, some, Result, ok, throw, arith, Text, text_eq, if◌then◌else◌,
}
use team_index.Onchain.RpcError.{ErrorValue, is_rpc_rate_limit_error}
use team_index.Onchain.Failover.{BaseRpcError}
use team_index.Onchain.Failover.Kept.{Fits, with_base_rpc_retry-Fits}
use team_index.Services.PriceEngine.{
  Pool, PoolValuation, PriceDb, Nav, Memory, PriceEnv, Chain, waited, confirmed, push_node, send,
  with_cash, server_cash, nav_of, changed_nav, is_due, remembered, push_if, push, valuation_of,
  of_pool, recalculate_official_price_for_pool, and_then, recalculate_official_prices,
  read_pool_cash_breakdown,
}

-- A transaction that was sent; it is settled when its wait ended well or was rate limited.
pub record Push : Type 0 where
  pub pool : Text
  pub nav : Nav
  pub is_settled : Bool

abbrev pub push_of : Text → Nav → Bool → Push
push_of id nav settled = record { pool = id; nav = nav; is_settled = settled }

abbrev logged : Result ErrorValue Text → Text → Nav → List Push → List Push
logged (throw e) id nav log = log
logged (ok hash) id nav log = push_of id nav false ∷ log

abbrev settle_last : List Push → List Push
settle_last [] = []
settle_last (p ∷ ps) = record p { is_settled = true } ∷ ps

abbrev marked_by : Result ErrorValue Bool → List Push → List Push
marked_by (ok b) log = settle_last log
marked_by (throw e) log = if is_rpc_rate_limit_error e then settle_last log else log

-- The chain that also keeps what was sent, the last one first
abbrev pub traced : {W : Type 0} → Chain W → Chain (W × List Push)
traced c = record {
  total_cash = λ id s. let (r, w) = c.total_cash id s.0 in (r, (w, s.1));
  erc20_balance = λ usdc a s. let (r, w) = c.erc20_balance usdc a s.0 in (r, (w, s.1));
  set_pool_valuation = λ url id nav s.
      let (r, w) = c.set_pool_valuation url id nav s.0 in (r, (w, logged r id nav s.1));
  wait = λ url hash s. let (r, w) = c.wait url hash s.0 in (r, (w, marked_by r s.1));
  sleep = λ ms s. (c.sleep ms s.0, s.1);
  random_below = λ n s. let (k, w) = c.random_below n s.0 in (k, (w, s.1));
  now = λ s. let (t, w) = c.now s.0 in (t, (w, s.1));
}

-- The last settled value of a vault
abbrev pub latest : Text → List Push → Option Nav
latest id [] = none
latest id (p ∷ ps) =
    let rest = latest id ps in if p.is_settled && text_eq p.pool id then some p.nav else rest

-- Each value that was sent differs from the last settled value of its vault before.
abbrev pub Changing : List Push → Type 0
Changing [] = Unit {0}
Changing (p ∷ ps) = (changed_nav (latest p.pool ps) p.nav ≡ true) × Changing ps

-- The memory has the last settled value of each vault, and each value that was sent was a change of it.
abbrev pub Tracked : Memory → List Push → Type 0
Tracked memory log = ((id : Text) → memory.last_value id ≡ latest id log) × Changing log

-- Only this value was sent to the vault, and no transaction of it was settled.
pub data Tried (id : Text) (nav : Nav) (log : List Push) : List Push → Type 0 where
  not_sent : Tried id nav log log
  sent_again : {ps : List Push} → Tried id nav log ps → Tried id nav log (push_of id nav false ∷ ps)

-- After that, one transaction was settled.
abbrev pub Confirmed : Text → Nav → List Push → List Push → Type 0
Confirmed id nav log log' =
    (ps : List Push) × Tried id nav log ps × (log' ≡ push_of id nav true ∷ ps)

Tried-latest :
    (id j : Text) (nav : Nav) (log ps : List Push)
    → Tried id nav log ps
    → latest j ps ≡ latest j log
Tried-latest id j nav log _ not_sent = refl
Tried-latest id j nav log _ (sent_again {ps} h) = Tried-latest id j nav log ps h

Tried-Changing :
    (id : Text) (nav : Nav) (log ps : List Push)
    → changed_nav (latest id log) nav ≡ true
    → Changing log
    → Tried id nav log ps
    → Changing ps
Tried-Changing id nav log _ c k not_sent = k
Tried-Changing id nav log _ c k (sent_again {ps} h) = (
  ap (λ o. changed_nav o nav) (Tried-latest id id nav log ps h) ∙ c,
  Tried-Changing id nav log ps c k h,
)

module _ {W : Type 0} (chain : Chain W) (env : PriceEnv) where
  module _ (id : Text) (nav : Nav) (log : List Push) where
    abbrev Open : W × List Push → Type 0
    Open s = Tried id nav log s.1

    abbrev Done : Bool → W × List Push → Type 0
    Done b s = Confirmed id nav log s.1

    waited-Fits :
        (c : Result ErrorValue Bool) (w : W) (ps : List Push)
        → Tried id nav log ps
        → Fits Done Open (waited (traced chain) env c (w, marked_by c (push_of id nav false ∷ ps)))
    waited-Fits (ok b) w ps h = (ps, h, refl)
    waited-Fits (throw e) w ps h = elim (Bool-cases (is_rpc_rate_limit_error e)) [
      | inl limited ↦ rw limited (ps, h, refl)
      | inr other ↦ rw other (sent_again h)
    ]

    confirmed-Fits :
        (url : Text) (r : Result ErrorValue Text) (w : W) (ps : List Push)
        → Tried id nav log ps
        → Fits Done Open (confirmed (traced chain) env url r (w, logged r id nav ps))
    confirmed-Fits url (throw e) w ps h = h
    confirmed-Fits url (ok hash) w ps h =
        let (c, w') = chain.wait url hash w in waited-Fits c w' ps h

    pub send-Fits : (w : W) → Fits Done Open (send (traced chain) env id nav (w, log))
    send-Fits w =
        with_base_rpc_retry-Fits (push_node (traced chain) env id nav) 1 env.retry_base_ms Done Open
          (λ url s h.
            let (r, w') = chain.set_pool_valuation url id nav s.0 in confirmed-Fits url r w' s.1 h)
          (λ ms s h. h) (λ n s h. h) env.base_rpc_url env.base_rpc_fallback_urls (w, log) not_sent

  sent-Tracked :
      (id : Text) (nav : Nav) (memory : Memory) (log : List Push) (r : Result BaseRpcError Bool)
      (s : W × List Push)
      → changed_nav (memory.last_value id) nav ≡ true
      → Tracked memory log
      → Fits (Done id nav log) (Open id nav log) (r, s)
      → let out = remembered (traced chain) env id nav memory (r, s) in Tracked out.0 out.1.1
  sent-Tracked id nav memory log (throw e) s c (k, h) tried = (
    λ j. k j ∙ sym (Tried-latest id j nav log s.1 tried),
    Tried-Changing id nav log s.1 (rw (k id) at c) h tried,
  )
  sent-Tracked id nav memory log (ok b) s c (k, h) (ps, tried, same) =
      let change : changed_nav (latest id log) nav ≡ true = rw (k id) at c in
      let before : changed_nav (latest id ps) nav ≡ true =
        ap (λ o. changed_nav o nav) (Tried-latest id id nav log ps tried) ∙ change in
      rw same (
        λ j. rw (k j, Tried-latest id j nav log ps tried) refl,
        (before, Tried-Changing id nav log ps change h tried),
      )

  push_if-Tracked :
      (b : Bool) (id : Text) (nav : Nav) (memory : Memory) (s : W × List Push)
      → (b ≡ true → changed_nav (memory.last_value id) nav ≡ true)
      → Tracked memory s.1
      → let out = push_if (traced chain) env b id nav memory s in Tracked out.0 out.1.1
  push_if-Tracked false id nav memory s c k = k
  push_if-Tracked true id nav memory s c k =
      let (r, out) = send (traced chain) env id nav s in
      sent-Tracked id nav memory s.1 r out (c refl) k (send-Fits id nav s.1 s.0)

  push-Tracked :
      (id : Text) (nav : Nav) (read : Bool) (memory : Memory) (s : W × List Push)
      → Tracked memory s.1
      → let out = push (traced chain) env id nav read memory s in Tracked out.0 out.1.1
  unfolding push
  push-Tracked id nav read memory s k =
      push_if-Tracked
        (read
          && (env.push_enabled
              && (env.executor_key
                  && (is_due (memory.last_push_at id) (chain.now s.0).0 env.push_interval_ms
                      && changed_nav (memory.last_value id) nav))))
        id nav memory ((chain.now s.0).1, s.1) (λ e. ground arith) k

  -- The reads of cash send nothing.
  read_cash-log :
      (id : Text) (db : PriceDb) (db_cash : ℕ) (r : Option ℕ) (w : W) (log : List Push)
      → (with_cash (traced chain) env id db db_cash r (w, log)).1.1 ≡ log
  read_cash-log id db db_cash none w log = refl
  read_cash-log id db db_cash (some cash) w log = account env.usdc_address (db.accounts id)
    where
      account :
          (usdc account : Option Text)
          → (server_cash (traced chain) env usdc account (w, log)).1.1 ≡ log
      account none a = refl
      account (some u) none = refl
      account (some u) (some []) = refl
      account (some u) (some (c ∷ a)) = refl

  pub breakdown-log :
      (id : Text) (db : PriceDb) (db_cash : ℕ) (s : W × List Push)
      → (read_pool_cash_breakdown (traced chain) env id db db_cash s).1.1 ≡ s.1
  unfolding read_pool_cash_breakdown
  breakdown-log id db db_cash s =
      read_cash-log id db db_cash (chain.total_cash id s.0).0 (chain.total_cash id s.0).1 s.1

  of_pool-Tracked :
      (id : Text) (source : Option Text) (pool : Option Pool) (db : PriceDb) (memory : Memory)
      (s : W × List Push)
      → Tracked memory s.1
      → let out = of_pool (traced chain) env id source pool db memory s in Tracked out.1.1 out.1.2.1
  of_pool-Tracked id source none db memory s k = k
  of_pool-Tracked id source (some pool) db memory s k =
      let b = read_pool_cash_breakdown (traced chain) env id db pool.cash s in
      push-Tracked id (nav_of (valuation_of (traced chain) env pool id db b.0)) b.0.read_vault_cash
        memory b.1 (rw (breakdown-log id db pool.cash s) k)

  and_then-Tracked :
      (out : Result Text PoolValuation × (PriceDb × Memory × (W × List Push)))
      (next : PriceDb
        → Memory
        → W × List Push
        → Result Text Bool × (PriceDb × Memory × (W × List Push)))
      → Tracked out.1.1 out.1.2.1
      → ((db : PriceDb) (memory : Memory) (s : W × List Push)
          → Tracked memory s.1
          → Tracked (next db memory s).1.1 (next db memory s).1.2.1)
      → let all = and_then (traced chain) env out next in Tracked all.1.1 all.1.2.1
  and_then-Tracked (throw e, (db, memory, s)) next k h = k
  and_then-Tracked (ok v, (db, memory, s)) next k h = h db memory s k

  -- In any run over any pools, whatever the reads, the sends, the waits and the clock answer: where the memory
  -- has the last settled value of each vault, and each value that was sent to a vault was a change of the one
  -- settled before, that is so after the run too. So where a value is sent to a vault twice in a row, the first
  -- transaction was not settled: the wait for it failed with an error that is no rate limit. A transaction is
  -- settled when the wait for it ends well or is rate limited; a send that throws counts as none.
  pub prices-Tracked :
      (ids : List Text) (db : PriceDb) (memory : Memory) (s : W × List Push)
      → Tracked memory s.1
      → let out = recalculate_official_prices (traced chain) env ids db memory s in
        Tracked out.1.1 out.1.2.1
  unfolding recalculate_official_prices recalculate_official_price_for_pool
  prices-Tracked [] db memory s k = k
  prices-Tracked (id ∷ ids) db memory s k =
      and_then-Tracked (recalculate_official_price_for_pool (traced chain) env id none db memory s)
        (λ db' memory' s'. recalculate_official_prices (traced chain) env ids db' memory' s')
        (of_pool-Tracked id none (db.pools id) db memory s k)
        (λ db' memory' s' k'. prices-Tracked ids db' memory' s' k')
