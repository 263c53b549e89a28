-- ===== src/Limitless/Executor/Trade.antt =====
-- src/limitless/limitlessExecutor.ts: the body of the `try`, from the deadline to the order's answer.
use team_index.Base.{
  ℕ, zero, suc, ◌+◌, ◌-◌, ◌*◌, [], ◌∷◌, Bool, true, false, Option, none, some, Result, ok, throw,
  leb, ◌==◌, if◌then◌else◌, Text, codes,
}
use team_index.Limitless.Amounts.{plus, buy, OrderAmounts, AmountError, quote_limitless_fok_amounts}
use team_index.Limitless.TokenId.{decode_limitless_token_id}
use team_index.Limitless.OrderResult.{OrderResult, get_limitless_order_id, is_accepted_order_result}
use team_index.Limitless.OrderResult.Fill.{extract_limitless_fill}
use team_index.Limitless.Posting.{Outcome, PostParams, PostError, server_wallet}
use team_index.Limitless.Posting.Retries.{fok}
use team_index.Limitless.Executor.Calls.{
  missed_window, missing_vault_address, missing_token_id, invalid_server_wallet_profile,
  missing_limitless_exchange, order_rejected, Stop, skip, refuse, raise, Exchange, Exec, pure, stop,
  call, ◌>>=◌,
}
use team_index.Limitless.Executor.Wallet.{ServerWallet, ensure_pool_limitless_server_wallet}
use team_index.Limitless.Executor.Checks.{outcome_of, Sized, checked}
use team_index.Limitless.Executor.Rows.{TradePool, TradeCandidate, TradeEnv, Placed}

abbrev pub or_empty : Text → Option Text → Text
or_empty fallback none = fallback
or_empty fallback (some t) = t

module _ {W : Type 0} (ex : Exchange W) (env : TradeEnv) where
  abbrev pub time_ok : Bool → Exec W Bool
  time_ok true = pure true
  time_ok false = stop (skip missed_window)

  -- No time at all is no deadline.
  abbrev pub window_open : ℕ → Exec W Bool
  window_open zero = pure true
  window_open (suc expected) = call (λ w. let (t, w') = ex.now w in (ok t, w')) >>= λ t.
      time_ok (leb t (suc expected + env.grace_minutes * 60 * 1000))

  abbrev pub exchange_of : Option Text → Exec W Text
  exchange_of (some (c ∷ s)) = pure (c ∷ s)
  exchange_of _ = stop (refuse missing_limitless_exchange)

  abbrev pub owner_checked : ServerWallet → Exec W ServerWallet
  owner_checked wallet =
      if wallet.owner_id == 0 then stop (refuse invalid_server_wallet_profile) else pure wallet

  abbrev pub amounts_of : Result AmountError OrderAmounts → Exec W OrderAmounts
  amounts_of (ok a) = pure a
  amounts_of (throw e) = stop (raise (codes "Invalid makerAmount"))

  -- fundTradingWalletFromVault: nothing is sent for nothing.
  abbrev pub funded : Text → Text → ℕ → Exec W Bool
  funded vault wallet zero = pure false
  funded vault wallet (suc amount) = call (ex.fund_trading_wallet vault wallet (suc amount))

  abbrev pub allowed : ℕ → Exec W Bool
  allowed owner_id a w = (ok true, (a, ex.ensure_allowances owner_id w))

  -- The wallet, with the stake on it
  unfoldable pub fund_wallet : Text → Text → ℕ → Exec W ServerWallet
  unfolding ◌>>=◌ ensure_pool_limitless_server_wallet
  fund_wallet vault market_slug stake = ensure_pool_limitless_server_wallet ex vault >>= λ wallet.
      owner_checked wallet >>= λ checked_wallet.
      call (ex.get_market_by_slug market_slug) >>= λ detail.
      exchange_of detail.exchange >>= λ venue.
      amounts_of (quote_limitless_fok_amounts (plus stake)) >>= λ quote.
      call (
        ex.erc20_balance (or_empty env.base_usdc_address detail.collateral_token)
          wallet.wallet_address)
      >>= λ balance. funded vault wallet.wallet_address (quote.maker_amount - balance) >>= λ done.
          allowed wallet.owner_id >>= λ also. pure wallet

  abbrev pub order_params : Text → Outcome → Sized → ServerWallet → PostParams
  order_params market_slug outcome s wallet = record {
    market_slug = market_slug;
    outcome = outcome;
    price = plus s.best_ask;
    size = s.stake_usd;
    side = buy;
    order_type = some fok;
    maker_address = some wallet.wallet_address;
    signing_mode = some server_wallet;
    owner_id = none;
    on_behalf_of = some wallet.owner_id;
    signature_type = none;
    fee_rate_bps = none;
  }

  abbrev pub accepted_if : Bool → Text → Sized → OrderResult → Exec W Placed
  accepted_if false market_slug s r = stop (refuse (order_rejected r))
  accepted_if true market_slug s r = pure (record {
    market_slug = market_slug;
    sized = s;
    fill = extract_limitless_fill r;
    clob_order_id = get_limitless_order_id (some r);
  })

  abbrev pub answered : Text → Sized → Result PostError OrderResult → Exec W Placed
  answered market_slug s (throw e) = stop (raise (codes "Order posting failed: "))
  answered market_slug s (ok r) = accepted_if (is_accepted_order_result (some r)) market_slug s r

  -- The one post of the trade
  unfoldable pub place_order : Text → Outcome → Sized → ServerWallet → Exec W Placed
  place_order market_slug outcome s wallet a w =
      let (r, w') = ex.post (order_params market_slug outcome s wallet) w in
      answered market_slug s r a w'

  abbrev pub checked_book : Result Stop Sized → Exec W Sized
  checked_book (ok s) = pure s
  checked_book (throw e) = stop e

  -- With a market and a side
  unfoldable pub trade : TradePool → ℕ → Text × ℕ → Exec W Placed
  unfolding ◌>>=◌ fund_wallet place_order checked
  trade pool exposure (market_slug, outcome_index) =
      call (ex.get_order_book market_slug) >>= λ book.
      checked_book (checked pool.total_pool_value exposure pool.risk_params env.ready book) >>= λ s.
      fund_wallet pool.vault_address market_slug s.stake_usd >>= λ wallet.
      place_order market_slug (outcome_of outcome_index) s wallet

  abbrev pub with_token : TradePool → ℕ → Text → Exec W Placed
  with_token pool exposure [] = stop (skip missing_token_id)
  with_token pool exposure (c ∷ s) = trade pool exposure (decode_limitless_token_id (c ∷ s))

  abbrev pub with_vault : TradePool → Text → ℕ → TradeCandidate → Exec W Placed
  with_vault pool [] exposure candidate = stop (skip missing_vault_address)
  with_vault pool (c ∷ s) exposure candidate = with_token pool exposure candidate.token_id

  abbrev pub with_rows : Option TradePool → ℕ → Option TradeCandidate → Exec W Placed
  with_rows none exposure candidate = stop (raise (codes "Pool not found"))
  with_rows (some pool) exposure none = stop (raise (codes "Candidate not found"))
  with_rows (some pool) exposure (some candidate) =
      with_vault pool pool.vault_address exposure candidate

  -- The body of the `try`, for a deadline and the rows of the tables
  unfoldable pub attempt : ℕ → Option TradePool → ℕ → Option TradeCandidate → Exec W Placed
  unfolding ◌>>=◌ trade
  attempt expected pool exposure candidate =
      window_open expected >>= λ open_now. with_rows pool exposure candidate
