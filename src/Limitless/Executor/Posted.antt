-- ===== src/Limitless/Executor/Posted.antt =====
-- src/limitless/limitlessExecutor.ts: the orders that the funding and the trade post.
use team_index.Base.{
  ℕ, zero, suc, ◌≡◌, refl, List, [], ◌∷◌, Bool, true, false, Option, none, some, Result, ok, throw,
  Text, Bool-cases, inl, inr, ◌==◌, ◌-◌,
}
use team_index.Limitless.TokenId.{decode_limitless_token_id}
use team_index.Limitless.Book.{OrderBook}
use team_index.Limitless.OrderResult.{OrderResult}
use team_index.Limitless.Amounts.{plus, AmountError, OrderAmounts, quote_limitless_fok_amounts}
use team_index.Limitless.Posting.{Outcome, PostParams, PostError}
use team_index.Limitless.Executor.Calls.{Stop, WalletAccount, MarketDetail, Exchange, call}
use team_index.Limitless.Executor.Wallet.{
  ServerWallet, link_unless, linked, both, created_wallet, wallet_by, existing_ids,
  ensure_pool_limitless_server_wallet,
}
use team_index.Limitless.Executor.Checks.{Sized, outcome_of, checked}
use team_index.Limitless.Executor.Quiet.{
  Reply, traced, is_placed, Posts, nothing_posted, not_placed, placed, Quiet, Posting, call-Quiet,
  pure-Quiet, bind-Quiet, bind-Posting,
}
use team_index.Limitless.Executor.Rows.{TradeEnv, TradePool, TradeCandidate}
use team_index.Limitless.Executor.Trade.{
  or_empty, time_ok, window_open, exchange_of, owner_checked, amounts_of, funded, allowed,
  fund_wallet, answered, order_params, place_order, checked_book, trade, with_token, with_vault,
  with_rows, attempt,
}

module _ {W : Type 0} (ex : Exchange W) where
  link_unless-Quiet :
      (vault wallet : Text) (b : Bool) → Quiet (link_unless (traced ex) vault wallet b)
  link_unless-Quiet vault wallet true = (record { quiet = λ a s. refl })
  link_unless-Quiet vault wallet false = (record { quiet = λ a s. refl })

  linked-Quiet : (vault wallet : Text) → Quiet (linked (traced ex) vault wallet)
  unfolding linked
  linked-Quiet vault wallet =
      bind-Quiet (record { quiet = λ a s. refl }) (λ b. link_unless-Quiet vault wallet b)

  created_wallet-Quiet :
      (vault : Text) (ids : Option (Text × Text)) → Quiet (created_wallet (traced ex) vault ids)
  created_wallet-Quiet vault none = (record { quiet = λ a s. refl })
  created_wallet-Quiet vault (some (profile, address)) =
      bind-Quiet (record { quiet = λ a s. refl })
        (λ done. bind-Quiet (linked-Quiet vault address) (λ link. (record { quiet = λ a s. refl })))

  wallet_by-Quiet :
      (vault : Text) (ids : Option (Text × Text)) → Quiet (wallet_by (traced ex) vault ids)
  wallet_by-Quiet vault none =
      bind-Quiet (record { quiet = λ a s. refl })
        (λ ids. created_wallet-Quiet vault (both ids.0 ids.1))
  wallet_by-Quiet vault (some (profile, address)) =
      bind-Quiet (linked-Quiet vault address) (λ link. (record { quiet = λ a s. refl }))

  wallet-Quiet : (vault : Text) → Quiet (ensure_pool_limitless_server_wallet (traced ex) vault)
  unfolding ensure_pool_limitless_server_wallet
  wallet-Quiet vault = record { quiet = λ a s. (wallet_by-Quiet vault (existing_ids a)).quiet a s }

module _ {W : Type 0} (ex : Exchange W) (env : TradeEnv) where
  time_ok-Quiet : (b : Bool) → Quiet (time_ok (traced ex) env b)
  time_ok-Quiet true = (record { quiet = λ a s. refl })
  time_ok-Quiet false = (record { quiet = λ a s. refl })

  window_open-Quiet : (expected : ℕ) → Quiet (window_open (traced ex) env expected)
  window_open-Quiet zero = (record { quiet = λ a s. refl })
  window_open-Quiet (suc expected) =
      bind-Quiet (record { quiet = λ a s. refl }) (λ t. time_ok-Quiet _)

  exchange_of-Quiet : (exchange : Option Text) → Quiet (exchange_of (traced ex) env exchange)
  exchange_of-Quiet none = (record { quiet = λ a s. refl })
  exchange_of-Quiet (some []) = (record { quiet = λ a s. refl })
  exchange_of-Quiet (some (c ∷ s)) = (record { quiet = λ a s. refl })

  owner_checked-Quiet : (wallet : ServerWallet) → Quiet (owner_checked (traced ex) env wallet)
  owner_checked-Quiet wallet = elim (Bool-cases (wallet.owner_id == 0)) [
    | inl e ↦ record { quiet = λ a s. rw e refl }
    | inr e ↦ record { quiet = λ a s. rw e refl }
  ]

  amounts_of-Quiet :
      (quote : Result AmountError OrderAmounts) → Quiet (amounts_of (traced ex) env quote)
  amounts_of-Quiet (ok a) = (record { quiet = λ a s. refl })
  amounts_of-Quiet (throw e) = (record { quiet = λ a s. refl })

  funded-Quiet :
      (vault wallet : Text) (amount : ℕ) → Quiet (funded (traced ex) env vault wallet amount)
  funded-Quiet vault wallet zero = (record { quiet = λ a s. refl })
  funded-Quiet vault wallet (suc amount) = (record { quiet = λ a s. refl })

  balance-Quiet :
      (detail : MarketDetail) (wallet : ServerWallet)
      → Quiet (
          call (
            (traced ex).erc20_balance
              (or_empty env.base_usdc_address detail.collateral_token)
              wallet.wallet_address))
  balance-Quiet detail wallet = call-Quiet _ (λ s. refl)

  allowed-Quiet : (owner_id : ℕ) → Quiet (allowed (traced ex) env owner_id)
  allowed-Quiet owner_id = record { quiet = λ a s. refl }

  fund_wallet-Quiet :
      (vault market_slug : Text) (stake : ℕ)
      → Quiet (fund_wallet (traced ex) env vault market_slug stake)
  unfolding fund_wallet
  fund_wallet-Quiet vault market_slug stake =
      bind-Quiet (wallet-Quiet ex vault) λ (wallet : ServerWallet).
        bind-Quiet (owner_checked-Quiet wallet) λ checked_wallet.
          bind-Quiet (call-Quiet ((traced ex).get_market_by_slug market_slug) (λ s. refl))
            λ (detail : MarketDetail). bind-Quiet (exchange_of-Quiet detail.exchange) λ venue.
              bind-Quiet (amounts_of-Quiet (quote_limitless_fok_amounts (plus stake)))
                λ (quote : OrderAmounts). bind-Quiet (balance-Quiet detail wallet) λ (balance : ℕ).
                  bind-Quiet
                    (funded-Quiet vault wallet.wallet_address (quote.maker_amount - balance))
                    λ done. bind-Quiet (allowed-Quiet wallet.owner_id) λ also. pure-Quiet wallet

  -- By the acceptance of the answer
  answered-Posts :
      (market_slug : Text) (s : Sized) (params : PostParams) (r : Result PostError OrderResult)
      (a : Option WalletAccount) (w : W) (log : List Reply) (accepted : Bool)
      → is_placed (params, r) ≡ accepted
      → let out = answered (traced ex) env market_slug s r a (w, (params, r) ∷ log) in
        Posts log out.0 out.1.1.1
  answered-Posts market_slug s params (throw e) a w log accepted h =
      not_placed _ (params, throw e) refl refl
  answered-Posts market_slug s params (ok r) a w log true h = rw h (placed _ (params, ok r) h)
  answered-Posts market_slug s params (ok r) a w log false h =
      rw h (not_placed _ (params, ok r) refl h)

  place_order-Posting :
      (market_slug : Text) (outcome : Outcome) (s : Sized) (wallet : ServerWallet)
      → Posting (place_order (traced ex) env market_slug outcome s wallet)
  unfolding place_order
  place_order-Posting market_slug outcome s wallet = record {
    posts = λ a w.
        let params = order_params (traced ex) env market_slug outcome s wallet in
        let (r, w') = ex.post params w.0 in
        answered-Posts market_slug s params r a w' w.1 (is_placed (params, r)) refl;
  }

  checked_book-Quiet : (r : Result Stop Sized) → Quiet (checked_book (traced ex) env r)
  checked_book-Quiet (ok s) = record { quiet = λ a s. refl }
  checked_book-Quiet (throw e) = record { quiet = λ a s. refl }

  trade-Posting :
      (pool : TradePool) (exposure : ℕ) (market : Text × ℕ)
      → Posting (trade (traced ex) env pool exposure market)
  unfolding trade
  trade-Posting pool exposure (market_slug, outcome_index) =
      bind-Posting (call-Quiet ((traced ex).get_order_book market_slug) (λ s. refl))
        λ (book : OrderBook).
          bind-Posting
            (checked_book-Quiet
              (checked pool.total_pool_value exposure pool.risk_params env.ready book))
            λ (s : Sized).
              bind-Posting (fund_wallet-Quiet pool.vault_address market_slug s.stake_usd)
                λ (wallet : ServerWallet).
                  place_order-Posting market_slug (outcome_of outcome_index) s wallet

  with_token-Posting :
      (pool : TradePool) (exposure : ℕ) (token : Text)
      → Posting (with_token (traced ex) env pool exposure token)
  with_token-Posting pool exposure [] = record { posts = λ a s. nothing_posted _ }
  with_token-Posting pool exposure (c ∷ s) =
      trade-Posting pool exposure (decode_limitless_token_id (c ∷ s))

  with_vault-Posting :
      (pool : TradePool) (vault : Text) (exposure : ℕ) (candidate : TradeCandidate)
      → Posting (with_vault (traced ex) env pool vault exposure candidate)
  with_vault-Posting pool [] exposure candidate = record { posts = λ a s. nothing_posted _ }
  with_vault-Posting pool (c ∷ s) exposure candidate =
      with_token-Posting pool exposure candidate.token_id

  with_rows-Posting :
      (pool : Option TradePool) (exposure : ℕ) (candidate : Option TradeCandidate)
      → Posting (with_rows (traced ex) env pool exposure candidate)
  with_rows-Posting none exposure candidate = record { posts = λ a s. nothing_posted _ }
  with_rows-Posting (some pool) exposure none = record { posts = λ a s. nothing_posted _ }
  with_rows-Posting (some pool) exposure (some candidate) =
      with_vault-Posting pool pool.vault_address exposure candidate

  pub attempt-Posting :
      (expected : ℕ) (pool : Option TradePool) (exposure : ℕ) (candidate : Option TradeCandidate)
      → Posting (attempt (traced ex) env expected pool exposure candidate)
  unfolding attempt
  attempt-Posting expected pool exposure candidate =
      bind-Posting (window_open-Quiet expected)
        λ open_now. with_rows-Posting pool exposure candidate
