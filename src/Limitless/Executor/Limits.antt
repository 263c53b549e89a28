-- ===== src/Limitless/Executor/Limits.antt =====
-- src/limitless/limitlessExecutor.ts: the limits of the pool that a trade keeps to.
pub mod Reported
use team_index.Base.{
  ℕ, zero, suc, ◌+◌, ◌*◌, ◌/◌, ◌≤◌, ◌<◌, ◌≡◌, ◌≢◌, refl, sym, ap, ◌∙◌, List, [], ◌∷◌, Bool, true,
  false, Option, none, some, Result, ok, throw, Text, String, arith, Bool-cases, inl, inr,
}
use team_index.Services.Scheduler.{
  QueueStatus, scheduled, processing, executed, skipped_match, failed, cancelled, Key, QueueRow,
  put,
}
use team_index.Services.RiskEngine.{is_within_risk}
use team_index.Limitless.Book.{
  OrderBook, value_of, unit, levels, get_best_bid_ask, simulate_market_buy,
}
use team_index.Limitless.Executor.Calls.{
  Stop, skip, refuse, raise, raised, WalletAccount, Exchange, Exec, call, continue, ◌>>=◌,
}
use team_index.Limitless.OrderResult.{OrderResult, is_accepted_order_result}
use team_index.Limitless.Posting.{PostError, Outcome}
use team_index.Limitless.Executor.Wallet.{ServerWallet}
use team_index.Limitless.Amounts.{plus, buy}
use team_index.Limitless.Posting.Retries.{fok}
use team_index.Limitless.Posting.{PostParams}
use team_index.Limitless.TokenId.{decode_limitless_token_id}
use team_index.Limitless.Executor.Quiet.{Reply, traced, is_placed}
use team_index.Limitless.Executor.Rows.{
  TradePool, TradeCandidate, Position, TradeDb, TrancheParams, TradeEnv, exposure_of, Placed,
  TradeOutcome, traded, unclaimed, with_account, claimed_row, closed,
}
use team_index.Limitless.Executor.Trade.{
  accepted_if, answered, order_params, place_order, fund_wallet, checked_book, trade, with_token,
  with_vault, with_rows, attempt, window_open,
}
use team_index.Limitless.Executor.{
  queue_key, expected_of, claimed, claim_queue, execute_limitless_tranche,
}
use team_index.Limitless.Executor.Checks.{
  RiskParams, get_risk_per_match_pct, or_number, too_steep, proposed_exposure, within_risk,
  pre_flight, Sized, checked, outcome_of,
}
use team_index.Limitless.Executor.Once.{status_scheduled}

-- For a pool's value and open exposure: the stake is positive and within the limit of one match, twice the
-- stake (two tranches) and the open exposure are within the limit of the pool, the asks of the book fill the
-- stake and the worst of them is within the slippage.
abbrev pub Limits : ℕ → ℕ → RiskParams → OrderBook → Sized → Type 0
Limits total exposure p book s =
    (0 < s.stake_usd)
    × (2 * s.stake_usd * 100 ≤ total * get_risk_per_match_pct p 3)
    × ((exposure + 2 * s.stake_usd) * 100 ≤ total * or_number p.max_total_exposure_pct 20)
    × (s.sim ≡ simulate_market_buy book s.stake_usd)
    × (s.sim.fully_filled ≡ true)
    × (too_steep (or_number p.max_slippage_pct 0) s.best_ask s.sim ≡ false)

-- The last order that was posted is the trade's, and was accepted: it fills or is killed, and buys for the
-- stake at the best ask on the trade's market.
abbrev pub Buys : List Reply → Placed → Type 0
Buys [] p = ⊥
Buys ((params, reply) ∷ log) p =
    (is_placed (params, reply) ≡ true)
    × (params.market_slug ≡ p.market_slug)
    × (params.size ≡ p.sized.stake_usd)
    × (params.price ≡ plus p.sized.best_ask)
    × (params.side ≡ buy)
    × (params.order_type ≡ some fok)

within_risk→le :
    (total exposure : ℕ) (p : RiskParams)
    → within_risk total exposure p ≡ true
    → (exposure + proposed_exposure total p) * 100 ≤ total * or_number p.max_total_exposure_pct 20
unfolding is_within_risk
within_risk→le total exposure p h = ground (arith, h)

checked-Limits :
    (total exposure : ℕ) (p : RiskParams) (ready : Bool) (book : OrderBook) (s : Sized)
    → checked total exposure p ready book ≡ ok s
    → Limits total exposure p book s
unfolding checked
checked-Limits total exposure p ready book s h = ground (arith, h, within_risk→le total exposure p)

-- What a part of a trade ensures where it succeeds, of its result and the state after it
pub record Ensures {W A : Type 0} (m : Exec W A) (Good : A → W → Type 0) : Type 0 where
  pub ensures : (a : Option WalletAccount) (w : W) (y : A) → (m a w).0 ≡ ok y → Good y (m a w).1.1

module _ {W A B : Type 0} (P : A → Type 0) (Good : B → W → Type 0) where
  continue-Ensures :
      (r : Result Stop A) (f : A → Exec W B) (a : Option WalletAccount) (w : W) (y : B)
      → ((x : A) → r ≡ ok x → P x)
      → ((x : A) → P x → Ensures (f x) Good)
      → (continue r f a w).0 ≡ ok y
      → Good y (continue r f a w).1.1
  continue-Ensures (ok x) f a w y h k e = (k x (h x refl)).ensures a w y e
  continue-Ensures (throw s) f a w y h k e = absurd (ground (arith, e))

  -- A sequence ensures what its second part does, for the results that the first may have.
  pub bind-Ensures :
      (m : Exec W A) (f : A → Exec W B)
      → Ensures m (λ x w. P x)
      → ((x : A) → P x → Ensures (f x) Good)
      → Ensures (m >>= f) Good
  unfolding ◌>>=◌
  bind-Ensures m f h k = record {
    ensures = λ a w y e.
        continue-Ensures (m a w).0 f (m a w).1.0 (m a w).1.1 y (λ x o. h.ensures a w x o) k e;
  }

raised_ok : {A : Type 0} (r : Result Text A) (x : A) → raised r ≡ ok x → r ≡ ok x
raised_ok (ok y) x h = ground (arith, h)
raised_ok (throw e) x h = absurd (ground (arith, h))

-- Nothing is ensured of a result.
anything : {W A : Type 0} (m : Exec W A) → Ensures m (λ x w. Unit {0})
anything m = record { ensures = λ a w y e. tt }

module _ {W : Type 0} (ex : Exchange W) (env : TradeEnv) where
  -- A book that the service gave for a market
  abbrev pub BookOf : Text → OrderBook → Type 0
  BookOf market_slug book = (w : W) × ((ex.get_order_book market_slug w).0 ≡ ok book)

  -- The trade is within the limits, by a book of its market, and its order was posted.
  abbrev pub Within : TradePool → ℕ → Placed → List Reply → Type 0
  Within pool exposure p log =
      ((book : OrderBook) × BookOf p.market_slug book
        × Limits pool.total_pool_value exposure pool.risk_params book p.sized)
      × Buys log p

  module _ (market_slug : Text) (outcome : Outcome) (s : Sized) where
    -- The trade is that of the size.
    abbrev Sent : Placed → W × List Reply → Type 0
    Sent p state = (p.market_slug ≡ market_slug) × (p.sized ≡ s) × Buys state.1 p

    answered-Sent :
        (wallet : ServerWallet) (r : Result PostError OrderResult) (a : Option WalletAccount)
        (w : W) (log : List Reply) (p : Placed)
        → let params = order_params (traced ex) env market_slug outcome s wallet in
          let out = answered (traced ex) env market_slug s r a (w, (params, r) ∷ log) in
          (out.0 ≡ ok p → Sent p out.1.1)
    answered-Sent wallet (throw e) a w log p h = absurd (ground (arith, h))
    answered-Sent wallet (ok r) a w log p h =
        elim (Bool-cases (is_accepted_order_result (some r))) [
          | inr e ↦ absurd (ground (arith, h, e))
          | inl e ↦
              let slug : p.market_slug ≡ market_slug = ground (arith, h, e) in
              let size : p.sized ≡ s = ground (arith, h, e) in
              rw (e, accepted_if)
                (
                  slug,
                  size,
                  (
                    e,
                    sym slug,
                    ap (λ z. z.stake_usd) (sym size),
                    ap (λ z. plus z.best_ask) (sym size),
                    refl,
                    refl,
                  ),
                )
        ]

    place_order-Sent :
        (wallet : ServerWallet)
        → Ensures (place_order (traced ex) env market_slug outcome s wallet) Sent
    unfolding place_order
    place_order-Sent wallet = record {
      ensures = λ a state p h.
          let params = order_params (traced ex) env market_slug outcome s wallet in
          let (r, w') = ex.post params state.0 in answered-Sent wallet r a w' state.1 p h;
    }

  checked_book-Ensures :
      (r : Result Stop Sized) → Ensures (checked_book (traced ex) env r) (λ s w. r ≡ ok s)
  checked_book-Ensures (ok x) = record { ensures = λ a w s h. h }
  checked_book-Ensures (throw e) = record { ensures = λ a w s h. absurd (ground (arith, h)) }

  book-Ensures :
      (market_slug : Text)
      → Ensures (call ((traced ex).get_order_book market_slug)) (λ book w. BookOf market_slug book)
  book-Ensures market_slug = record {
    ensures = λ a w book h. (w.0, raised_ok ((traced ex).get_order_book market_slug w).0 book h);
  }

  trade-Within :
      (pool : TradePool) (exposure : ℕ) (market : Text × ℕ)
      → Ensures (trade (traced ex) env pool exposure market) (λ p s. Within pool exposure p s.1)
  unfolding trade
  trade-Within pool exposure (market_slug, outcome_index) =
      let outcome = outcome_of outcome_index in
      let Good : Placed → W × List Reply → Type 0 = λ p s. Within pool exposure p s.1 in
      let checks = λ (book : OrderBook).
        checked pool.total_pool_value exposure pool.risk_params env.ready book in
      let fund =
        λ (s : Sized). fund_wallet (traced ex) env pool.vault_address market_slug s.stake_usd in
      let place = λ (s : Sized) (wallet : ServerWallet).
        place_order (traced ex) env market_slug outcome s wallet in
      bind-Ensures (BookOf market_slug) Good (call ((traced ex).get_order_book market_slug))
        (λ book. checked_book (traced ex) env (checks book) >>= λ s. fund s >>= place s)
        (book-Ensures market_slug)
        λ book answer.
          bind-Ensures (λ s. checks book ≡ ok s) Good (checked_book (traced ex) env (checks book))
            (λ s. fund s >>= place s) (checked_book-Ensures (checks book))
            λ s passed.
              bind-Ensures (λ wallet. Unit {0}) Good (fund s) (place s) (anything (fund s))
                λ wallet none_known. record {
                  ensures = λ a state p h.
                      let (slug, size, posted) =
                        (place_order-Sent market_slug outcome s wallet).ensures a state p h in
                      (
                        (
                          book,
                          rw slug answer,
                          rw size (
                              checked-Limits pool.total_pool_value exposure pool.risk_params
                                env.ready book s passed),
                        ),
                        posted,
                      );
                }

  with_token-Within :
      (pool : TradePool) (exposure : ℕ) (token : Text)
      → Ensures (with_token (traced ex) env pool exposure token) (λ p s. Within pool exposure p s.1)
  with_token-Within pool exposure [] = record { ensures = λ a w p h. absurd (ground (arith, h)) }
  with_token-Within pool exposure (c ∷ s) =
      trade-Within pool exposure (decode_limitless_token_id (c ∷ s))

  with_vault-Within :
      (pool : TradePool) (vault : Text) (exposure : ℕ) (candidate : TradeCandidate)
      → Ensures
          (with_vault (traced ex) env pool vault exposure candidate)
          (λ p s. Within pool exposure p s.1)
  with_vault-Within pool [] exposure candidate = record {
    ensures = λ a w p h. absurd (ground (arith, h));
  }
  with_vault-Within pool (c ∷ s) exposure candidate =
      with_token-Within pool exposure candidate.token_id

  -- The pool is there, and the trade keeps to its limits.
  abbrev pub InLimits : Option TradePool → ℕ → Placed → List Reply → Type 0
  InLimits none exposure p log = ⊥
  InLimits (some pool) exposure p log = Within pool exposure p log

  with_rows-InLimits :
      (pool : Option TradePool) (exposure : ℕ) (candidate : Option TradeCandidate)
      → Ensures
          (with_rows (traced ex) env pool exposure candidate)
          (λ p s. InLimits pool exposure p s.1)
  with_rows-InLimits none exposure candidate = record {
    ensures = λ a w p h. absurd (ground (arith, h));
  }
  with_rows-InLimits (some pool) exposure none = record {
    ensures = λ a w p h. absurd (ground (arith, h));
  }
  with_rows-InLimits (some pool) exposure (some candidate) =
      with_vault-Within pool pool.vault_address exposure candidate

  pub attempt-InLimits :
      (expected : ℕ) (pool : Option TradePool) (exposure : ℕ) (candidate : Option TradeCandidate)
      → Ensures
          (attempt (traced ex) env expected pool exposure candidate)
          (λ p s. InLimits pool exposure p s.1)
  unfolding attempt
  attempt-InLimits expected pool exposure candidate =
      bind-Ensures (λ b. Unit {0}) (λ p s. InLimits pool exposure p s.1)
        (window_open (traced ex) env expected)
        (λ b. with_rows (traced ex) env pool exposure candidate)
        (anything (window_open (traced ex) env expected))
        (λ b none_known. with_rows-InLimits pool exposure candidate)
