-- ===== src/Limitless/Executor/Calls.antt =====
-- src/limitless/limitlessExecutor.ts: the calls of a trade, with the ways in which it stops. What was done
-- before an error stays done, so the state comes back beside it.
use team_index.Base.{ℕ, Bool, Option, Result, ok, throw, Text}
use team_index.Limitless.OrderResult.{OrderResult}
use team_index.Limitless.Book.{OrderBook}
use team_index.Limitless.Posting.{PostParams, PostError}

-- Reasons of an early return that leaves the row SKIPPED
pub data SkipReason : Type 0 where
  missed_window missing_vault_address missing_token_id no_liquidity low_liquidity : SkipReason
  risk limitless_not_ready insufficient_depth slippage : SkipReason

-- Reasons of an early return that leaves the row FAILED
pub data RefuseReason : Type 0 where
  invalid_server_wallet_profile missing_limitless_exchange : RefuseReason
  order_rejected : OrderResult → RefuseReason

-- `raise`: an error is thrown.
pub data Stop : Type 0 where
  skip : SkipReason → Stop
  refuse : RefuseReason → Stop
  raise : Text → Stop

-- A row of pool_limitless_accounts
pub record WalletAccount : Type 0 where
  pub limitless_profile_id : Option Text
  pub account_address : Option Text
  pub server_wallet : Bool
  pub allowance_status : Text
  pub status : Text

-- The venue's exchange and the collateral token of a market
pub record MarketDetail : Type 0 where
  pub exchange : Option Text
  pub collateral_token : Option Text

-- The services that a trade calls. `create_partner` returns the profile id and the address of a new server
-- wallet, `post` is postLimitlessOrder.
pub record Exchange (W : Type 0) : Type 0 where
  pub now : W → ℕ × W
  pub get_order_book : Text → W → Result Text OrderBook × W
  pub is_trading_wallet : Text → Text → W → Result Text Bool × W
  pub set_trading_wallet : Text → Text → W → Result Text Bool × W
  pub create_partner : W → Result Text (Option Text × Option Text) × W
  pub get_market_by_slug : Text → W → Result Text MarketDetail × W
  pub erc20_balance : Text → Text → W → Result Text ℕ × W
  pub fund_trading_wallet : Text → Text → ℕ → W → Result Text Bool × W
  pub ensure_allowances : ℕ → W → W
  pub post : PostParams → W → Result PostError OrderResult × W

-- A step on the pool's account and the state of the services
abbrev pub Exec : Type 0 → Type 0 → Type 0
Exec W A = Option WalletAccount → W → Result Stop A × (Option WalletAccount × W)

abbrev pub raised : {A : Type 0} → Result Text A → Result Stop A
raised (ok x) = ok x
raised (throw e) = throw (raise e)

module _ {W A : Type 0} where
  abbrev pub pure : A → Exec W A
  pure x a w = (ok x, (a, w))

  abbrev pub stop : Stop → Exec W A
  stop e a w = (throw e, (a, w))

  -- A call that may throw
  abbrev pub call : (W → Result Text A × W) → Exec W A
  call f a w = let (r, w') = f w in (raised r, (a, w'))

module _ {W A B : Type 0} where
  abbrev pub continue : Result Stop A → (A → Exec W B) → Exec W B
  continue (ok x) f a w = f x a w
  continue (throw e) f a w = (throw e, (a, w))

  infixl 10 ◌>>=◌
  unfoldable pub ◌>>=◌ : Exec W A → (A → Exec W B) → Exec W B
  ◌>>=◌ m f a w = let (r, s) = m a w in continue r f s.0 s.1
