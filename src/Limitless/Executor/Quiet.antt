-- ===== src/Limitless/Executor/Quiet.antt =====
-- src/limitless/limitlessExecutor.ts: which calls of a trade post an order.
use mathlib.Core.Path.{subst}
use team_index.Base.{
  ◌≡◌, refl, ◌∙◌, List, ◌∷◌, Bool, true, false, Option, some, Result, ok, throw, Text,
}
use team_index.Limitless.OrderResult.{OrderResult, is_accepted_order_result}
use team_index.Limitless.Posting.{PostParams, PostError}
use team_index.Limitless.Executor.Calls.{
  Stop, skip, WalletAccount, Exchange, Exec, pure, call, continue, ◌>>=◌,
}

-- A posted order and the answer to it
abbrev pub Reply : Type 0
Reply = PostParams × Result PostError OrderResult

-- The services that also keep the posted orders and the answers to them, the last one first
abbrev pub traced : {W : Type 0} → Exchange W → Exchange (W × List Reply)
traced ex = record {
  now = λ s. let (r, w) = ex.now s.0 in (r, (w, s.1));
  get_order_book = λ slug s. let (r, w) = ex.get_order_book slug s.0 in (r, (w, s.1));
  is_trading_wallet = λ v a s. let (r, w) = ex.is_trading_wallet v a s.0 in (r, (w, s.1));
  set_trading_wallet = λ v a s. let (r, w) = ex.set_trading_wallet v a s.0 in (r, (w, s.1));
  create_partner = λ s. let (r, w) = ex.create_partner s.0 in (r, (w, s.1));
  get_market_by_slug = λ slug s. let (r, w) = ex.get_market_by_slug slug s.0 in (r, (w, s.1));
  erc20_balance = λ t a s. let (r, w) = ex.erc20_balance t a s.0 in (r, (w, s.1));
  fund_trading_wallet = λ v a n s. let (r, w) = ex.fund_trading_wallet v a n s.0 in (r, (w, s.1));
  ensure_allowances = λ id s. (ex.ensure_allowances id s.0, s.1);
  post = λ params s. let (r, w) = ex.post params s.0 in (r, (w, (params, r) ∷ s.1));
}

abbrev pub is_placed : Reply → Bool
is_placed (params, ok r) = is_accepted_order_result (some r)
is_placed (params, throw e) = false

abbrev pub is_skip : Stop → Bool
is_skip (skip reason) = true
is_skip _ = false

-- What a part of a trade posts: nothing, and then it has no order; one order that was not accepted; or one
-- that was.
pub data Posts {A : Type 0} (log : List Reply) : Result Stop A → List Reply → Type 0 where
  nothing_posted : (e : Stop) → Posts log (throw e) log
  not_placed :
      (e : Stop) (r : Reply)
      → is_skip e ≡ false
      → is_placed r ≡ false
      → Posts log (throw e) (r ∷ log)
  placed : (p : A) (r : Reply) → is_placed r ≡ true → Posts log (ok p) (r ∷ log)

-- A part of a trade that posts nothing
pub record Quiet {W A : Type 0} (m : Exec (W × List Reply) A) : Type 0 where
  pub quiet : (a : Option WalletAccount) (s : W × List Reply) → (m a s).1.1.1 ≡ s.1

-- A part of a trade that posts at most one order
pub record Posting {W A : Type 0} (m : Exec (W × List Reply) A) : Type 0 where
  pub posts : (a : Option WalletAccount) (s : W × List Reply) → Posts s.1 (m a s).0 (m a s).1.1.1

module _ {W A : Type 0} where
  pub call-Quiet :
      (f : W × List Reply → Result Text A × (W × List Reply))
      → ((s : W × List Reply) → (f s).1.1 ≡ s.1)
      → Quiet (call f)
  call-Quiet f h = record { quiet = λ a s. h s }

  pub pure-Quiet : (x : A) → Quiet {W = W} (pure x)
  pure-Quiet x = record { quiet = λ a s. refl }

module _ {W A B : Type 0} where
  continue-Quiet :
      (r : Result Stop A) (f : A → Exec (W × List Reply) B) (a : Option WalletAccount)
      (s : W × List Reply)
      → ((x : A) → Quiet (f x))
      → (continue r f a s).1.1.1 ≡ s.1
  continue-Quiet (ok x) f a s h = (h x).quiet a s
  continue-Quiet (throw e) f a s h = refl

  pub bind-Quiet :
      {m : Exec (W × List Reply) A} {f : A → Exec (W × List Reply) B}
      → Quiet m
      → ((x : A) → Quiet (f x))
      → Quiet (m >>= f)
  unfolding ◌>>=◌
  bind-Quiet {m} {f} h k = record {
    quiet = λ a s. continue-Quiet (m a s).0 f (m a s).1.0 (m a s).1.1 k ∙ h.quiet a s;
  }

  continue-Posting :
      (r : Result Stop A) (f : A → Exec (W × List Reply) B) (a : Option WalletAccount)
      (s : W × List Reply)
      → ((x : A) → Posting (f x))
      → Posts s.1 (continue r f a s).0 (continue r f a s).1.1.1
  continue-Posting (ok x) f a s h = (h x).posts a s
  continue-Posting (throw e) f a s h = nothing_posted e

  pub bind-Posting :
      {m : Exec (W × List Reply) A} {f : A → Exec (W × List Reply) B}
      → Quiet m
      → ((x : A) → Posting (f x))
      → Posting (m >>= f)
  unfolding ◌>>=◌
  bind-Posting {m} {f} h k = record {
    posts = λ a s.
        let out = continue (m a s).0 f (m a s).1.0 (m a s).1.1 in
        let family : List Reply → Type 0 = λ log. Posts log out.0 out.1.1.1 in
        subst family (h.quiet a s) (continue-Posting (m a s).0 f (m a s).1.0 (m a s).1.1 k);
  }
