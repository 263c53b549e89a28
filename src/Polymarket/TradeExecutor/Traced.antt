-- ===== src/Polymarket/TradeExecutor/Traced.antt =====
-- The calls of tradeExecutor.ts that move money, and the words for what a trade leaves.
use team_index.Base.{
  ℕ, ◌≡◌, List, [], ◌∷◌, Option, none, some, false, ◌&&◌, Result, ok, throw, Text, String, ◌⊎◌, ◌≢◌,
}
use team_index.Polymarket.TradeExecutor.{Executed, response_order_id}
use team_index.Polymarket.TradeExecutor.Prices.{decimal_to_base_units}
use team_index.Polymarket.TradeExecutor.Return.{
  Db, Intent, IntentStatus, Account, Trading, OrderRequest, Response, Order,
}

-- A call that moves money, with its answer.
pub data Event : Type 0 where
  allocated : ℕ → Result Text Text → Event
  posted : OrderRequest → Result Text Response → Event

-- Services that also keep these calls, the latest first.
abbrev pub traced : {W : Type 0} → Trading W → Trading (List Event × W)
traced t = record {
  allocate_pool_capital = λ vault hash amount s. (
    (t.allocate_pool_capital vault hash amount s.1).0,
    (
      allocated amount (t.allocate_pool_capital vault hash amount s.1).0 ∷ s.0,
      (t.allocate_pool_capital vault hash amount s.1).1,
    ),
  );
  create_and_post_market_order = λ r s. (
    (t.create_and_post_market_order r s.1).0,
    (
      posted r (t.create_and_post_market_order r s.1).0 ∷ s.0,
      (t.create_and_post_market_order r s.1).1,
    ),
  );
  market_terms = λ token amount s.
      ((t.market_terms token amount s.1).0, (s.0, (t.market_terms token amount s.1).1));
  balance_of = λ a s. ((t.balance_of a s.1).0, (s.0, (t.balance_of a s.1).1));
  transfer = λ a n s. ((t.transfer a n s.1).0, (s.0, (t.transfer a n s.1).1));
  sync_pool_returned_capital = λ a s.
      ((t.sync_pool_returned_capital a s.1).0, (s.0, (t.sync_pool_returned_capital a s.1).1));
}

-- The accepted order is the one row that was added.
abbrev pub Recorded : String → Response → List Order → List Order → Type 0
Recorded id r before after =
    (o : Order) × (after ≡ o ∷ before)
    × (o.intent_id ≡ id)
    × (o.external_order_id ≡ response_order_id r)

-- The status of the intent against the calls made and the orders before and after, by the outcome.
abbrev pub Settled :
    String → Result Text Executed → IntentStatus → List Event → List Order → List Order → Type 0
Settled id (ok done) IntentStatus.submitted (posted q (ok r) ∷ allocated n (ok tx) ∷ []) before
      after =
    Recorded id r before after
Settled id (throw e) IntentStatus.needs_reconciliation (posted q a ∷ allocated n (ok tx) ∷ [])
      before after =
    after ≡ before
Settled id (throw e) IntentStatus.failed (posted q (ok r) ∷ allocated n (ok tx) ∷ []) before after =
    Recorded id r before after
Settled id (throw e) IntentStatus.failed (allocated n reply ∷ []) before after = after ≡ before
Settled _ _ _ _ _ _ = ⊥

abbrev pub Ended :
    String → Result Text Executed → Option Intent → List Event → List Order → List Order → Type 0
Ended id result none events before after = ⊥
Ended id result (some i) events before after =
    Settled id result i.status events before after × (i.locked_by ≡ none) × (i.locked_at ≡ none)

-- Why a trade does not begin.
abbrev pub Unready : Db → Intent → Type 0
Unready db i =
    (i.status ≢ IntentStatus.funding)
    ⊎ ((db.accounts i.pool_id ≡ none)
        ⊎ (((a : Account) × ((db.accounts i.pool_id ≡ some a)
                × (a.ready && a.approvals_ready ≡ false)))
            ⊎ ((e : Text) × (decimal_to_base_units i.reserved_pusd ≡ throw e))))

abbrev pub Refused : Db → String → Type 0
Refused db id = (db.intents id ≡ none) ⊎ ((i : Intent) × ((db.intents id ≡ some i) × Unready db i))

abbrev pub Throws : Result Text Executed → Type 0
Throws (ok done) = ⊥
Throws (throw e) = Unit

-- An error, with no call that moves money and no change of a table.
abbrev pub Unmoved : {W : Type 0} → Db → Result Text Executed × (Db × (List Event × W)) → Type 0
Unmoved db o = Throws o.0 × (o.1.0 ≡ db) × (o.1.1.0 ≡ [])
