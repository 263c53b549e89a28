-- ===== src/Polymarket/TradeExecutor.antt =====
-- src/polymarket/tradeExecutor.ts: a claimed trade intent is funded, priced, posted and settled.
-- The tables are explicit state; the chain, the relayer and the CLOB are the parameter `Trading`.
pub mod Prices
pub mod Return
pub mod Traced
pub mod Outcomes
use team_index.Base.{
  ℕ, suc, List, [], ◌∷◌, Option, none, some, Bool, true, false, ◌||◌, ◌&&◌, Result, ok, throw,
  ◌<|>◌, ltb, if◌then◌else◌, String, str_eq, Text, codes, text_eq, to_upper, take, any,
}
use Prices.{Terms, TickSize, slippage_cap, tick_aligned_ceiling, decimal_to_base_units}
use Return.{
  Db, Intent, IntentStatus, funding, funded, submitting, submitted, failed, needs_reconciliation,
  Account, Movement, MovementKey, fund_key, allocate, Order, Trading, OrderRequest, Response,
  movement_submitting, movement_confirmed, upsert_movement, update_movement, update_intent,
  Returned, return_idle_pusd_to_vault,
}

abbrev or_else {ℓ} : {A : Type ℓ} → Option A → A → A
or_else none d = d
or_else (some a) d = a

unfoldable pub response_order_id : Response → Option Text
response_order_id r = r.order_id <|> (r.order_id_2 <|> r.id)

-- `response?.status`, or a word for `response?.success`
abbrev pub response_status : Response → Text
response_status r =
    to_upper (or_else r.status (if r.success then codes "MATCHED" else codes "SUBMITTED"))

abbrev pub closed_statuses : List Text
closed_statuses = codes "MATCHED" ∷ codes "CANCELLED" ∷ codes "FAILED" ∷ []

abbrev pub order_row : String → Intent → OrderRequest → Terms → Response → Order
order_row id intent request terms r = record {
  pool_id = intent.pool_id;
  intent_id = id;
  external_order_id = response_order_id r;
  token_id = intent.token_id;
  price = request.price;
  original_size = intent.amount;
  matched_size = or_else r.taking_amount 0;
  fee_rate_bps = terms.fee_rate_bps;
  status = response_status r;
  closed = any (text_eq (response_status r)) closed_statuses;
}

abbrev same_id : Text → Option Text → Bool
same_id x none = false
same_id x (some y) = text_eq x y

-- Whether another order has the external id, which is unique where it is not null.
abbrev pub taken : Option Text → List Order → Bool
taken none os = false
taken (some x) [] = false
taken (some x) (o ∷ os) = same_id x o.external_order_id || taken (some x) os

-- The trade's result
pub record Executed : Type 0 where
  pub external_order_id : Option Text
  pub status : Text
  pub returned : Returned

abbrev pub set_status : IntentStatus → Intent → Intent
set_status s i = record i { status = s }

abbrev pub released : Intent → Intent
released i = record i { status = submitted; locked_at = none; locked_by = none }

abbrev pub funded_by : Text → Intent → Intent
funded_by tx i = record i { status = funded; funding_tx = some tx }

abbrev pub confirmed_by : Text → Movement → Movement
confirmed_by tx m = record m { tx_hash = some tx; status = movement_confirmed }

-- `updateMany` where the intent is pending, with its `count === 1`.
unfoldable pub claim_trade_intent : String → String → ℕ → Db → Bool × Db
claim_trade_intent id worker now db = elim (db.intents id) [
  | none ↦ (false, db)
  | some i ↦ elim i.status [
    | IntentStatus.pending ↦ (
      true,
      update_intent id
          (λ i. record i {
            status = funding;
            locked_by = some worker;
            locked_at = some now;
            attempts = suc i.attempts;
          })
          db,
    )
    | _ ↦ (false, db)
  ]
]

module _ {W : Type 0} (trading : Trading W) (id : String) where
  -- The result, by what the return of the idle pUSD came to
  abbrev pub settled_as : Response → Result Text Returned → Db × W → Result Text Executed × (Db × W)
  settled_as r (throw e) s = (throw e, s)
  settled_as r (ok returned) s = (
    ok (record {
      external_order_id = response_order_id r;
      status = response_status r;
      returned = returned;
    }),
    s,
  )

  -- After the order was recorded.
  abbrev pub settle : Intent → Response → Db → W → Result Text Executed × (Db × W)
  settle intent r db w =
      let (reply, s) = return_idle_pusd_to_vault trading intent.pool_id db w in settled_as r reply s

  -- The order is recorded, unless its external id is taken.
  abbrev pub record_unless :
      Bool → Intent → Order → Response → Db → W → Result Text Executed × (Db × W)
  record_unless true intent row r db w = (throw (codes "Unique constraint failed"), (db, w))
  record_unless false intent row r db w =
      settle intent r (update_intent id released (record db { orders = row ∷ db.orders })) w

  -- `intentId` is unique among the orders too.
  abbrev of_intent : Order → Bool
  of_intent o = str_eq o.intent_id id

  -- After the answer to the order
  abbrev pub answered :
      Result Text Response
      → Intent
      → OrderRequest
      → Terms
      → Db
      → W
      → Result Text Executed × (Db × W)
  answered (throw e) intent request terms db w = (throw e, (db, w))
  answered (ok r) intent request terms db w =
      record_unless (any of_intent db.orders || taken (response_order_id r) db.orders) intent
        (order_row id intent request terms r) r db w

  abbrev pub submit : Intent → Terms → ℕ → Db → W → Result Text Executed × (Db × W)
  submit intent terms price db w =
      let request : OrderRequest = record {
        token_id = intent.token_id;
        amount = intent.amount;
        price = price;
        tick_size = terms.tick_size;
        neg_risk = terms.neg_risk;
      } in
      let (reply, w') = trading.create_and_post_market_order request w in
      answered reply intent request terms (update_intent id (set_status submitting) db) w'

  -- `true`: the market price exceeds the cap.
  abbrev pub submit_unless : Bool → Intent → Terms → ℕ → Db → W → Result Text Executed × (Db × W)
  submit_unless true intent terms cap db w =
      (throw (codes "Market price exceeds slippage cap"), (db, w))
  submit_unless false intent terms cap db w =
      submit intent terms (tick_aligned_ceiling cap terms.tick_size) db w

  abbrev pub with_terms : Result Text Terms → Intent → Db → W → Result Text Executed × (Db × W)
  with_terms (throw e) intent db w = (throw e, (db, w))
  with_terms (ok terms) intent db w =
      let cap = slippage_cap intent.limit_price intent.max_slippage_bps in
      submit_unless (ltb cap terms.market_price) intent terms cap db w

  -- The transaction of the two updates after the funding
  abbrev pub confirmed : Text → Db → Db
  confirmed tx db =
      update_intent id (funded_by tx) (update_movement (fund_key id) (confirmed_by tx) db)

  abbrev pub with_funds : Result Text Text → Intent → Db → W → Result Text Executed × (Db × W)
  with_funds (throw e) intent db w = (throw e, (db, w))
  with_funds (ok tx) intent db w =
      let (reply, w') = trading.market_terms intent.token_id intent.amount w in
      with_terms reply intent (confirmed tx db) w'

  -- The `try` block
  unfoldable pub attempt : Intent → Account → ℕ → Db → W → Result Text Executed × (Db × W)
  attempt intent account amount db w =
      let (reply, w') =
        trading.allocate_pool_capital account.vault_address intent.proposal_hash amount w in
      with_funds reply intent db w'

  abbrev after_failure : Option Intent → IntentStatus
  after_failure none = failed
  after_failure (some i) = elim i.status [
    | IntentStatus.submitting ↦ needs_reconciliation
    | _ ↦ failed
  ]

  abbrev pub failed_with : Text → IntentStatus → Intent → Intent
  failed_with e status i = record i {
    status = status;
    last_error = some (take 2000 e);
    locked_at = none;
    locked_by = none;
  }

  -- The `catch` block
  abbrev pub caught : Result Text Executed → Db → W → Result Text Executed × (Db × W)
  caught (ok done) db w = (ok done, (db, w))
  caught (throw e) db w =
      (throw e, (update_intent id (failed_with e (after_failure (db.intents id))) db, w))

  abbrev funding_movement : Intent → Movement
  funding_movement intent = record {
    pool_id = intent.pool_id;
    kind = allocate;
    amount = intent.reserved_pusd;
    status = movement_submitting;
    tx_hash = none;
    proposal_hash = some intent.proposal_hash;
  }

  abbrev pub fund : Intent → Account → Result Text ℕ → Db → W → Result Text Executed × (Db × W)
  fund intent account (throw e) db w = (throw e, (db, w))
  fund intent account (ok amount) db w =
      let (reply, s) =
        attempt intent account amount (upsert_movement (fund_key id) (funding_movement intent) db)
          w in
      caught reply s.0 s.1

  abbrev pub fund_if : Bool → Intent → Account → Db → W → Result Text Executed × (Db × W)
  fund_if false intent account db w =
      (throw (codes "Pool Deposit Wallet is not ready for trading"), (db, w))
  fund_if true intent account db w =
      fund intent account (decimal_to_base_units intent.reserved_pusd) db w

  abbrev pub with_account : Intent → Option Account → Db → W → Result Text Executed × (Db × W)
  with_account intent none db w =
      (throw (codes "Pool Deposit Wallet is not ready for trading"), (db, w))
  with_account intent (some account) db w =
      fund_if (account.ready && account.approvals_ready) intent account db w

  abbrev pub is_funding : Option Intent → Option Intent
  is_funding none = none
  is_funding (some i) = elim i.status [ IntentStatus.funding ↦ some i | _ ↦ none ]

  abbrev pub with_intent : Option Intent → Db → W → Result Text Executed × (Db × W)
  with_intent none db w = (throw (codes "Trade intent is not claimed for funding"), (db, w))
  with_intent (some i) db w = with_account i (db.accounts i.pool_id) db w

  unfoldable pub execute_claimed_trade_intent : Db → W → Result Text Executed × (Db × W)
  unfolding attempt
  execute_claimed_trade_intent db w = with_intent (is_funding (db.intents id)) db w
