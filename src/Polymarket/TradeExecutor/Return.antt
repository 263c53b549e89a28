-- ===== src/Polymarket/TradeExecutor/Return.antt =====
-- src/polymarket/tradeExecutor.ts: the tables and services of a trade, and returnIdlePusdToVault.
use team_index.Base.{
  ℕ, zero, suc, ◌*◌, List, Option, none, some, Bool, false, ◌||◌, Result, ok, throw, if◌then◌else◌,
  String, str_eq, Text, codes, text_eq,
}
use team_index.Polymarket.TradeExecutor.Prices.{Terms, TickSize}

pub data IntentStatus : Type 0 where
  pending funding funded submitting submitted failed needs_reconciliation : IntentStatus

-- A row of pool_trade_intents; `funding_tx` is its metadataJson.
pub record Intent : Type 0 where
  pub pool_id : String
  pub proposal_hash : String
  pub token_id : String
  pub limit_price : ℕ
  pub amount : ℕ
  pub max_slippage_bps : ℕ
  pub reserved_pusd : ℕ
  pub status : IntentStatus
  pub attempts : ℕ
  pub locked_at : Option ℕ
  pub locked_by : Option String
  pub last_error : Option Text
  pub funding_tx : Option Text

-- A row of pool_polymarket_accounts; `ready`: its status is READY
pub record Account : Type 0 where
  pub deposit_wallet_address : String
  pub vault_address : String
  pub ready : Bool
  pub approvals_ready : Bool

-- The idempotency keys `fund:${id}` and `return:${transactionID}`
pub data MovementKey : Type 0 where
  fund_key : String → MovementKey
  return_key : Text → MovementKey

pub data MovementType : Type 0 where
  allocate return_ : MovementType

pub data MovementStatus : Type 0 where
  movement_submitting movement_confirmed : MovementStatus

pub record Movement : Type 0 where
  pub pool_id : String
  pub kind : MovementType
  pub amount : ℕ
  pub status : MovementStatus
  pub tx_hash : Option Text
  pub proposal_hash : Option String

pub record Order : Type 0 where
  pub pool_id : String
  pub intent_id : String
  pub external_order_id : Option Text
  pub token_id : String
  pub price : ℕ
  pub original_size : ℕ
  pub matched_size : ℕ
  pub fee_rate_bps : ℕ
  pub status : Text
  pub closed : Bool

pub record Db : Type 0 where
  pub intents : String → Option Intent
  -- by pool
  pub accounts : String → Option Account
  pub movements : MovementKey → Option Movement
  pub orders : List Order

abbrev key_eq : MovementKey → MovementKey → Bool
key_eq (fund_key a) (fund_key b) = str_eq a b
key_eq (return_key a) (return_key b) = text_eq a b
key_eq _ _ = false

abbrev pub changed {ℓ} : {A : Type ℓ} → (A → A) → Option A → Option A
changed f none = none
changed f (some a) = some (f a)

abbrev pub update_intent : String → (Intent → Intent) → Db → Db
update_intent id f db = record db {
  intents = λ j. if str_eq id j then changed f (db.intents j) else db.intents j;
}

abbrev pub update_movement : MovementKey → (Movement → Movement) → Db → Db
update_movement k f db = record db {
  movements = λ j. if key_eq k j then changed f (db.movements j) else db.movements j;
}

-- `baseUnitsToDecimal` with 6 decimals, for a column of 18
abbrev base_units_to_decimal : ℕ → ℕ
base_units_to_decimal value = value * 1000000000000

-- `upsert` with an empty update
abbrev kept : Option Movement → Movement → Movement
kept none m = m
kept (some old) m = old

abbrev pub upsert_movement : MovementKey → Movement → Db → Db
upsert_movement k m db = record db {
  movements = λ j. if key_eq k j then some (kept (db.movements j) m) else db.movements j;
}

pub record OrderRequest : Type 0 where
  pub token_id : String
  pub amount : ℕ
  pub price : ℕ
  pub tick_size : TickSize
  pub neg_risk : Bool

-- `orderID`, `orderId` and `id` of an answer, and what else is read of it
pub record Response : Type 0 where
  pub order_id : Option Text
  pub order_id_2 : Option Text
  pub id : Option Text
  pub status : Option Text
  pub success : Bool
  pub taking_amount : Option ℕ

-- What `transaction.wait()` returns
pub record Mined : Type 0 where
  pub state : Text
  pub transaction_hash : Text

pub record Trading (W : Type 0) : Type 0 where
  pub allocate_pool_capital : String → String → ℕ → W → Result Text Text × W
  pub market_terms : String → ℕ → W → Result Text Terms × W
  pub create_and_post_market_order : OrderRequest → W → Result Text Response × W
  pub balance_of : String → W → Result Text ℕ × W
  -- the batch of one transfer, its id and the transaction as mined
  pub transfer : Account → ℕ → W → Result Text (Text × Option Mined) × W
  pub sync_pool_returned_capital : String → W → Result Text Text × W

pub record Returned : Type 0 where
  pub amount_base_units : ℕ
  pub relayer_transaction_hash : Option Text
  pub sync_tx_hash : Option Text

abbrev nothing_returned : Returned
nothing_returned = record {
  amount_base_units = 0;
  relayer_transaction_hash = none;
  sync_tx_hash = none;
}

abbrev failed_state : Mined → Bool
failed_state m = text_eq m.state (codes "STATE_FAILED") || text_eq m.state (codes "STATE_INVALID")

abbrev checked_mined : Option Mined → Result Text Mined
checked_mined none = throw (codes "Returning idle pUSD from Deposit Wallet failed")
checked_mined (some m) =
    if failed_state m then throw (codes "Returning idle pUSD from Deposit Wallet failed") else ok m

abbrev returned_movement : String → ℕ → Mined → Movement
returned_movement pool balance m = record {
  pool_id = pool;
  kind = return_;
  amount = base_units_to_decimal balance;
  status = movement_confirmed;
  tx_hash = some m.transaction_hash;
  proposal_hash = none;
}

module _ {W : Type 0} (trading : Trading W) (pool : String) where
  abbrev synced : Account → ℕ → Text → Mined → Db → W → Result Text Returned × (Db × W)
  synced account balance id mined db w =
      let (reply, w') = trading.sync_pool_returned_capital account.vault_address w in
      elim reply [
        | throw e ↦ (throw e, (db, w'))
        | ok hash ↦ (
          ok (record {
            amount_base_units = balance;
            relayer_transaction_hash = some mined.transaction_hash;
            sync_tx_hash = some hash;
          }),
          (upsert_movement (return_key id) (returned_movement pool balance mined) db, w'),
        )
      ]

  abbrev transferred : Account → ℕ → Db → W → Result Text Returned × (Db × W)
  transferred account balance db w =
      let (reply, w') = trading.transfer account balance w in
      elim reply [
        | throw e ↦ (throw e, (db, w'))
        | ok (id, mined) ↦ elim (checked_mined mined) [
          | throw e ↦ (throw e, (db, w'))
          | ok m ↦ synced account balance id m db w'
        ]
      ]

  unfoldable pub return_idle_pusd_to_vault : Db → W → Result Text Returned × (Db × W)
  return_idle_pusd_to_vault db w = elim (db.accounts pool) [
    | none ↦ (throw (codes "Pool Polymarket account not found"), (db, w))
    | some account ↦
        let (reply, w') = trading.balance_of account.deposit_wallet_address w in
        elim reply [
          | throw e ↦ (throw e, (db, w'))
          | ok zero ↦ (ok nothing_returned, (db, w'))
          | ok (suc n) ↦ transferred account (suc n) db w'
        ]
  ]
