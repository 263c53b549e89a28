-- ===== src/Onchain/PoolSync/Booking.antt =====
-- src/onchain/poolSync.ts: deposits and withdrawals become rows of the pool's tables.
use team_index.Base.{
  ℕ, ◌+◌, ◌-◌, List, [], ◌∷◌, Bool, ◌&&◌, not, Option, none, some, leb, if◌then◌else◌, any, Text,
  text_eq, to_lower,
}
use team_index.Onchain.PoolSync.Logs.{
  Deposit, FeeCharged, Log, Transfer, Withdraw, is_missing, wanted,
}

-- A row of club_pool_users of the pool
pub record User : Type 0 where
  pub user_address : Text
  pub token_balance : ℕ
  pub shares_raw : ℕ
  pub last_transfer : Option (Log Transfer)

-- A row of club_pool_transactions of the pool
pub record Transaction : Type 0 where
  pub tx_hash : Text
  pub user_address : Text
  pub deposit_amount : ℕ
  pub net_pool_amount : ℕ
  pub fee_amount : ℕ
  pub token_price_at_mint : ℕ
  pub tokens_minted : ℕ

-- The tables as far as they are about the pool: its rows, and the fields of its row in club_pools.
-- `cash` is in base units of USDC, `total_token_supply` in 10^-6 of the column's unit.
pub record PoolDb : Type 0 where
  pub users : List User
  pub transactions : List Transaction
  pub cash : ℕ
  pub total_token_supply : ℕ
  pub last_synced_block : ℕ

pub record SyncInputs : Type 0 where
  pub official_token_price : ℕ
  pub from_block : ℕ
  pub to_block : ℕ
  pub only_transaction_hashes : Option (List Text)
  pub skip_cursor_advance : Bool

-- The last event with the hash, as `feeByTx` keeps it
abbrev pub fee_by_tx : Option (List Text) → Text → List (Log FeeCharged) → Option FeeCharged
fee_by_tx only key [] = none
fee_by_tx only key (ev ∷ evs) = elim (fee_by_tx only key evs) [
  | some fee ↦ some fee
  | none ↦
      if not (is_missing ev.transaction_hash)
        && (wanted only ev.transaction_hash && text_eq (to_lower ev.transaction_hash) key)
      then some ev.args
      else none
]

-- The balance of the owner is raised, or the row made.
abbrev pub credit : Text → ℕ → List User → List User
credit owner shares [] =
    (record { user_address = owner; token_balance = shares; shares_raw = 0; last_transfer = none })
    ∷ []
credit owner shares (u ∷ us) =
    let rest = credit owner shares us in
    if text_eq u.user_address owner
    then (record u { token_balance = u.token_balance + shares }) ∷ us
    else u ∷ rest

abbrev pub transaction_of : ℕ → Option FeeCharged → Log Deposit → Transaction
transaction_of price none ev = record {
  tx_hash = to_lower ev.transaction_hash;
  user_address = ev.args.owner;
  deposit_amount = ev.args.assets;
  net_pool_amount = ev.args.assets;
  fee_amount = 0;
  token_price_at_mint = price;
  tokens_minted = ev.args.shares;
}
transaction_of price (some fee) ev = record {
  tx_hash = to_lower ev.transaction_hash;
  user_address = ev.args.owner;
  deposit_amount = fee.gross_assets;
  net_pool_amount = fee.net_assets;
  fee_amount = fee.fee_assets;
  token_price_at_mint = price;
  tokens_minted = ev.args.shares;
}

abbrev pub is_recorded : Text → List Transaction → Bool
is_recorded key ts = any (λ t. text_eq t.tx_hash key) ts

abbrev pub is_deposit : Option (List Text) → Log Deposit → Bool
is_deposit only ev =
    not (is_missing ev.transaction_hash)
    && (not (is_missing ev.args.owner) && wanted only ev.transaction_hash)

-- A deposit that is not in the table yet
abbrev pub recorded : ℕ → Option FeeCharged → Log Deposit → PoolDb → PoolDb
recorded price fee ev db = record db {
  users = credit ev.args.owner ev.args.shares db.users;
  transactions = transaction_of price fee ev ∷ db.transactions;
}

abbrev pub deposit_turn :
    Option (List Text) → ℕ → List (Log FeeCharged) → Log Deposit → PoolDb → PoolDb
deposit_turn only price fees ev db =
    let key = to_lower ev.transaction_hash in
    if is_deposit only ev && not (is_recorded key db.transactions)
    then recorded price (fee_by_tx only key fees) ev db
    else db

unfoldable pub deposits_loop :
    Option (List Text) → ℕ → List (Log FeeCharged) → List (Log Deposit) → PoolDb → PoolDb
deposits_loop only price fees [] db = db
deposits_loop only price fees (ev ∷ evs) db =
    deposits_loop only price fees evs (deposit_turn only price fees ev db)

-- `updateMany` of the owner's row, if its balance is enough
abbrev debit : Text → ℕ → List User → List User
debit owner shares [] = []
debit owner shares (u ∷ us) =
    (if text_eq u.user_address owner && leb shares u.token_balance
      then record u { token_balance = u.token_balance - shares }
      else u)
    ∷ debit owner shares us

unfoldable pub withdraws_loop : Option (List Text) → List (Log Withdraw) → List User → List User
withdraws_loop only [] users = users
withdraws_loop only (ev ∷ evs) users = withdraws_loop only evs (
    if wanted only ev.transaction_hash && not (is_missing ev.args.owner)
    then debit ev.args.owner ev.args.shares users
    else users)
