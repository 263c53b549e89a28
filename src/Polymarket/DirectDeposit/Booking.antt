-- ===== src/Polymarket/DirectDeposit/Booking.antt =====
-- src/polymarket/directVaultDeposit.ts: the rows that a confirmed deposit writes. Cash, values and supply are
-- in 10^-6 of their columns' unit, prices in 10^-18.
use team_index.Base.{
  ℕ, ◌-◌, ◌*◌, ◌/◌, ◌^◌, List, [], ◌∷◌, Bool, none, Text, text_eq, to_lower, ◌==◌, if◌then◌else◌,
}
use team_index.Onchain.PoolSync.Booking.{User, Transaction, PoolDb, is_recorded}

pub record DepositEvent : Type 0 where
  pub owner : Text
  pub assets : ℕ
  pub shares : ℕ

pub record Totals : Type 0 where
  pub balance : ℕ
  pub cash : ℕ
  pub total_assets : ℕ
  pub total_supply : ℕ

-- A row of club_pool_price_snapshots
pub record DepositSnapshot : Type 0 where
  pub cash : ℕ
  pub positions_value : ℕ
  pub total_pool_value : ℕ
  pub official_token_price : ℕ

-- The rows of a pool that a deposit changes; those of a synchronisation are among them.
pub record DepositDb : Type 0 where
  pub booked : PoolDb
  pub total_pool_value : ℕ
  pub official_token_price : ℕ
  pub snapshots : List DepositSnapshot

abbrev pub price_of_totals : Totals → ℕ
price_of_totals t =
    if t.total_supply == 0 then 10 ^ 18 else t.total_assets * 10 ^ 18 / t.total_supply

abbrev pub transaction_row : Text → DepositEvent → Transaction
transaction_row hash d = record {
  tx_hash = hash;
  user_address = to_lower d.owner;
  deposit_amount = d.assets;
  net_pool_amount = d.assets;
  fee_amount = 0;
  token_price_at_mint = d.assets * 10 ^ 18 / d.shares;
  tokens_minted = d.shares;
}

-- By the unique user of the pool
abbrev pub upsert_user : Text → ℕ → List User → List User
upsert_user address balance [] =
    (record {
      user_address = address;
      token_balance = balance;
      shares_raw = balance;
      last_transfer = none;
    })
    ∷ []
upsert_user address balance (u ∷ us) =
    let rest = upsert_user address balance us in
    if text_eq u.user_address address
    then record u { token_balance = balance; shares_raw = balance } ∷ us
    else u ∷ rest

abbrev pub snapshot_of : Totals → DepositSnapshot
snapshot_of t = record {
  cash = t.cash;
  positions_value = t.total_assets - t.cash;
  total_pool_value = t.total_assets;
  official_token_price = price_of_totals t;
}

abbrev pub with_transaction : Bool → Transaction → List Transaction → List Transaction
with_transaction existing row ts = if existing then ts else row ∷ ts

abbrev pub with_snapshot : Bool → DepositSnapshot → List DepositSnapshot → List DepositSnapshot
with_snapshot existing s ss = if existing then ss else s ∷ ss

-- The transaction, for a hash in lower case
unfoldable pub stored : Text → DepositEvent → Totals → DepositDb → DepositDb
stored hash d t db =
    let existing = is_recorded hash db.booked.transactions in
    record {
      booked = record db.booked {
        users = upsert_user (to_lower d.owner) t.balance db.booked.users;
        transactions = with_transaction existing (transaction_row hash d) db.booked.transactions;
        cash = t.cash;
        total_token_supply = t.total_supply;
      };
      total_pool_value = t.total_assets;
      official_token_price = price_of_totals t;
      snapshots = with_snapshot existing (snapshot_of t) db.snapshots;
    }
