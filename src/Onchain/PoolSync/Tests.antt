-- ===== src/Onchain/PoolSync/Tests.antt =====
-- Runs of the sync of a vault's events.
use team_index.Base.{
  ℕ, zero, suc, ◌≡◌, refl, List, [], ◌∷◌, true, false, none, some, Result, ok, throw, All, Text,
  codes, text_eq, to_lower, if◌then◌else◌, length, includes,
}
use team_index.Onchain.RpcError.{ErrorValue, scalar, is_rpc_rate_limit_error}
use team_index.Onchain.Failover.{
  BaseRpcError, rpc_rate_limited, with_base_rpc_retry, split_rpc_urls, url_loop,
}
use team_index.Onchain.PoolSync.{
  Vault, RpcEnv, read_vault_sync_snapshot, balances_pass, sync_vault_events_to_db,
}
use team_index.Onchain.PoolSync.Logs.{
  Log, Deposit, Transfer, FeeCharged, VaultSyncSnapshot, wanted, zero_address,
}
use team_index.Onchain.PoolSync.Booking.{PoolDb, SyncInputs, deposits_loop}
use team_index.Onchain.PoolSync.Touched.{touched_holders}
use team_index.Onchain.PoolSync.Deposits.{Once, Booked, deposits_again, deposits_loop-Once}
use team_index.Onchain.PoolSync.Balances.{Answers}
use team_index.Onchain.PoolSync.Whole.{Balanced, Closed, Kept, sync-Balanced, failed_sync-Kept}

abbrev alice : Text
alice = codes "0xAl"

abbrev deposit : Text → ℕ → ℕ → Log Deposit
deposit hash block shares = record {
  transaction_hash = hash;
  block_number = block;
  log_index = 1;
  args = record { owner = alice; assets = 100; shares = shares };
}

abbrev fee : Log FeeCharged
fee = record {
  transaction_hash = codes "0xA1";
  block_number = 7;
  log_index = 2;
  args = record { gross_assets = 102; fee_assets = 2; net_assets = 100 };
}

abbrev mint : Log Transfer
mint = record {
  transaction_hash = codes "0xA1";
  block_number = 7;
  log_index = 0;
  args = record { from = zero_address; to = alice };
}

-- Two deposits, the first of which stands twice
abbrev deposits : List (Log Deposit)
deposits =
    deposit (codes "0xA1") 7 50 ∷ deposit (codes "0xa1") 7 50 ∷ deposit (codes "0xB2") 8 30 ∷ []

abbrev empty_db : PoolDb
empty_db = record {
  users = [];
  transactions = [];
  cash = 0;
  total_token_supply = 0;
  last_synced_block = 6;
}

abbrev snap : VaultSyncSnapshot
snap = record {
  deposit_events = deposits;
  withdraw_events = [];
  transfer_events = mint ∷ [];
  fee_events = fee ∷ [];
  vault_cash = 200;
  total_supply = 80;
}

abbrev inputs : SyncInputs
inputs = record {
  official_token_price = 1;
  from_block = 7;
  to_block = 9;
  only_transaction_hashes = none;
  skip_cursor_advance = false;
}

abbrev env : RpcEnv
env = record { url = none; fallbacks = none; retry_base_ms = 250 }

abbrev busy : ErrorValue
busy = scalar (codes "429")

abbrev shares : Text → ℕ
shares key = if text_eq key (to_lower alice) then 80 else 0

-- The state counts the calls that still fail.
abbrev answer : Text → ℕ → Result ErrorValue ℕ × ℕ
answer address zero = (ok (shares (to_lower address)), zero)
answer address (suc k) = (throw busy, k)

abbrev vault : Vault ℕ
vault = record {
  snapshot = λ url from to w. (ok snap, w);
  balance_of = λ url address w. answer address w;
  sleep = λ ms w. w;
  random_below = λ n w. (0, w);
}

vault-Answers : Answers vault env shares
vault-Answers url address zero b h = cc h
vault-Answers url address (suc k) b h = absurd (cc h)

deposits_again_example :
    deposits_loop none 3 [] deposits (deposits_loop none 1 (fee ∷ []) deposits empty_db)
    ≡ deposits_loop none 1 (fee ∷ []) deposits empty_db
deposits_again_example = deposits_again none 1 3 (fee ∷ []) [] deposits empty_db

-- Two transactions of the three events
booked : length (deposits_loop none 1 (fee ∷ []) deposits empty_db).transactions ≡ 2
unfolding deposits_loop text_eq to_lower
booked = refl

deposits_loop-Once_example :
    Once (deposits_loop none 1 (fee ∷ []) deposits empty_db).transactions
    × All (Booked none (deposits_loop none 1 (fee ∷ []) deposits empty_db)) deposits
deposits_loop-Once_example = deposits_loop-Once none 1 (fee ∷ []) deposits empty_db tt

-- The first call for a balance is rate limited.
synced_once : (sync_vault_events_to_db vault env inputs empty_db 1).0 ≡ ok true
unfolding sync_vault_events_to_db with_base_rpc_retry split_rpc_urls url_loop touched_holders
    text_eq to_lower balances_pass is_rpc_rate_limit_error includes
synced_once = refl

abbrev synced : PoolDb
synced = (sync_vault_events_to_db vault env inputs empty_db 1).1.1

snapshot_read : (read_vault_sync_snapshot vault env 7 9 1).0 ≡ ok snap
unfolding with_base_rpc_retry split_rpc_urls url_loop
snapshot_read = refl

sync-Balanced_example :
    All (λ ev. wanted none ev.transaction_hash ≡ true → Balanced shares synced.users ev) (mint ∷ [])
    × Closed vault env shares vault-Answers inputs snap empty_db synced
sync-Balanced_example =
    sync-Balanced vault env shares vault-Answers inputs empty_db 1 snap true refl snapshot_read
      synced_once

abbrev rate_limited : BaseRpcError
rate_limited = record { code = rpc_rate_limited; cause = some busy }

sync_fails : (sync_vault_events_to_db vault env inputs empty_db 5).0 ≡ throw rate_limited
unfolding sync_vault_events_to_db with_base_rpc_retry split_rpc_urls url_loop touched_holders
    text_eq to_lower balances_pass is_rpc_rate_limit_error includes
sync_fails = refl

failed_sync-Kept_example : Kept empty_db (sync_vault_events_to_db vault env inputs empty_db 5).1.1
failed_sync-Kept_example = failed_sync-Kept vault env inputs empty_db 5 rate_limited sync_fails
