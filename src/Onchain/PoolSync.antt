-- ===== src/Onchain/PoolSync.antt =====
-- src/onchain/poolSync.ts: a vault's events become the transactions and balances of the pool's holders.
pub mod Logs
pub mod Booking
pub mod Touched
pub mod Deposits
pub mod Holders
pub mod Balances
pub mod Sorted
pub mod Whole
mod Tests
use team_index.Base.{
  ℕ, zero, suc, ◌+◌, ◌-◌, ◌*◌, ◌^◌, List, [], ◌∷◌, map, Bool, true, false, ◌||◌, ◌&&◌, not, Option,
  none, some, Result, ok, throw, ◌==◌, ltb, leb, if◌then◌else◌, any, Text, codes, text_eq, to_lower,
}
use team_index.Onchain.RpcError.{ErrorValue}
use team_index.Onchain.Failover.{Node, BaseRpcError, with_base_rpc_retry}
use team_index.Onchain.PoolSync.Logs.{
  Deposit, FeeCharged, Log, Transfer, VaultSyncSnapshot, Withdraw, insert_log, is_after, is_missing,
  only_set, sort_logs, wanted, zero_address,
}
use team_index.Onchain.PoolSync.Booking.{
  PoolDb, SyncInputs, Transaction, User, credit, deposit_turn, deposits_loop, fee_by_tx, is_deposit,
  is_recorded, recorded, transaction_of, withdraws_loop,
}
use team_index.Onchain.PoolSync.Touched.{
  Holder, add_touched_holder, is_holder, newer, put_holder, touched_by, touched_holders,
  upsert_synced_holder_balance,
}

-- The vault on the chain by RPC URL, the timer and the random source. `snapshot` reads the events from
-- block to block, the cash and the supply.
pub record Vault (W : Type 0) : Type 0 where
  pub snapshot : Text → ℕ → ℕ → W → Result ErrorValue VaultSyncSnapshot × W
  pub balance_of : Text → Text → W → Result ErrorValue ℕ × W
  pub sleep : ℕ → W → W
  pub random_below : ℕ → W → ℕ × W

-- BASE_RPC_URL, BASE_RPC_FALLBACK_URLS and the base of the pauses
pub record RpcEnv : Type 0 where
  pub url : Option Text
  pub fallbacks : Option Text
  pub retry_base_ms : ℕ

module _ {W : Type 0} (vault : Vault W) (env : RpcEnv) where
  abbrev snapshot_node : ℕ → ℕ → Node W VaultSyncSnapshot
  snapshot_node from_block to_block = record {
    operation = λ url w. vault.snapshot url from_block to_block w;
    sleep = vault.sleep;
    random_below = vault.random_below;
  }

  abbrev pub read_vault_sync_snapshot : ℕ → ℕ → W → Result BaseRpcError VaultSyncSnapshot × W
  read_vault_sync_snapshot from_block to_block w =
      with_base_rpc_retry (snapshot_node from_block to_block) 1 env.retry_base_ms env.url
        env.fallbacks w

  abbrev pub balance_answered :
      Result ErrorValue ℕ
      → Holder
      → (List User → W → Result ErrorValue Bool × (W × List User))
      → List User
      → W
      → Result ErrorValue Bool × (W × List User)
  balance_answered (ok balance) h next users w =
      next (upsert_synced_holder_balance h balance users) w
  balance_answered (throw e) h next users w = (throw e, (w, users))

  -- The balances of the holders, one after the other; `ok`: all of them are in the table.
  unfoldable pub balances_pass :
      Text → List Holder → List User → W → Result ErrorValue Bool × (W × List User)
  balances_pass url [] users w = (ok true, (w, users))
  balances_pass url (h ∷ hs) users w =
      let (reply, w') = vault.balance_of url h.address w in
      balance_answered reply h (λ us v. balances_pass url hs us v) users w'

  abbrev pub balances_node : List Holder → Node (W × List User) Bool
  balances_node holders = record {
    operation = λ url s. balances_pass url holders s.1 s.0;
    sleep = λ ms s. (vault.sleep ms s.0, s.1);
    random_below = λ n s. let (r, w') = vault.random_below n s.0 in (r, (w', s.1));
  }

  abbrev pub holders_synced :
      List Holder → List User → W → Result BaseRpcError Bool × (W × List User)
  holders_synced [] users w = (ok true, (w, users))
  holders_synced (h ∷ hs) users w =
      with_base_rpc_retry (balances_node (h ∷ hs)) 1 env.retry_base_ms env.url env.fallbacks
        (w, users)

  abbrev pub advanced : Bool → ℕ → PoolDb → PoolDb
  advanced true to_block db = db
  advanced false to_block db = record db { last_synced_block = to_block }

  -- The cash, the supply and the cursor, once the balances are in the table
  abbrev pub finished :
      SyncInputs
      → VaultSyncSnapshot
      → PoolDb
      → Result BaseRpcError Bool × (W × List User)
      → Result BaseRpcError Bool × (W × PoolDb)
  finished inputs snap db (throw e, (w, users)) = (throw e, (w, record db { users = users }))
  finished inputs snap db (ok b, (w, users)) = (
    ok b,
    (
      w,
      advanced inputs.skip_cursor_advance inputs.to_block (record db {
        users = users;
        cash = snap.vault_cash;
        total_token_supply = snap.total_supply * 10 ^ 6;
      }),
    ),
  )

  abbrev pub holders_of : SyncInputs → VaultSyncSnapshot → List Holder
  holders_of inputs snap =
      touched_holders (only_set inputs.only_transaction_hashes) (sort_logs [] snap.transfer_events)
        []

  -- The deposits and the withdrawals of the snapshot
  abbrev pub with_history : SyncInputs → VaultSyncSnapshot → PoolDb → PoolDb
  with_history inputs snap db =
      let only = only_set inputs.only_transaction_hashes in
      let db' =
        deposits_loop only inputs.official_token_price snap.fee_events
          (sort_logs [] snap.deposit_events) db in
      record db' { users = withdraws_loop only (sort_logs [] snap.withdraw_events) db'.users }

  abbrev pub with_snapshot :
      SyncInputs
      → PoolDb
      → Result BaseRpcError VaultSyncSnapshot × W
      → Result BaseRpcError Bool × (W × PoolDb)
  with_snapshot inputs db (throw e, w) = (throw e, (w, db))
  with_snapshot inputs db (ok snap, w) =
      let db' = with_history inputs snap db in
      finished inputs snap db' (holders_synced (holders_of inputs snap) db'.users w)

  -- `ok`: synced, or nothing to do
  unfoldable pub sync_vault_events_to_db :
      SyncInputs → PoolDb → W → Result BaseRpcError Bool × (W × PoolDb)
  sync_vault_events_to_db inputs db w =
      if ltb inputs.to_block inputs.from_block
      then (ok true, (w, db))
      else with_snapshot inputs db (read_vault_sync_snapshot inputs.from_block inputs.to_block w)
