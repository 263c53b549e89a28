-- ===== src/Onchain/PoolSync/Whole.antt =====
-- src/onchain/poolSync.ts: a whole sync, with its RPC failures.
use team_index.Base.{
  ℕ, ◌*◌, ◌^◌, ◌≡◌, refl, List, [], ◌∷◌, Bool, true, false, Option, some, Result, ok, throw, arith,
  All, ◌&&◌, not, Text, text_eq, text_eq→eq, to_lower, Bool-cases, inl, inr, if◌then◌else◌, ltb,
  ◌∙◌,
}
use team_index.Onchain.Failover.{BaseRpcError}
use team_index.Onchain.Failover.Success.{with_base_rpc_retry-Good}
use team_index.Onchain.PoolSync.{
  Vault, RpcEnv, balances_node, holders_synced, finished, advanced, holders_of, with_history,
  with_snapshot, read_vault_sync_snapshot, sync_vault_events_to_db,
}
use team_index.Onchain.PoolSync.Logs.{
  Log, Transfer, VaultSyncSnapshot, sort_logs, wanted, only_set, FeeCharged, Deposit,
}
use team_index.Onchain.PoolSync.Booking.{
  User, PoolDb, SyncInputs, deposit_turn, deposits_loop, is_deposit, is_recorded,
}
use team_index.Onchain.PoolSync.Touched.{Holder, is_holder}
use team_index.Onchain.PoolSync.Sorted.{All-sort_logs, All-imp}
use team_index.Onchain.PoolSync.Holders.{
  is_key, Keyed, Touched, touched_holders-Keyed, touched_holders-Touched,
}
use team_index.Onchain.PoolSync.Balances.{balance_at, Answers, Synced, pass-Synced}

-- The cash, the supply and the cursor stay.
abbrev pub Kept : PoolDb → PoolDb → Type 0
Kept db db' =
    (db'.cash ≡ db.cash)
    × (db'.total_token_supply ≡ db.total_token_supply)
    × (db'.last_synced_block ≡ db.last_synced_block)

turn-Kept :
    (only : Option (List Text)) (price : ℕ) (fees : List (Log FeeCharged)) (ev : Log Deposit)
    (db : PoolDb)
    → Kept db (deposit_turn only price fees ev db)
turn-Kept only price fees ev db =
    elim (Bool-cases
      (is_deposit only ev && not (is_recorded (to_lower ev.transaction_hash) db.transactions))) [
        | inl e ↦ rw e (refl, refl, refl)
        | inr e ↦ rw e (refl, refl, refl)
      ]

loop-Kept :
    (only : Option (List Text)) (price : ℕ) (fees : List (Log FeeCharged))
    (evs : List (Log Deposit)) (db : PoolDb)
    → Kept db (deposits_loop only price fees evs db)
unfolding deposits_loop
loop-Kept only price fees [] db = (refl, refl, refl)
loop-Kept only price fees (ev ∷ evs) db =
    let k = turn-Kept only price fees ev db in
    let h = loop-Kept only price fees evs (deposit_turn only price fees ev db) in
    (h.0 ∙ k.0, h.1 ∙ k.1, h.2 ∙ k.2)

module _ (shares : Text → ℕ) where
  -- The rows of a transfer's addresses have the vault's balances.
  abbrev pub Balanced : List User → Log Transfer → Type 0
  Balanced users ev =
      (is_holder ev.args.from ≡ true
        → balance_at (to_lower ev.args.from) users ≡ some (shares (to_lower ev.args.from)))
      × (is_holder ev.args.to ≡ true
          → balance_at (to_lower ev.args.to) users ≡ some (shares (to_lower ev.args.to)))

  key-Synced :
      (key : Text) (hs : List Holder) (users : List User)
      → is_key key hs ≡ true
      → All (λ h. balance_at h.key users ≡ some (shares h.key)) hs
      → balance_at key users ≡ some (shares key)
  key-Synced key [] users e h = absurd (cc e)
  key-Synced key (h ∷ hs) users e (s, k) = elim (Bool-cases (text_eq h.key key)) [
    | inl a ↦ let same = text_eq→eq h.key key a in rw same at s
    | inr a ↦ key-Synced key hs users (ground arith) k
  ]

module _ {W : Type 0} (vault : Vault W) (env : RpcEnv) (shares : Text → ℕ)
    (answers : Answers vault env shares) where
  holders_synced-Synced :
      (hs : List Holder) (users : List User) (w : W) (b : Bool)
      → Keyed hs
      → (holders_synced vault env hs users w).0 ≡ ok b
      → All (Synced vault env shares (holders_synced vault env hs users w).1.1) hs
  holders_synced-Synced [] users w b k o = tt
  holders_synced-Synced (h ∷ hs) users w b k o =
      with_base_rpc_retry-Good (balances_node vault env (h ∷ hs)) 1 env.retry_base_ms
        (λ c s. All (Synced vault env shares s.1) (h ∷ hs))
        (λ url s c e. pass-Synced vault env shares url (h ∷ hs) s.1 s.0 c answers k e) env.url
        env.fallbacks (w, users) b o

  advanced-users :
      (skip : Bool) (to_block : ℕ) (db : PoolDb)
      → (advanced vault env skip to_block db).users ≡ db.users
  advanced-users true to_block db = refl
  advanced-users false to_block db = refl

  -- The pool's fields are those of the snapshot, its supply without a shift to decimals, and the cursor stands at the end of the window, unless
  -- it is not to be advanced.
  abbrev pub Closed : SyncInputs → VaultSyncSnapshot → PoolDb → PoolDb → Type 0
  Closed inputs snap before db =
      (db.cash ≡ snap.vault_cash)
      × (db.total_token_supply ≡ snap.total_supply * 10 ^ 6)
      × (db.last_synced_block
          ≡ (if inputs.skip_cursor_advance then before.last_synced_block else inputs.to_block))

  finished-ok :
      (inputs : SyncInputs) (snap : VaultSyncSnapshot) (before db : PoolDb)
      (out : Result BaseRpcError Bool × (W × List User)) (b : Bool)
      → db.last_synced_block ≡ before.last_synced_block
      → (finished vault env inputs snap db out).0 ≡ ok b
      → (out.0 ≡ ok b)
        × ((finished vault env inputs snap db out).1.1.users ≡ out.1.1)
        × Closed inputs snap before (finished vault env inputs snap db out).1.1
  finished-ok inputs snap before db (throw e, (w, users)) b k o = absurd (cc o)
  finished-ok inputs snap before db (ok c, (w, users)) b k o =
      elim (Bool-cases inputs.skip_cursor_advance) [
        | inl s ↦ rw s (o, refl, (refl, refl, k))
        | inr s ↦ rw s (o, refl, (refl, refl, refl))
      ]

  balanced :
      (inputs : SyncInputs) (snap : VaultSyncSnapshot) (users : List User)
      → All (Synced vault env shares users) (holders_of vault env inputs snap)
      → All
          (λ ev.
            wanted (only_set inputs.only_transaction_hashes) ev.transaction_hash ≡ true
            → Balanced shares users ev)
          snap.transfer_events
  balanced inputs snap users h =
      let only = only_set inputs.only_transaction_hashes in
      let evs = sort_logs [] snap.transfer_events in
      let hs = holders_of vault env inputs snap in
      let sorted =
        All-imp (λ ev. wanted only ev.transaction_hash ≡ true → Touched ev hs)
          (λ ev. wanted only ev.transaction_hash ≡ true → Balanced shares users ev) evs
          (λ ev t a. (
            λ k. key-Synced shares (to_lower ev.args.from) hs users ((t a).0 k) h,
            λ k. key-Synced shares (to_lower ev.args.to) hs users ((t a).1 k) h,
          ))
          (touched_holders-Touched only evs [] tt) in
      (All-sort_logs (λ ev. wanted only ev.transaction_hash ≡ true → Balanced shares users ev)
        snap.transfer_events [] sorted).1

  with_snapshot-ok :
      (inputs : SyncInputs) (db : PoolDb) (snap : VaultSyncSnapshot) (w : W) (b : Bool)
      → (with_snapshot vault env inputs db (ok snap, w)).0 ≡ ok b
      → let db' = (with_snapshot vault env inputs db (ok snap, w)).1.1 in
        All
          (λ ev.
            wanted (only_set inputs.only_transaction_hashes) ev.transaction_hash ≡ true
            → Balanced shares db'.users ev)
          snap.transfer_events
        × Closed inputs snap db db'
  with_snapshot-ok inputs db snap w b o =
      let only = only_set inputs.only_transaction_hashes in
      let hs = holders_of vault env inputs snap in
      let db' = with_history vault env inputs snap db in
      let out = holders_synced vault env hs db'.users w in
      let kept =
        loop-Kept only inputs.official_token_price snap.fee_events
          (sort_logs [] snap.deposit_events) db in
      let f = finished-ok inputs snap db db' out b kept.2 o in
      let keyed = touched_holders-Keyed only (sort_logs [] snap.transfer_events) [] tt in
      (
        rw f.1 (balanced inputs snap out.1.1 (holders_synced-Synced hs db'.users w b keyed f.0)),
        f.2,
      )

  -- Where the vault's balances do not change during the sync, nor with the case of an address, a sync of
  -- a window that is not empty, whose snapshot was read and which succeeds leaves: for every transfer
  -- that is asked for, in whatever order the logs came and however often calls failed and were tried
  -- again, the first row of each of its addresses, but the zero address, with the vault's balance of
  -- it; the cash of the snapshot, and its supply as the whole number of base units; and the cursor at the
  -- end of the window, unless it is not to be advanced.
  pub sync-Balanced :
      (inputs : SyncInputs) (db : PoolDb) (w : W) (snap : VaultSyncSnapshot) (b : Bool)
      → ltb inputs.to_block inputs.from_block ≡ false
      → (read_vault_sync_snapshot vault env inputs.from_block inputs.to_block w).0 ≡ ok snap
      → (sync_vault_events_to_db vault env inputs db w).0 ≡ ok b
      → let db' = (sync_vault_events_to_db vault env inputs db w).1.1 in
        All
          (λ ev.
            wanted (only_set inputs.only_transaction_hashes) ev.transaction_hash ≡ true
            → Balanced shares db'.users ev)
          snap.transfer_events
        × Closed inputs snap db db'
  unfolding sync_vault_events_to_db
  sync-Balanced inputs db w snap b e r o =
      let v = (read_vault_sync_snapshot vault env inputs.from_block inputs.to_block w).1 in
      let o' : (with_snapshot vault env inputs db (ok snap, v)).0 ≡ ok b = rw (e, r) at o in
      rw (e, r) (with_snapshot-ok inputs db snap v b o')

module _ {W : Type 0} (vault : Vault W) (env : RpcEnv) where
  finished-Kept :
      (inputs : SyncInputs) (snap : VaultSyncSnapshot) (before db : PoolDb)
      (out : Result BaseRpcError Bool × (W × List User)) (e : BaseRpcError)
      → Kept before db
      → (finished vault env inputs snap db out).0 ≡ throw e
      → Kept before (finished vault env inputs snap db out).1.1
  finished-Kept inputs snap before db (throw e', (w, users)) e k o = k
  finished-Kept inputs snap before db (ok c, (w, users)) e k o = absurd (cc o)

  read-Kept :
      (inputs : SyncInputs) (db : PoolDb) (r : Result BaseRpcError VaultSyncSnapshot × W)
      (e : BaseRpcError)
      → (with_snapshot vault env inputs db r).0 ≡ throw e
      → Kept db (with_snapshot vault env inputs db r).1.1
  read-Kept inputs db (throw e', w) e o = (refl, refl, refl)
  read-Kept inputs db (ok snap, w) e o =
      let only = only_set inputs.only_transaction_hashes in
      let db' = with_history vault env inputs snap db in
      finished-Kept inputs snap db db'
        (holders_synced vault env (holders_of vault env inputs snap) db'.users w) e
        (loop-Kept only inputs.official_token_price snap.fee_events
          (sort_logs [] snap.deposit_events) db)
        o

  -- A sync that fails, in the read of the snapshot or of a balance, changes neither the pool's cash and
  -- supply nor its last synced block.
  pub failed_sync-Kept :
      (inputs : SyncInputs) (db : PoolDb) (w : W) (e : BaseRpcError)
      → (sync_vault_events_to_db vault env inputs db w).0 ≡ throw e
      → Kept db (sync_vault_events_to_db vault env inputs db w).1.1
  unfolding sync_vault_events_to_db
  failed_sync-Kept inputs db w e o = elim (Bool-cases (ltb inputs.to_block inputs.from_block)) [
    | inl t ↦ absurd (cc (rw t at o))
    | inr f ↦
        let r = read_vault_sync_snapshot vault env inputs.from_block inputs.to_block w in
        rw f (read-Kept inputs db r e (rw f at o))
  ]
