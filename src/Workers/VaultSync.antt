-- ===== src/Workers/VaultSync.antt =====
-- src/workers/vaultSyncTicker.ts: the ticker that reads the vaults' events block range by block
-- range. A call that takes time may also change the table of cursors: other workers run meanwhile.
pub mod Traced
pub mod Budget
use Prim.Native.Char.{Char, code}
use Prim.Native.String.{◌++◌, ◌∷◌, []}
use team_index.Base.{
  ℕ, zero, suc, ◌+◌, ◌-◌, ◌*◌, ◌/◌, min, max, String, Text, codes, Option, none, some, Bool, true,
  false, Result, ok, throw, ◌<|>◌, List, ltb, leb, ◌==◌, if◌then◌else◌,
}
use team_index.Onchain.LogChunks.{
  Env, EnvVar, EnvNumber, unset, empty, value, floor, not_finite, negative,
  get_logs_block_chunk_size,
}
use team_index.Onchain.RpcError.{ErrorValue, is_rpc_rate_limit_error}
use team_index.Workers.EventCursor.{
  CursorIdentity, CursorRow, Table, Thrown, claim_chain_event_cursor, complete_chain_event_cursor,
  fail_chain_event_cursor, cursor_block_number,
}

-- `positiveIntFromEnv` of this file
abbrev positive_of : EnvVar → ℕ → ℕ
positive_of (value (floor (suc n))) fallback = suc n
positive_of _ fallback = fallback

abbrev non_negative_of : EnvVar → Option ℕ
non_negative_of (value (floor n)) = some n
non_negative_of _ = none

pub record Settings : Type 0 where
  pub configured_start_block : Option ℕ
  pub max_log_requests_per_tick : ℕ
  pub pools_per_tick : ℕ
  pub log_chunk_size : ℕ
  pub effective_max_blocks_per_tick : ℕ

abbrev event_log_filters_per_sync : ℕ
event_log_filters_per_sync = 4

abbrev pub max_blocks_by_rpc_budget : ℕ → ℕ → ℕ
max_blocks_by_rpc_budget max_log_requests chunk =
    max 1 (max_log_requests / event_log_filters_per_sync * chunk)

unfoldable pub settings : Env → Settings
settings env =
    let max_log_requests = positive_of (env "VAULT_SYNC_MAX_LOG_REQUESTS_PER_TICK") 40 in
    let chunk = get_logs_block_chunk_size env (some "BASE_GETLOGS_BLOCK_CHUNK") in
    record {
      configured_start_block = non_negative_of (env "VAULT_SYNC_START_BLOCK");
      max_log_requests_per_tick = max_log_requests;
      pools_per_tick = positive_of (env "VAULT_SYNC_POOLS_PER_TICK") 1;
      log_chunk_size = chunk;
      effective_max_blocks_per_tick =
          min (positive_of (env "VAULT_SYNC_MAX_BLOCKS_PER_TICK") 100)
            (max_blocks_by_rpc_budget max_log_requests chunk);
    }

pub record Pool : Type 0 where
  pub id : String
  pub vault_address : Option String
  -- `riskParams.lastSyncedBlock`, where it is a finite number
  pub last_synced_block : Option ℕ

-- An error, as `isRpcRateLimitError` and as `truncateError` read it
pub record Failure : Type 0 where
  pub error : ErrorValue
  pub thrown : Thrown

-- What a tick calls. `W` is the state of all of these; new Date() is `now`.
pub record Services (W : Type 0) : Type 0 where
  pub active_pools : Table × W → Result Failure (List Pool) × (Table × W)
  pub get_base_block_number : Table × W → Result Failure ℕ × (Table × W)
  pub vault_target : Pool → Table × W → Result Failure String × (Table × W)
  pub make_cursor_worker_id : W → String × W
  pub now : W → ℕ × W
  pub sync_vault_events_to_db :
      Pool → String → ℕ → ℕ → Table × W → Result Failure (Unit {0}) × (Table × W)
  pub get_rpc_rate_limit_cooldown_until : W → ℕ × W
  pub recalculate_official_prices : Table × W → Result Failure (Unit {0}) × (Table × W)

-- `toLowerCase` of an ASCII character
abbrev lower_letter : String → String → Char → Char
lower_letter (u ∷ us) (l ∷ ls) c = if code u == code c then l else lower_letter us ls c
lower_letter _ _ c = c

abbrev lower : String → String
lower [] = []
lower (c ∷ s) = lower_letter "ABCDEFGHIJKLMNOPQRSTUVWXYZ" "abcdefghijklmnopqrstuvwxyz" c ∷ lower s

abbrev cursor_key : String → String → String
cursor_key vault pool = "polygon:" ++ lower vault ++ ":VaultEvents:" ++ pool

-- What became of a pool: not claimed, claimed without success, synced, or rate limited.
pub data Verdict : Type 0 where
  passed claimed synced limited : Verdict

-- The blocks to read next
pub data Plan : Type 0 where
  up_to_date : Plan
  range : ℕ → ℕ → Plan

unfoldable pub plan : ℕ → ℕ → ℕ → Plan
plan most latest last =
    if leb latest last then up_to_date else range (last + 1) (min latest (last + most))

abbrev or_else {ℓ} : {A : Type ℓ} → Option A → A → A
or_else none d = d
or_else (some a) d = a

module _ {W : Type 0} (services : Services W) (lock_stale_ms : ℕ) (s : Settings) (latest : ℕ) where
  abbrev failed_sync : Bool → String → String → Failure → Table → W → Verdict × (Table × W)
  failed_sync false key worker e t w =
      (claimed, (fail_chain_event_cursor key worker e.thrown none t, w))
  failed_sync true key worker e t w =
      let (until, w') = services.get_rpc_rate_limit_cooldown_until w in
      (limited, (fail_chain_event_cursor key worker e.thrown (some until) t, w'))

  abbrev after_sync :
      Result Failure (Unit {0}) → String → String → ℕ → Table → W → Verdict × (Table × W)
  after_sync (ok _) key worker to t w = (synced, (complete_chain_event_cursor key worker to t, w))
  after_sync (throw e) key worker to t w =
      failed_sync (is_rpc_rate_limit_error e.error) key worker e t w

  abbrev pub follow : Plan → Pool → String → String → String → ℕ → Table → W → Verdict × (Table × W)
  follow up_to_date pool vault key worker last t w =
      (claimed, (complete_chain_event_cursor key worker last t, w))
  follow (range from to) pool vault key worker last t w =
      let (reply, s') = services.sync_vault_events_to_db pool vault from to (t, w) in
      after_sync reply key worker to s'.0 s'.1

  -- `Math.max(cursorBlock, lastSynced ?? 0)`
  abbrev pub last_processed : Pool → CursorRow → ℕ
  last_processed pool row = max (cursor_block_number row) (or_else pool.last_synced_block 0)

  abbrev pub with_cursor :
      Option CursorRow → Pool → String → String → String → Table → W → Verdict × (Table × W)
  with_cursor none pool vault key worker t w = (passed, (t, w))
  with_cursor (some row) pool vault key worker t w =
      let last = last_processed pool row in
      follow (plan s.effective_max_blocks_per_tick latest last) pool vault key worker last t w

  abbrev pub cursor_of : Pool → String → CursorIdentity
  cursor_of pool vault = record {
    key = cursor_key vault pool.id;
    chain = "polygon";
    contract_address = codes vault;
    event_name = "VaultEvents";
    start_block = or_else (pool.last_synced_block <|> s.configured_start_block) (latest - 2001);
  }

  abbrev pub with_vault : Pool → Result Failure String → Table → W → Verdict × (Table × W)
  with_vault pool (throw e) t w = (passed, (t, w))
  with_vault pool (ok vault) t w =
      let (worker, w1) = services.make_cursor_worker_id w in
      let (now, w2) = services.now w1 in
      let (at, w3) = services.now w2 in
      let (cursor, t') =
        claim_chain_event_cursor lock_stale_ms (cursor_of pool vault) worker now at t in
      with_cursor cursor pool vault (cursor_key vault pool.id) worker t' w3

  -- An address that is null or empty is resolved.
  abbrev pub resolved : Pool → Option String → Table → W → Result Failure String × (Table × W)
  resolved pool none t w = services.vault_target pool (t, w)
  resolved pool (some []) t w = services.vault_target pool (t, w)
  resolved pool (some (c ∷ vault)) t w = (ok (c ∷ vault), (t, w))

  unfoldable pub pool_turn : Pool → Table × W → Verdict × (Table × W)
  pool_turn pool v =
      let (vault, v') = resolved pool pool.vault_address v.0 v.1 in with_vault pool vault v'.0 v'.1

  -- What follows a pool's turn that was not in excess: the rest of the loop, or `break`.
  abbrev pub next :
      (ℕ → Bool → Table × W → Bool × (Table × W))
      → Verdict
      → ℕ
      → Bool
      → Table × W
      → Bool × (Table × W)
  next loop passed count did v = loop count did v
  next loop claimed count did v = loop (count + 1) did v
  next loop synced count did v = loop (count + 1) true v
  next loop limited count did v = (did, v)

  -- The `for` loop, with `claimedPools` and `didAnySync`
  unfoldable pub pools_loop : List Pool → ℕ → Bool → Table × W → Bool × (Table × W)
  pools_loop List.[] count did v = (did, v)
  pools_loop (List.◌∷◌ pool pools) count did v =
      let (verdict, v') = pool_turn pool v in
      let rest = next (λ n d u. pools_loop pools n d u) verdict count did v' in
      if leb s.pools_per_tick count then (did, v) else rest

module _ {W : Type 0} (services : Services W) (lock_stale_ms : ℕ) (s : Settings) where
  abbrev recalculated : Bool × (Table × W) → Table × W
  recalculated (false, v) = v
  recalculated (true, v) = (services.recalculate_official_prices v).1

  abbrev pub with_block :
      List Pool → Result Failure ℕ → Table × W → Result Failure (Unit {0}) × (Table × W)
  with_block pools (throw e) v = (throw e, v)
  with_block pools (ok latest) v =
      (ok tt, recalculated (pools_loop services lock_stale_ms s latest pools 0 false v))

  abbrev pub with_pools :
      Result Failure (List Pool) → Table × W → Result Failure (Unit {0}) × (Table × W)
  with_pools (throw e) v = (throw e, v)
  with_pools (ok List.[]) v = (ok tt, v)
  with_pools (ok (List.◌∷◌ pool pools)) v =
      let (latest, v') = services.get_base_block_number v in
      with_block (List.◌∷◌ pool pools) latest v'

  -- A tick; the first component of the state is `isTicking`.
  unfoldable pub tick : Bool × (Table × W) → Result Failure (Unit {0}) × (Bool × (Table × W))
  unfolding pools_loop
  tick (true, v) = (ok tt, (true, v))
  tick (false, v) =
      let (pools, v') = services.active_pools v in
      let (reply, v'') = with_pools pools v' in (reply, (false, v''))
