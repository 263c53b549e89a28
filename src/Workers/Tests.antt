-- ===== src/Workers/Tests.antt =====
-- Runs of the event cursors.
use team_index.Base.{
  ◌≡◌, ◌≢◌, refl, String, str_eq_iff, none, some, List, [], ◌∷◌, inr, arith, codes, to_lower,
}
use team_index.Workers.EventCursor.{
  CursorIdentity, CursorRow, Table, put, Thrown, lock_stale_ms, claim_chain_event_cursor,
  complete_chain_event_cursor, cursor_block_number,
}
use team_index.Workers.EventCursor.Locking.{
  Call, upsert, lock, complete, fail, calls, Held, Claimed, claim-Claimed, lock_exclusive,
}
use team_index.Base.{ℕ, ◌+◌, ◌≤◌, true, false, ok, All, length}
use team_index.Onchain.LogChunks.{Env, EnvVar, get_logs_block_chunk_size}
use team_index.Workers.VaultSync.{Pool, Services, settings, tick, pool_turn, plan}
use team_index.Workers.VaultSync.Budget.{tick_budget}
use team_index.Workers.VaultSync.Traced.{traced, Fits}

abbrev vault : CursorIdentity
vault = record {
  key = "polygon:0xab";
  chain = "polygon";
  contract_address = codes "0xAB";
  event_name = "VaultEvents";
  start_block = 70;
}

abbrev no_cursors : Table
no_cursors key = none

abbrev timeout : Thrown
timeout = record { message = some (codes "timeout"); short_message = none; printed = codes "Error" }

abbrev locked_at_5 : CursorRow
locked_at_5 = record {
  chain = "polygon";
  contract_address = codes "0xab";
  event_name = "VaultEvents";
  last_processed_block = 70;
  locked_at = some 5;
  locked_by = some "w1";
  cooldown_until = none;
  last_error = none;
}

abbrev locked : Table
locked = put no_cursors "polygon:0xab" locked_at_5

claim_runs : (claim_chain_event_cursor 100 vault "w1" 5 6 no_cursors).0 ≡ some locked_at_5
unfolding claim_chain_event_cursor to_lower
claim_runs = refl

stale_defaults : (lock_stale_ms (some 0) ≡ 120000) × (lock_stale_ms (some 7) ≡ 7)
unfolding lock_stale_ms
stale_defaults = (refl, refl)

claim-Claimed_example : Claimed 100 vault "w2" 50 60 (some locked_at_5) (
  (claim_chain_event_cursor 100 vault "w2" 50 60 locked).0,
  (claim_chain_event_cursor 100 vault "w2" 50 60 locked).1 "polygon:0xab",
)
claim-Claimed_example = claim-Claimed 100 vault "w2" 50 60 locked

abbrev busy : List Call
busy =
    upsert vault
    ∷ lock "polygon:0xab" "w2" 20 30
    ∷ complete "polygon:0xab" "w2" 99
    ∷ fail "polygon:0xab" "w3" timeout none
    ∷ []

w2≢w1 : ◌≢◌ {A = String} "w2" "w1"
w2≢w1 e = cc ((str_eq_iff "w2" "w1").1 e)

w3≢w1 : ◌≢◌ {A = String} "w3" "w1"
w3≢w1 e = cc ((str_eq_iff "w3" "w1").1 e)

lock_exclusive_example :
    ((claim_chain_event_cursor 100 vault "w4" 50 60 (calls 100 busy locked)).0 ≡ none)
    × Held "w1" 5 70
        ((claim_chain_event_cursor 100 vault "w4" 50 60 (calls 100 busy locked)).1 "polygon:0xab")
lock_exclusive_example =
    lock_exclusive 100 "polygon:0xab" "w1" 5 70 locked busy vault "w4" 50 60 (refl, refl, refl)
      (tt, (omega arith, (inr w2≢w1, (inr w3≢w1, tt)))) refl (omega arith)

abbrev no_settings : Env
no_settings name = EnvVar.unset

abbrev two_pools : List Pool
two_pools =
    record { id = "a"; vault_address = some "0xAB"; last_synced_block = none }
    ∷ record { id = "b"; vault_address = some "0xCD"; last_synced_block = some 9 }
    ∷ []

-- The world is a clock; the latest block is 5000 and each sync succeeds.
abbrev services : Services ℕ
services = record {
  active_pools = λ v. (ok two_pools, v);
  get_base_block_number = λ v. (ok 5000, v);
  vault_target = λ pool v. (ok "0xEF", v);
  make_cursor_worker_id = λ w. ("w", w);
  now = λ w. (w, w + 1);
  sync_vault_events_to_db = λ pool vault from to v. (ok tt, v);
  get_rpc_rate_limit_cooldown_until = λ w. (w, w);
  recalculate_official_prices = λ v. (ok tt, v);
}

tick_budget_example :
    (length
        (tick
          (traced services)
          120000
          (settings no_settings)
          (false, (no_cursors, ([], 7)))).1.1.1.0
      ≤ (settings no_settings).pools_per_tick)
    × All
        (Fits (settings no_settings).effective_max_blocks_per_tick)
        (tick
          (traced services)
          120000
          (settings no_settings)
          (false, (no_cursors, ([], 7)))).1.1.1.0
    × ((tick (traced services) 120000 (settings no_settings) (false, (no_cursors, ([], 7)))).1.0
        ≡ false)
    × (false ≡ true
        → (tick
            (traced services)
            120000
            (settings no_settings)
            (false, (no_cursors, ([], 7)))).1.1.1.0
          ≡ [])
tick_budget_example = tick_budget services 120000 no_settings false no_cursors 7

-- The tick reads the first hundred blocks of the first pool.
tick_runs :
    (tick (traced services) 120000 (settings no_settings) (false, (no_cursors, ([], 7)))).1.1.1.0
    ≡ (3000, 3099) ∷ []
unfolding tick settings claim_chain_event_cursor complete_chain_event_cursor pool_turn plan
    cursor_block_number get_logs_block_chunk_size
tick_runs = refl
