-- ===== src/Workers/VaultSync/Traced.antt =====
-- The block ranges that vaultSyncTicker.ts reads.
use team_index.Base.{ℕ, ◌+◌, ◌≤◌, ◌<◌, ◌≡◌, List, ◌∷◌, ◌⊎◌}
use team_index.Workers.VaultSync.{Services, Verdict, passed}

-- A block range that was read.
abbrev pub Range : Type 0
Range = ℕ × ℕ

-- Services that also keep the ranges, the latest first.
abbrev pub traced : {W : Type 0} → Services W → Services (List Range × W)
traced x = record {
  active_pools = λ v. (
    (x.active_pools (v.0, v.1.1)).0,
    ((x.active_pools (v.0, v.1.1)).1.0, (v.1.0, (x.active_pools (v.0, v.1.1)).1.1)),
  );
  get_base_block_number = λ v. (
    (x.get_base_block_number (v.0, v.1.1)).0,
    (
      (x.get_base_block_number (v.0, v.1.1)).1.0,
      (v.1.0, (x.get_base_block_number (v.0, v.1.1)).1.1),
    ),
  );
  vault_target = λ pool v. (
    (x.vault_target pool (v.0, v.1.1)).0,
    ((x.vault_target pool (v.0, v.1.1)).1.0, (v.1.0, (x.vault_target pool (v.0, v.1.1)).1.1)),
  );
  make_cursor_worker_id =
      λ v. ((x.make_cursor_worker_id v.1).0, (v.0, (x.make_cursor_worker_id v.1).1));
  now = λ v. ((x.now v.1).0, (v.0, (x.now v.1).1));
  sync_vault_events_to_db = λ pool vault from to v. (
    (x.sync_vault_events_to_db pool vault from to (v.0, v.1.1)).0,
    (
      (x.sync_vault_events_to_db pool vault from to (v.0, v.1.1)).1.0,
      ((from, to) ∷ v.1.0, (x.sync_vault_events_to_db pool vault from to (v.0, v.1.1)).1.1),
    ),
  );
  get_rpc_rate_limit_cooldown_until = λ v. (
    (x.get_rpc_rate_limit_cooldown_until v.1).0,
    (v.0, (x.get_rpc_rate_limit_cooldown_until v.1).1),
  );
  recalculate_official_prices = λ v. (
    (x.recalculate_official_prices (v.0, v.1.1)).0,
    (
      (x.recalculate_official_prices (v.0, v.1.1)).1.0,
      (v.1.0, (x.recalculate_official_prices (v.0, v.1.1)).1.1),
    ),
  );
}

-- A range with a block and with `most` blocks at most.
abbrev pub Fits : ℕ → Range → Type 0
Fits most (from, to) = (from ≤ to) × (to < from + most)

-- The ranges that a turn of a pool adds to those before: one at most, and none where it did not
-- claim the pool.
abbrev pub Added : ℕ → Verdict → List Range → List Range → Type 0
Added most passed before after = after ≡ before
Added most v before after = (after ≡ before) ⊎ ((r : Range) × ((after ≡ r ∷ before) × Fits most r))
