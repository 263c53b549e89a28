-- ===== src/Workers/VaultSync/Budget.antt =====
-- How much a tick of vaultSyncTicker.ts asks of the node, and how its block ranges follow each other.
use team_index.Base.{
  ℕ, zero, suc, ◌+◌, ◌*◌, ◌/◌, ◌≤◌, ◌<◌, max, ◌≡◌, refl, List, [], ◌∷◌, Bool, true, false, Option,
  none, some, Result, ok, throw, arith, String, length, All, leb, if◌then◌else◌, inl, inr, ◌⊎◌,
}
use team_index.Onchain.LogChunks.{Env, get_logs_block_chunk_size}
use team_index.Workers.EventCursor.{Table, CursorRow}
use team_index.Workers.VaultSync.{
  Settings, settings, Pool, Services, Failure, Verdict, passed, claimed, synced, limited, Plan,
  up_to_date, range, plan, pool_turn, pools_loop, with_block, with_pools, tick, follow, with_cursor,
  with_vault, resolved, next, recalculated, positive_of, last_processed,
}
use team_index.Workers.VaultSync.Traced.{Added, Fits, Range, traced}

module _ {W : Type 0} (x : Services W) (ms : ℕ) (s : Settings) (latest : ℕ) where
  abbrev Turn : List Range → Verdict × (Table × (List Range × W)) → Type 0
  Turn before o = Added s.effective_max_blocks_per_tick o.0 before o.1.1.0

  follow-Added :
      (p : Plan) (pool : Pool) (vault key worker : String) (last : ℕ) (t : Table) (es : List Range)
      (w : W)
      → ((from to : ℕ) → p ≡ range from to → Fits s.effective_max_blocks_per_tick (from, to))
      → Turn es (follow (traced x) ms s latest p pool vault key worker last t (es, w))
  follow-Added up_to_date pool vault key worker last t es w fits = inl refl
  follow-Added (range from to) pool vault key worker last t es w fits =
      ground (arith, fits from to refl)

  plan-Fits :
      (last from to : ℕ)
      → 1 ≤ s.effective_max_blocks_per_tick
      → plan s.effective_max_blocks_per_tick latest last ≡ range from to
      → Fits s.effective_max_blocks_per_tick (from, to)
  unfolding plan
  plan-Fits last from to h e = ground arith

  module _ (h : 1 ≤ s.effective_max_blocks_per_tick) where
    with_cursor-Added :
        (row : Option CursorRow) (pool : Pool) (vault key worker : String) (t : Table)
        (es : List Range) (w : W)
        → Turn es (with_cursor (traced x) ms s latest row pool vault key worker t (es, w))
    with_cursor-Added none pool vault key worker t es w = refl
    with_cursor-Added (some row) pool vault key worker t es w =
        follow-Added _ pool vault key worker _ t es w
          (λ from to e. plan-Fits (last_processed x ms s latest pool row) from to h e)

    with_vault-Added :
        (vault : Result Failure String) (pool : Pool) (t : Table) (es : List Range) (w : W)
        → Turn es (with_vault (traced x) ms s latest pool vault t (es, w))
    with_vault-Added (throw e) pool t es w = refl
    with_vault-Added (ok vault) pool t es w = with_cursor-Added _ pool vault _ _ _ es _

    address-Added :
        (address : Option String) (pool : Pool) (t : Table) (es : List Range) (w : W)
        → Turn es (
            with_vault
              (traced x)
              ms
              s
              latest
              pool
              (resolved (traced x) ms s latest pool address t (es, w)).0
              (resolved (traced x) ms s latest pool address t (es, w)).1.0
              (resolved (traced x) ms s latest pool address t (es, w)).1.1)
    address-Added none pool t es w = with_vault-Added _ pool _ es _
    address-Added (some String.[]) pool t es w = with_vault-Added _ pool _ es _
    address-Added (some (String.◌∷◌ c vault)) pool t es w =
        with_vault-Added (ok (String.◌∷◌ c vault)) pool t es w

    pool_turn-Added :
        (pool : Pool) (t : Table) (es : List Range) (w : W)
        → Turn es (pool_turn (traced x) ms s latest pool (t, (es, w)))
    unfolding pool_turn
    pool_turn-Added pool t es w = address-Added pool.vault_address pool t es w

    abbrev Within : List Range → Type 0
    Within es = (length es ≤ s.pools_per_tick) × All (Fits s.effective_max_blocks_per_tick) es

    -- At most `count` ranges, which fit
    abbrev UpTo : ℕ → List Range → Type 0
    UpTo count es = (length es ≤ count) × All (Fits s.effective_max_blocks_per_tick) es

    abbrev Grown : List Range → List Range → Type 0
    Grown before after =
        (after ≡ before)
        ⊎ ((r : Range) × ((after ≡ r ∷ before) × Fits s.effective_max_blocks_per_tick r))

    Grown-UpTo :
        (count : ℕ) (before after : List Range)
        → UpTo count before
        → Grown before after
        → UpTo (count + 1) after
    Grown-UpTo count before after (l, f) (inl e) = rw e (omega (arith, l), f)
    Grown-UpTo count before after (l, f) (inr (r, (e, k))) = rw e (omega (arith, l), (k, f))

    UpTo-Within :
        (count : ℕ) (es : List Range) → count ≤ s.pools_per_tick → UpTo count es → Within es
    UpTo-Within count es c (l, f) = (omega (arith, c, l), f)

    next-Within :
        (loop : ℕ → Bool → Table × (List Range × W) → Bool × (Table × (List Range × W)))
        → ((n : ℕ) (d : Bool) (t : Table) (es : List Range) (w : W)
            → n ≤ s.pools_per_tick
            → UpTo n es
            → Within (loop n d (t, (es, w))).1.1.0)
        → (verdict : Verdict) (count : ℕ) (did : Bool) (t : Table) (before after : List Range)
          (w : W)
        → count < s.pools_per_tick
        → UpTo count before
        → Added s.effective_max_blocks_per_tick verdict before after
        → Within (next (traced x) ms s latest loop verdict count did (t, (after, w))).1.1.0
    next-Within loop ih passed count did t before after w c u a =
        ih count did t after w (omega (arith, c)) (rw a u)
    next-Within loop ih claimed count did t before after w c u a =
        ih (count + 1) did t after w (omega (arith, c)) (Grown-UpTo count before after u a)
    next-Within loop ih synced count did t before after w c u a =
        ih (count + 1) true t after w (omega (arith, c)) (Grown-UpTo count before after u a)
    next-Within loop ih limited count did t before after w c u a =
        UpTo-Within (count + 1) after (omega (arith, c)) (Grown-UpTo count before after u a)

    if-Within :
        (full : Bool) (count : ℕ) (es : List Range) (o o' : Bool × (Table × (List Range × W)))
        → leb s.pools_per_tick count ≡ full
        → Within o.1.1.0
        → (count < s.pools_per_tick → Within o'.1.1.0)
        → Within (if full then o else o').1.1.0
    if-Within true count es o o' e k r = k
    if-Within false count es o o' e k r = r (ground arith)

    pools_loop-Within :
        (pools : List Pool) (count : ℕ) (did : Bool) (t : Table) (es : List Range) (w : W)
        → count ≤ s.pools_per_tick
        → UpTo count es
        → Within (pools_loop (traced x) ms s latest pools count did (t, (es, w))).1.1.0
    unfolding pools_loop
    pools_loop-Within [] count did t es w c u = UpTo-Within count es c u
    pools_loop-Within (pool ∷ pools) count did t es w c u =
        if-Within _ count es (did, (t, (es, w))) _ refl (UpTo-Within count es c u)
          (λ k.
            next-Within (λ n d v. pools_loop (traced x) ms s latest pools n d v)
              (pools_loop-Within pools) (pool_turn (traced x) ms s latest pool (t, (es, w))).0 count
              did _ es _ _ k u (pool_turn-Added pool t es w))

module _ {W : Type 0} (x : Services W) (ms : ℕ) (s : Settings)
    (h : 1 ≤ s.effective_max_blocks_per_tick) where
  abbrev InBudget : List Range → Type 0
  InBudget es = (length es ≤ s.pools_per_tick) × All (Fits s.effective_max_blocks_per_tick) es

  recalculated-InBudget :
      (o : Bool × (Table × (List Range × W)))
      → InBudget o.1.1.0
      → InBudget (recalculated (traced x) ms s o).1.0
  recalculated-InBudget (true, (t, (es, w))) k = k
  recalculated-InBudget (false, (t, (es, w))) k = k

  with_block-InBudget :
      (pools : List Pool) (latest : Result Failure ℕ) (t : Table) (w : W)
      → InBudget (with_block (traced x) ms s pools latest (t, ([], w))).1.1.0
  with_block-InBudget pools (throw e) t w = (omega arith, tt)
  with_block-InBudget pools (ok latest) t w =
      recalculated-InBudget (pools_loop (traced x) ms s latest pools 0 false (t, ([], w)))
        (pools_loop-Within x ms s latest h pools 0 false t [] w (omega arith) (omega arith, tt))

  with_pools-InBudget :
      (pools : Result Failure (List Pool)) (t : Table) (w : W)
      → InBudget (with_pools (traced x) ms s pools (t, ([], w))).1.1.0
  with_pools-InBudget (throw e) t w = (omega arith, tt)
  with_pools-InBudget (ok []) t w = (omega arith, tt)
  with_pools-InBudget (ok (pool ∷ pools)) t w = with_block-InBudget (pool ∷ pools) _ _ _

settings-bound : (env : Env) → 1 ≤ (settings env).effective_max_blocks_per_tick
unfolding settings
settings-bound env = ground arith

-- A tick reads the events of at most as many block ranges as pools are allowed for a tick; each
-- has a block and at most the effective number of blocks; and when the tick ends, whether by an
-- error or not, the next one may begin. While a tick is running, another one reads nothing.
pub tick_budget :
    {W : Type 0} (x : Services W) (ms : ℕ) (env : Env) (ticking : Bool) (t : Table) (w : W)
    → (length (tick (traced x) ms (settings env) (ticking, (t, ([], w)))).1.1.1.0
        ≤ (settings env).pools_per_tick)
      × All
          (Fits (settings env).effective_max_blocks_per_tick)
          (tick (traced x) ms (settings env) (ticking, (t, ([], w)))).1.1.1.0
      × ((tick (traced x) ms (settings env) (ticking, (t, ([], w)))).1.0 ≡ ticking)
      × (ticking ≡ true → (tick (traced x) ms (settings env) (ticking, (t, ([], w)))).1.1.1.0 ≡ [])
unfolding tick
tick_budget x ms env true t w = (omega arith, tt, refl, λ e. refl)
tick_budget x ms env false t w =
    let k =
      with_pools-InBudget x ms (settings env) (settings-bound env) (x.active_pools (t, w)).0
        (x.active_pools (t, w)).1.0 (x.active_pools (t, w)).1.1 in
    (k.0, k.1, refl, λ e. absurd (cc e))

budget_of_chunks : (q c : ℕ) → 1 ≤ c → max 1 (q * c) ≤ max 1 q * c
budget_of_chunks zero c h = omega (arith, h)
budget_of_chunks (suc q) c h = grind (arith, h)

chunk_size-bound : (env : Env) → 1 ≤ (settings env).log_chunk_size
unfolding settings get_logs_block_chunk_size
chunk_size-bound env = ground arith

-- The blocks of a tick are as many chunks at most that four queries of each chunk stay within the
-- allowed requests, or one chunk where fewer than four requests are allowed.
pub settings-budget :
    (env : Env)
    → (chunks : ℕ) × ((settings env).effective_max_blocks_per_tick
        ≤ chunks * (settings env).log_chunk_size)
      × (4 * chunks ≤ max 4 (settings env).max_log_requests_per_tick)
unfolding settings
settings-budget env = (
  max 1 (positive_of (env "VAULT_SYNC_MAX_LOG_REQUESTS_PER_TICK") 40 / 4),
  omega (
    arith,
    budget_of_chunks (positive_of (env "VAULT_SYNC_MAX_LOG_REQUESTS_PER_TICK") 40 / 4)
        (get_logs_block_chunk_size env (some "BASE_GETLOGS_BLOCK_CHUNK")) (chunk_size-bound env),
  ),
  omega arith,
)
