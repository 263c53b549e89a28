-- ===== src/Onchain/LogChunks/Requests.antt =====
-- The eth_getLogs requests that ethersLogChunks.ts makes: how wide, and how many.
use team_index.Base.{
  ℕ, suc, ◌+◌, ◌-◌, ◌≤◌, ◌<◌, List, [], ◌∷◌, ◌≡◌, ◌⊎◌, inl, inr, true, false, some, Result, ok,
  throw, ltb, arith, Bool-cases, All,
}
use team_index.Onchain.RpcError.{ErrorValue, is_rpc_rate_limit_error}
use team_index.Onchain.LogChunks.{
  Env, QueryOptions, Normalized, Rpc, normalize_options, query_filter_with_rate_limit_retry, chunks,
  query_filter_in_block_chunks, pause, size_only, fields,
}
use team_index.Onchain.LogChunks.Rules.{
  Returns, Returns-at, retry_rule, end_of, chunks_rule, query_total,
}

-- A provider that also keeps the block ranges it was asked for, the latest first.
abbrev pub traced : {W L : Type 0} → Rpc W L → Rpc (List (ℕ × ℕ) × W) L
traced rpc = record {
  query_filter =
      λ a b s. ((rpc.query_filter a b s.1).0, ((a, b) ∷ s.0, (rpc.query_filter a b s.1).1));
  sleep = λ ms s. (s.0, rpc.sleep ms s.1);
  random_below = λ n s. ((rpc.random_below n s.1).0, (s.0, (rpc.random_below n s.1).1));
}

-- A request lies within the window and spans at most `size` blocks.
abbrev pub Fits : ℕ → ℕ → ℕ → ℕ × ℕ → Type 0
Fits from to size (a, b) = (from ≤ a) × (a ≤ b) × (b ≤ to) × (b < a + size)

-- How many requests a retried query may have made when it ends.
abbrev pub Attempts : {L : Type 0} → ℕ → Result ErrorValue (List L) → ℕ → Type 0
Attempts most (ok logs) n = (1 ≤ n) × (n ≤ most + 1)
Attempts most (throw err) n =
    (is_rpc_rate_limit_error err ≡ false) × (1 ≤ n) × (n ≤ most + 1)
    ⊎ (is_rpc_rate_limit_error err ≡ true) × (n ≡ most + 1)

module _ {W L : Type 0} (rpc : Rpc W L) (options : Normalized) where
  retry-Fits :
      (lo hi from to : ℕ) (t : List (ℕ × ℕ)) (w : W)
      → Fits lo hi options.chunk_size (from, to)
      → All (Fits lo hi options.chunk_size) t
      → Returns
          (traced rpc)
          options
          (λ _ s. All (Fits lo hi options.chunk_size) s.0)
          (query_filter_with_rate_limit_retry (traced rpc) options from to (t, w))
  unfolding query_filter_with_rate_limit_retry
  retry-Fits lo hi from to t w fits before =
      retry_rule (traced rpc) options from to (λ a s. All (Fits lo hi options.chunk_size) s.0)
        (λ r s. All (Fits lo hi options.chunk_size) s.0) (λ a s logs i e. (fits, i))
        (λ a s err i e stop. (fits, i)) (λ a s err i e again. (fits, i)) (suc options.max_retries) 1
        (t, w) (omega arith) (omega arith) before

  chunks-Fits :
      (from to : ℕ) (w : W)
      → from ≤ to
      → 0 < options.chunk_size
      → Returns
          (traced rpc)
          options
          (λ _ s. All (Fits from to options.chunk_size) s.0)
          (chunks (traced rpc) options (to + 2 - from) from to [] ([], w))
  chunks-Fits from to w le pos =
      chunks_rule (traced rpc) options to
        (λ s _ v. (from ≤ s) × (s ≤ to + 1) × All (Fits from to options.chunk_size) v.0)
        (λ _ v. All (Fits from to options.chunk_size) v.0)
        (λ a b v. query_total (traced rpc) options a b v) (λ s out v i past. i.2)
        (λ s out logs v v' i le' e. (
          omega arith,
          omega arith,
          paused (end_of (traced rpc) options s to + 1) v' (asked s v v' (ok logs) i.0 i.2 le' e),
        ))
        (λ s out err v v' i le' e. asked s v v' (throw err) i.0 i.2 le' e) (to + 2 - from) from []
        ([], w) (omega arith) (omega arith) (omega arith, omega arith, tt)
    where
      asked :
          (s : ℕ) (v v' : List (ℕ × ℕ) × W) (r : Result ErrorValue (List L))
          → from ≤ s
          → All (Fits from to options.chunk_size) v.0
          → s ≤ to
          → query_filter_with_rate_limit_retry
              (traced rpc)
              options
              s
              (end_of (traced rpc) options s to)
              v
            ≡ some (r, v')
          → All (Fits from to options.chunk_size) v'.0
      asked s v v' r ge before le' e =
          Returns-at (traced rpc) options (λ _ u. All (Fits from to options.chunk_size) u.0) _ r v'
            (retry-Fits from to s (end_of (traced rpc) options s to) v.0 v.1
              (ge, omega arith, omega arith, omega arith) before)
            e

      paused :
          (s : ℕ) (v : List (ℕ × ℕ) × W)
          → All (Fits from to options.chunk_size) v.0
          → All (Fits from to options.chunk_size) (pause (traced rpc) options s to v).0
      paused s v h = ground arith

normalize_options-pos :
    (env : Env) (given : QueryOptions) → 0 < (normalize_options env given).chunk_size
unfolding normalize_options
normalize_options-pos env (size_only n) = omega arith
normalize_options-pos env (fields o) = omega arith

-- Every eth_getLogs request of a chunked query lies within the window asked for and spans at most
-- the configured number of blocks, also when requests are repeated after a rate limit.
pub block_chunks-Fits :
    {W L : Type 0} (rpc : Rpc W L) (env : Env) (from to : ℕ) (given : QueryOptions) (w : W)
    → Returns
        (traced rpc)
        (normalize_options env given)
        (λ _ s. All (Fits from to (normalize_options env given).chunk_size) s.0)
        (query_filter_in_block_chunks (traced rpc) env from to given ([], w))
unfolding query_filter_in_block_chunks
block_chunks-Fits rpc env from to given w = elim (Bool-cases (ltb to from)) [
  | inl past ↦ (ok [], ([], w), rw past, tt)
  | inr ahead ↦ rw ahead (
      chunks-Fits rpc (normalize_options env given) from to w (ground arith)
        (normalize_options-pos env given))
]
