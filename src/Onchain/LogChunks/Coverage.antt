-- ===== src/Onchain/LogChunks/Coverage.antt =====
-- The chunked query of ethersLogChunks.ts against one query of the whole window.
use team_index.Base.{
  ℕ, zero, suc, ◌+◌, ◌-◌, ◌≤◌, List, [], ◌++◌, append_assoc, ◌≡◌, ap, inl, inr, Result, ok, throw,
  ltb, arith, Bool-cases,
}
use team_index.Onchain.RpcError.{ErrorValue}
use team_index.Onchain.LogChunks.{
  Env, QueryOptions, Normalized, Rpc, normalize_options, query_filter_with_rate_limit_retry, chunks,
  query_filter_in_block_chunks,
}
use team_index.Onchain.LogChunks.Rules.{
  Returns, Returns-at, retry_rule, end_of, chunks_rule, query_total,
}

-- The logs of `n` blocks from block `b` on, oldest first.
abbrev pub logs_in : {L : Type 0} → (ℕ → List L) → ℕ → ℕ → List L
logs_in chain b zero = []
logs_in chain b (suc n) = chain b ++ logs_in chain (b + 1) n

logs_in-add :
    {L : Type 0} (chain : ℕ → List L) (b m n : ℕ)
    → logs_in chain b (m + n) ≡ logs_in chain b m ++ logs_in chain (b + m) n
logs_in-add chain b zero n = grind arith
logs_in-add chain b (suc m) n =
    let shift : b + 1 + m ≡ b + suc m = omega arith in
    let count : suc m + n ≡ suc (m + n) = omega arith in
    rw (count, append_assoc, ← shift) (ap (λ l. chain b ++ l) (logs_in-add chain (b + 1) m n))

logs_in-glue :
    {L : Type 0} (chain : ℕ → List L) (from s e : ℕ) {out logs : List L}
    → s ≤ e
    → from ≤ s
    → out ≡ logs_in chain from (s - from)
    → logs ≡ logs_in chain s (e + 1 - s)
    → out ++ logs ≡ logs_in chain from (e + 1 - from)
logs_in-glue chain from s e le ge p q =
    let parts : e + 1 - from ≡ s - from + (e + 1 - s) = omega arith in
    let meet : from + (s - from) ≡ s = omega arith in rw (p, q, parts, logs_in-add) (rw meet)

-- The provider answers a query that succeeds with exactly the logs of its blocks.
abbrev pub Serves : {W L : Type 0} → Rpc W L → (ℕ → List L) → Type 0
Serves {W} {L} rpc chain =
    (a b : ℕ) (w : W) (logs : List L)
    → a ≤ b
    → (rpc.query_filter a b w).0 ≡ ok logs
    → logs ≡ logs_in chain a (b + 1 - a)

-- A result holds all logs of `from` to `to`, in order and each once, or it is an error.
abbrev pub IsWhole : {L : Type 0} → (ℕ → List L) → ℕ → ℕ → Result ErrorValue (List L) → Type 0
IsWhole chain from to (ok logs) = logs ≡ logs_in chain from (to + 1 - from)
IsWhole chain from to (throw err) = Unit

module _ {W L : Type 0} (rpc : Rpc W L) (options : Normalized) where
  module _ (chain : ℕ → List L) (serves : Serves rpc chain) where
    retry-IsWhole :
        (from to : ℕ) (w : W)
        → from ≤ to
        → Returns rpc options
            (λ r _. IsWhole chain from to r)
            (query_filter_with_rate_limit_retry rpc options from to w)
    unfolding query_filter_with_rate_limit_retry
    retry-IsWhole from to w le =
        retry_rule rpc options from to (λ _ _. Unit) (λ r _. IsWhole chain from to r)
          (λ _ w' logs _ e. serves from to w' logs le e) (λ _ _ _ _ _ _. tt) (λ _ _ _ _ _ _. tt)
          (suc options.max_retries) 1 w (omega arith) (omega arith) tt

    chunks-IsWhole :
        (from to : ℕ) (w : W)
        → from ≤ to
        → Returns rpc options
            (λ r _. IsWhole chain from to r)
            (chunks rpc options (to + 2 - from) from to [] w)
    chunks-IsWhole from to w le =
        chunks_rule rpc options to
          (λ s out _. (from ≤ s) × (s ≤ to + 1) × (out ≡ logs_in chain from (s - from)))
          (λ r _. IsWhole chain from to r) (query_total rpc options)
          (λ s out w' i past. let last : s ≡ to + 1 = omega arith in rw last at i.2)
          (λ s out logs w' w'' i le' e.
            let here =
              Returns-at rpc options (λ r _. IsWhole chain s (end_of rpc options s to) r) _
                (ok logs) w'' (retry-IsWhole s (end_of rpc options s to) w' (omega arith)) e in
            (
              omega arith,
              omega arith,
              logs_in-glue chain from s (end_of rpc options s to) (omega arith) i.0 i.2 here,
            ))
          (λ s out err w' w'' i le' e. tt) (to + 2 - from) from [] w (omega arith) (omega arith)
          (omega arith, omega arith, (let none_yet : from - from ≡ 0 = omega arith in rw none_yet))

-- Whatever the order of rate limits and waits, the chunked query returns, and a successful result
-- holds all logs of the blocks from `from` to `to`, in chain order and each once. The provider is
-- assumed to answer a query that succeeds with the logs of the blocks asked for.
pub block_chunks-IsWhole :
    {W L : Type 0} (rpc : Rpc W L) (chain : ℕ → List L) (env : Env) (from to : ℕ)
    (given : QueryOptions) (w : W)
    → Serves rpc chain
    → Returns rpc
        (normalize_options env given)
        (λ r _. IsWhole chain from to r)
        (query_filter_in_block_chunks rpc env from to given w)
unfolding query_filter_in_block_chunks
block_chunks-IsWhole rpc chain env from to given w serves = elim (Bool-cases (ltb to from)) [
  | inl past ↦
      (ok [], w, rw past, (let none_left : to + 1 - from ≡ 0 = ground arith in rw none_left))
  | inr ahead ↦
      rw ahead
        (chunks-IsWhole rpc (normalize_options env given) chain serves from to w (ground arith))
]
