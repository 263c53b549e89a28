-- ===== src/Onchain/LogChunks/Rules.antt =====
-- Total correctness rules for the two loops of ethersLogChunks.ts.
use mathlib.Core.Path.{subst}
use mathlib.Core.Option.{some-injective}
use team_index.Base.{
  ℕ, zero, suc, ◌+◌, ◌-◌, ◌≤◌, ◌<◌, min, max, List, ◌++◌, ◌≡◌, refl, sym, ◌∙◌, inl, inr, true,
  false, Option, some, Result, ok, throw, leb, arith, Bool-cases, Result-cases,
}
use team_index.Onchain.RpcError.{ErrorValue}
use team_index.Onchain.LogChunks.{
  Normalized, Rpc, back_off, gives_up, retry, query_filter_with_rate_limit_retry, pause, chunks,
}

module _ {W L : Type 0} (rpc : Rpc W L) (options : Normalized) where
  abbrev pub Returns :
      (Result ErrorValue (List L) → W → Type 0) → Option (Result ErrorValue (List L) × W) → Type 0
  Returns Q o = (r : Result ErrorValue (List L)) × (w' : W) × (o ≡ some (r, w')) × Q r w'

  pub Returns-at :
      (Q : Result ErrorValue (List L) → W → Type 0) (o : Option (Result ErrorValue (List L) × W))
      (r : Result ErrorValue (List L)) (w : W)
      → Returns Q o
      → o ≡ some (r, w)
      → Q r w
  Returns-at Q o r w (r', w', e', q) e =
      subst (λ (s : Result ErrorValue (List L) × W). Q s.0 s.1)
        (some-injective (r', w') (r, w) (sym e' ∙ e)) q

  -- The loop returns, and what holds before each attempt decides what holds at the end.
  module _ (from to : ℕ) (I : ℕ → W → Type 0) (Q : Result ErrorValue (List L) → W → Type 0)
      (on_ok : (a : ℕ) (w : W) (logs : List L)
        → I a w
        → (rpc.query_filter from to w).0 ≡ ok logs
        → Q (ok logs) (rpc.query_filter from to w).1)
      (on_stop : (a : ℕ) (w : W) (err : ErrorValue)
        → I a w
        → (rpc.query_filter from to w).0 ≡ throw err
        → gives_up rpc options err a ≡ true
        → Q (throw err) (rpc.query_filter from to w).1)
      (on_again : (a : ℕ) (w : W) (err : ErrorValue)
        → I a w
        → (rpc.query_filter from to w).0 ≡ throw err
        → gives_up rpc options err a ≡ false
        → I (a + 1) (back_off rpc options a (rpc.query_filter from to w).1)) where
    pub retry_rule :
        (fuel attempt : ℕ) (w : W)
        → options.max_retries + 1 < attempt + fuel
        → attempt ≤ options.max_retries + 1
        → I attempt w
        → Returns Q (retry rpc options fuel attempt from to w)
    unfolding retry
    retry_rule zero attempt w h p i = absurd (omega arith)
    retry_rule (suc fuel) attempt w h p i = elim (Result-cases (rpc.query_filter from to w).0) [
      | inl (logs, e) ↦
          (ok logs, (rpc.query_filter from to w).1, rw (e, retry), on_ok attempt w logs i e)
      | inr (err, e) ↦ elim (Bool-cases (gives_up rpc options err attempt)) [
        | inl stop ↦ (
          throw err,
          (rpc.query_filter from to w).1,
          rw (e, retry) (rw stop refl),
          on_stop attempt w err i e stop,
        )
        | inr again ↦
            rw (e, retry)
              (rw again (
                retry_rule fuel (attempt + 1)
                  (back_off rpc options attempt (rpc.query_filter from to w).1) (omega arith)
                  (ground arith) (on_again attempt w err i e again)))
      ]
    ]

  -- The last block of the chunk that begins at `start`.
  abbrev pub end_of : ℕ → ℕ → ℕ
  end_of start to = min (start + max 1 options.chunk_size - 1) to

  -- The chunk loop returns, and an invariant over its variables decides its result.
  module _ (to : ℕ) (I : ℕ → List L → W → Type 0) (Q : Result ErrorValue (List L) → W → Type 0)
      (total : (from to : ℕ) (w : W)
        → Returns (λ _ _. Unit) (query_filter_with_rate_limit_retry rpc options from to w))
      (on_done : (s : ℕ) (out : List L) (w : W) → I s out w → to < s → Q (ok out) w)
      (on_chunk : (s : ℕ) (out logs : List L) (w w' : W)
        → I s out w
        → s ≤ to
        → query_filter_with_rate_limit_retry rpc options s (end_of s to) w ≡ some (ok logs, w')
        → I (end_of s to + 1) (out ++ logs) (pause rpc options (end_of s to + 1) to w'))
      (on_fail : (s : ℕ) (out : List L) (err : ErrorValue) (w w' : W)
        → I s out w
        → s ≤ to
        → query_filter_with_rate_limit_retry rpc options s (end_of s to) w ≡ some (throw err, w')
        → Q (throw err) w') where
    chunks_step :
        (fuel start : ℕ) (out : List L) (w : W) (r : Result ErrorValue (List L)) (w' : W)
        → leb start to ≡ true
        → I start out w
        → start ≤ to
        → query_filter_with_rate_limit_retry rpc options start (end_of start to) w ≡ some (r, w')
        → ((logs : List L)
            → I (end_of start to + 1) (out ++ logs) (pause rpc options (end_of start to + 1) to w')
            → Returns Q (
                chunks rpc options fuel
                  (end_of start to + 1)
                  to
                  (out ++ logs)
                  (pause rpc options (end_of start to + 1) to w')))
        → Returns Q (chunks rpc options (suc fuel) start to out w)
    unfolding chunks
    chunks_step fuel start out w (throw err) w' more i le e next =
        (throw err, w', rw (more, chunks) (rw (e, chunks)), on_fail start out err w w' i le e)
    chunks_step fuel start out w (ok logs) w' more i le e next =
        rw (more, chunks) (rw (e, chunks) (next logs (on_chunk start out logs w w' i le e)))

    pub chunks_rule :
        (fuel start : ℕ) (out : List L) (w : W)
        → to + 1 < start + fuel
        → start ≤ to + 1
        → I start out w
        → Returns Q (chunks rpc options fuel start to out w)
    unfolding chunks
    chunks_rule zero start out w h p i = absurd (omega arith)
    chunks_rule (suc fuel) start out w h p i = elim (Bool-cases (leb start to)) [
      | inr past ↦ (ok out, w, rw (past, chunks), on_done start out w i (ground arith))
      | inl more ↦
          let (r, w', e, _) = total start (end_of start to) w in
          let le : start ≤ to = ground arith in
          chunks_step fuel start out w r w' more i le e λ logs k.
            chunks_rule fuel (end_of start to + 1) (out ++ logs)
              (pause rpc options (end_of start to + 1) to w') (omega arith) (omega arith) k
    ]

  pub query_total :
      (from to : ℕ) (w : W)
      → Returns (λ _ _. Unit) (query_filter_with_rate_limit_retry rpc options from to w)
  unfolding query_filter_with_rate_limit_retry
  query_total from to w =
      retry_rule from to (λ _ _. Unit) (λ _ _. Unit) (λ _ _ _ _ _. tt) (λ _ _ _ _ _ _. tt)
        (λ _ _ _ _ _ _. tt) (suc options.max_retries) 1 w (omega arith) (omega arith) tt
