-- ===== src/Onchain/Tests.antt =====
-- Runs of the error texts and of the chunked queries.
use team_index.Base.{
  ℕ, ◌+◌, ◌-◌, ◌≡◌, refl, true, false, none, some, List, [], ◌∷◌, arith, codes, to_lower, includes,
  ok, throw, All, length, if◌then◌else◌, ◌==◌, ◌*◌, text_eq,
}
use team_index.Onchain.RpcError.{ErrorValue, nullish, text, scalar, obj, is_rpc_rate_limit_error}
use team_index.Onchain.LogChunks.{
  Env, unset, QueryOptions, fields, Normalized, normalize_options, Rpc,
  query_filter_in_block_chunks,
}
use team_index.Onchain.LogChunks.Rules.{Returns}
use team_index.Onchain.LogChunks.Coverage.{logs_in, Serves, IsWhole, block_chunks-IsWhole}
use team_index.Onchain.LogChunks.Requests.{traced, Fits, block_chunks-Fits}
use team_index.Onchain.Failover.{
  Node, public_base_rpc_url, get_base_rpc_urls, split_rpc_urls, with_base_rpc_retry,
}
use team_index.Onchain.Failover.Tries.{Tried, traced as traced_node, base_rpc_retry-Tried}

-- A wrapped provider error, `{ code: "X", message: "Too Many Requests" }`.
abbrev limited : ErrorValue
limited =
    obj (text (codes "X")) (text (codes "Too Many Requests")) nullish nullish nullish nullish
      nullish nullish nullish nullish nullish nullish

abbrev refused : ErrorValue
refused =
    obj (scalar (codes "500")) (text (codes "boom")) nullish nullish nullish nullish nullish nullish
      nullish nullish nullish nullish

rate_limits :
    (is_rpc_rate_limit_error limited ≡ true)
    × (is_rpc_rate_limit_error refused ≡ false)
    × (is_rpc_rate_limit_error (scalar (codes "429")) ≡ true)
unfolding is_rpc_rate_limit_error includes to_lower
rate_limits = (refl, refl, refl)

abbrev chain : ℕ → List ℕ
chain b = b ∷ []

-- A provider that limits the rate of every third request; its state counts them.
abbrev node : Rpc ℕ ℕ
node = record {
  query_filter =
      λ a b w. (if w == 1 then throw limited else ok (logs_in chain a (b + 1 - a)), w + 1);
  sleep = λ ms w. w;
  random_below = λ n w. (0, w);
}

node-Serves : Serves node chain
node-Serves a b w logs le e = ground arith

abbrev settings : Env
settings name = unset

abbrev by_fours : QueryOptions
by_fours = fields (record {
  chunk_size = some 4;
  chunk_size_env = none;
  min_delay_ms = none;
  max_retries = some 1;
  max_retries_env = none;
  retry_base_ms = none;
})

window_run :
    query_filter_in_block_chunks node settings 3 9 by_fours 0
    ≡ some (ok (3 ∷ 4 ∷ 5 ∷ 6 ∷ 7 ∷ 8 ∷ 9 ∷ []), 3)
unfolding query_filter_in_block_chunks is_rpc_rate_limit_error includes to_lower
window_run = refl

block_chunks-IsWhole_example :
    Returns node
      (normalize_options settings by_fours)
      (λ r _. IsWhole chain 3 9 r)
      (query_filter_in_block_chunks node settings 3 9 by_fours 0)
block_chunks-IsWhole_example = block_chunks-IsWhole node chain settings 3 9 by_fours 0 node-Serves

block_chunks-Fits_example :
    Returns
      (traced node)
      (normalize_options settings by_fours)
      (λ _ s. All (Fits 3 9 (normalize_options settings by_fours).chunk_size) s.0)
      (query_filter_in_block_chunks (traced node) settings 3 9 by_fours ([], 0))
block_chunks-Fits_example = block_chunks-Fits node settings 3 9 by_fours 0

abbrev once : Normalized
once = record { chunk_size = 4; min_delay_ms = 0; max_retries = 1; retry_base_ms = 0 }

-- The public node fails, and any other is rate limited.
abbrev two_nodes : Node ℕ ℕ
two_nodes = record {
  operation = λ url w. (
    throw (
        if text_eq url public_base_rpc_url
        then ErrorValue.other
        else ErrorValue.text (codes "429")),
    w + 1,
  );
  sleep = λ n w. w;
  random_below = λ n w. (0, w);
}

base_rpc_retry-Tried_example :
    Tried
      (length (get_base_rpc_urls (some (codes "http://a, http://a")) none))
      (length (get_base_rpc_urls (some (codes "http://a, http://a")) none) * 3)
      (with_base_rpc_retry
        (traced_node two_nodes)
        2
        500
        (some (codes "http://a, http://a"))
        none
        ([], 0)).0
      (with_base_rpc_retry
        (traced_node two_nodes)
        2
        500
        (some (codes "http://a, http://a"))
        none
        ([], 0)).1.0
base_rpc_retry-Tried_example =
    base_rpc_retry-Tried two_nodes 2 500 (some (codes "http://a, http://a")) none 0

-- Equal URLs are used once, and the public one comes last.
urls_run :
    get_base_rpc_urls (some (codes "http://a, http://a")) none
    ≡ codes "http://a" ∷ public_base_rpc_url ∷ []
unfolding get_base_rpc_urls split_rpc_urls text_eq
urls_run = refl
