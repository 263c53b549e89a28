-- ===== src/Onchain/LogChunks.antt =====
-- src/onchain/ethersLogChunks.ts: the block window of an event query, in chunks, with retries.
pub mod Rules
pub mod Coverage
pub mod Requests
use team_index.Base.{
  ℕ, zero, suc, ◌+◌, ◌-◌, ◌*◌, ◌^◌, min, max, String, List, [], ◌++◌, Bool, true, false, ◌||◌, not,
  Option, none, some, Result, ok, throw, ltb, leb, if◌then◌else◌,
}
use team_index.Onchain.RpcError.{ErrorValue, is_rpc_rate_limit_error}

-- `Number(raw)` of a set variable, as far as the code reads it: it is rounded down after the
-- tests, and `n < 0` and `n < 1` hold of `n` exactly if they hold of its floor.
pub data EnvNumber : Type 0 where
  not_finite negative : EnvNumber
  floor : ℕ → EnvNumber

pub data EnvVar : Type 0 where
  unset empty : EnvVar
  value : EnvNumber → EnvVar

abbrev pub Env : Type 0
Env = String → EnvVar

-- `n < 1` falls back
abbrev chunk_of : EnvNumber → ℕ
chunk_of (floor (suc n)) = suc n
chunk_of _ = 10

abbrev chunk_of_var : EnvVar → ℕ
chunk_of_var (value n) = chunk_of n
chunk_of_var _ = 10

-- `a ?? b` of two variables
abbrev or_var : EnvVar → EnvVar → EnvVar
or_var unset b = b
or_var a b = a

unfoldable pub get_logs_block_chunk_size : Env → Option String → ℕ
get_logs_block_chunk_size env none = chunk_of_var (env "ETH_GETLOGS_BLOCK_CHUNK")
get_logs_block_chunk_size env (some name) =
    chunk_of_var (or_var (env name) (env "ETH_GETLOGS_BLOCK_CHUNK"))

abbrev int_of_var : EnvVar → ℕ → ℕ
int_of_var (value (floor n)) fallback = n
int_of_var _ fallback = fallback

unfoldable pub positive_int_from_env : Env → String → ℕ → ℕ
positive_int_from_env env name fallback = int_of_var (env name) fallback

-- The options as callers write them: a chunk size alone, or an object with any of the fields.
pub record OptionFields : Type 0 where
  pub chunk_size : Option ℕ
  pub chunk_size_env : Option String
  pub min_delay_ms : Option ℕ
  pub max_retries : Option ℕ
  pub max_retries_env : Option String
  pub retry_base_ms : Option ℕ

pub data QueryOptions : Type 0 where
  size_only : ℕ → QueryOptions
  fields : OptionFields → QueryOptions

pub record Normalized : Type 0 where
  pub chunk_size : ℕ
  pub min_delay_ms : ℕ
  pub max_retries : ℕ
  pub retry_base_ms : ℕ

abbrev or_else : Option ℕ → ℕ → ℕ
or_else none d = d
or_else (some n) d = n

abbrev retries_from_env : Env → Option String → ℕ
retries_from_env env none = positive_int_from_env env "ETH_GETLOGS_MAX_RETRIES" 6
retries_from_env env (some name) = positive_int_from_env env name 1

unfoldable pub normalize_options : Env → QueryOptions → Normalized
unfolding get_logs_block_chunk_size positive_int_from_env
normalize_options env (size_only n) = record {
  chunk_size = max 1 n;
  min_delay_ms = positive_int_from_env env "ETH_GETLOGS_MIN_DELAY_MS" 300;
  max_retries = positive_int_from_env env "ETH_GETLOGS_MAX_RETRIES" 6;
  retry_base_ms = positive_int_from_env env "ETH_GETLOGS_RETRY_BASE_MS" 1000;
}
normalize_options env (fields o) = record {
  chunk_size = max 1 (or_else o.chunk_size (get_logs_block_chunk_size env o.chunk_size_env));
  min_delay_ms = or_else o.min_delay_ms (positive_int_from_env env "ETH_GETLOGS_MIN_DELAY_MS" 300);
  max_retries = or_else o.max_retries (retries_from_env env o.max_retries_env);
  retry_base_ms =
      or_else o.retry_base_ms (positive_int_from_env env "ETH_GETLOGS_RETRY_BASE_MS" 1000);
}

-- What the code calls outside the repository: the provider's `queryFilter` over a block range, the
-- timer and the random source. `W` is the state of all three, `L` the type of a log.
pub record Rpc (W : Type 0) (L : Type 0) : Type 0 where
  pub query_filter : ℕ → ℕ → W → Result ErrorValue (List L) × W
  pub sleep : ℕ → W → W
  pub random_below : ℕ → W → ℕ × W

module _ {W L : Type 0} (rpc : Rpc W L) (options : Normalized) where
  -- the wait before the next attempt: `retryBaseMs * 2 ** (attempt - 1)` and the jitter
  abbrev pub back_off : ℕ → W → W
  back_off attempt w =
      let (jitter, w') = rpc.random_below options.retry_base_ms w in
      rpc.sleep (options.retry_base_ms * 2 ^ (attempt - 1) + jitter) w'

  abbrev gives_up : ErrorValue → ℕ → Bool
  gives_up err attempt = not (is_rpc_rate_limit_error err) || ltb options.max_retries attempt

  -- The `for` loop. `none`: the fuel ran out, which it does not (`Coverage`).
  unfoldable pub retry : ℕ → ℕ → ℕ → ℕ → W → Option (Result ErrorValue (List L) × W)
  retry zero attempt from to w = none
  retry (suc fuel) attempt from to w =
      let (reply, w') = rpc.query_filter from to w in
      elim reply [
        | ok logs ↦ some (ok logs, w')
        | throw err ↦
            let again = retry fuel (attempt + 1) from to (back_off attempt w') in
            if gives_up err attempt then some (throw err, w') else again
      ]

  unfoldable pub query_filter_with_rate_limit_retry :
      ℕ → ℕ → W → Option (Result ErrorValue (List L) × W)
  unfolding retry
  query_filter_with_rate_limit_retry from to w = retry (suc options.max_retries) 1 from to w

  -- `await sleep(minDelayMs)` only before another chunk
  abbrev pub pause : ℕ → ℕ → W → W
  pause start to w = if leb start to then rpc.sleep options.min_delay_ms w else w

  -- The `while` loop over `start`, with the logs so far in `out`.
  unfoldable pub chunks : ℕ → ℕ → ℕ → List L → W → Option (Result ErrorValue (List L) × W)
  unfolding query_filter_with_rate_limit_retry
  chunks zero start to out w = none
  chunks (suc fuel) start to out w =
      let end = min (start + max 1 options.chunk_size - 1) to in
      elim (leb start to) [
        | false ↦ some (ok out, w)
        | true ↦ elim (query_filter_with_rate_limit_retry start end w) [
          | none ↦ none
          | some (throw err, w') ↦ some (throw err, w')
          | some (ok chunk, w') ↦ chunks fuel (end + 1) to (out ++ chunk) (pause (end + 1) to w')
        ]
      ]

module _ {W L : Type 0} (rpc : Rpc W L) (env : Env) where
  -- The loop advances by a block at least, so a round for each block and one more are enough.
  unfoldable pub query_filter_in_block_chunks :
      ℕ → ℕ → QueryOptions → W → Option (Result ErrorValue (List L) × W)
  unfolding chunks normalize_options
  query_filter_in_block_chunks from to given w =
      if ltb to from
      then some (ok [], w)
      else chunks rpc (normalize_options env given) (to + 2 - from) from to [] w
