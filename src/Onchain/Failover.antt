-- ===== src/Onchain/Failover.antt =====
-- src/onchain/rpc.ts: an operation is tried on one RPC URL after the other, with retries.
pub mod Tries
pub mod Success
pub mod Kept
use team_index.Base.{
  ℕ, zero, suc, ◌+◌, ◌*◌, ◌^◌, List, [], ◌∷◌, ◌++◌, map, Bool, true, false, ◌||◌, ◌&&◌, not, Option,
  none, some, Result, ok, throw, ◌==◌, if◌then◌else◌, any, Text, codes, text_eq, trim,
}
use team_index.Onchain.RpcError.{ErrorValue, is_rpc_rate_limit_error}

abbrev push : ℕ → List Text → List Text
push c [] = (c ∷ []) ∷ []
push c (x ∷ xs) = (c ∷ x) ∷ xs

-- `split(",")`
abbrev split_comma : Text → List Text
split_comma [] = [] ∷ []
split_comma (c ∷ s) = let rest = split_comma s in if c == b',' then [] ∷ rest else push c rest

abbrev not_empty : List Text → List Text
not_empty [] = []
not_empty ([] ∷ xs) = not_empty xs
not_empty ((c ∷ s) ∷ xs) = (c ∷ s) ∷ not_empty xs

unfoldable pub split_rpc_urls : Option Text → List Text
split_rpc_urls none = []
split_rpc_urls (some raw) = not_empty (map trim (split_comma raw))

-- `Array.from(new Set(urls))`: the first of equal urls stays. `seen` are those before.
abbrev pub distinct : List Text → List Text → List Text
distinct seen [] = []
distinct seen (u ∷ us) =
    let rest = distinct seen us in
    let more = distinct (u ∷ seen) us in if any (text_eq u) seen then rest else u ∷ more

abbrev pub public_base_rpc_url : Text
public_base_rpc_url = codes "https://mainnet.base.org"

-- By BASE_RPC_URL and BASE_RPC_FALLBACK_URLS
unfoldable pub get_base_rpc_urls : Option Text → Option Text → List Text
get_base_rpc_urls url fallbacks =
    distinct [] (split_rpc_urls url ++ (split_rpc_urls fallbacks ++ (public_base_rpc_url ∷ [])))

pub data BaseRpcErrorCode : Type 0 where
  rpc_rate_limited rpc_unavailable : BaseRpcErrorCode

pub record BaseRpcError : Type 0 where
  pub code : BaseRpcErrorCode
  pub cause : Option ErrorValue

-- The operation on a url, the timer and the random source
pub record Node (W A : Type 0) : Type 0 where
  pub operation : Text → W → Result ErrorValue A × W
  pub sleep : ℕ → W → W
  pub random_below : ℕ → W → ℕ × W

abbrev pub code_of : Bool → BaseRpcErrorCode
code_of true = rpc_rate_limited
code_of false = rpc_unavailable

module _ {W A : Type 0} (node : Node W A) (max_retries_per_url retry_base_ms : ℕ) where
  abbrev pub pause : ℕ → W → W
  pause attempt w =
      let (jitter, w') = node.random_below retry_base_ms w in
      node.sleep (retry_base_ms * 2 ^ attempt + jitter) w'

  -- After a failed attempt that is not the last on its url; `true`: it was rate limited.
  abbrev pub retry_if :
      Bool
      → ErrorValue
      → (W → Result (ErrorValue × Bool) A × W)
      → ℕ
      → Bool
      → W
      → Result (ErrorValue × Bool) A × W
  retry_if true e retry attempt saw w = retry (pause attempt w)
  retry_if false e retry attempt saw w = (throw (e, saw), w)

  abbrev pub answered :
      Result ErrorValue A
      → (W → Result (ErrorValue × Bool) A × W)
      → ℕ
      → Bool
      → W
      → Result (ErrorValue × Bool) A × W
  answered (ok a) retry attempt saw w = (ok a, w)
  answered (throw e) retry attempt saw w =
      retry_if (is_rpc_rate_limit_error e) e retry attempt saw w

  -- The attempts on a url, of which `left` may follow this one: the value, or the last error with
  -- `sawRateLimit`.
  unfoldable pub url_loop : (left attempt : ℕ) → Text → Bool → W → Result (ErrorValue × Bool) A × W
  url_loop zero attempt url saw w =
      let (reply, w') = node.operation url w in
      elim reply [ ok a ↦ (ok a, w') | throw e ↦ (throw (e, saw || is_rpc_rate_limit_error e), w') ]
  url_loop (suc left) attempt url saw w =
      let (reply, w') = node.operation url w in
      answered reply (λ v. url_loop left (attempt + 1) url true v) attempt saw w'

  abbrev pub go_on :
      Result (ErrorValue × Bool) A
      → (ErrorValue → Bool → W → Result BaseRpcError A × W)
      → W
      → Result BaseRpcError A × W
  go_on (ok a) next w = (ok a, w)
  go_on (throw (e, saw)) next w = next e saw w

  -- The loop over the urls, with `lastErr` and `sawRateLimit`
  unfoldable pub urls_loop : List Text → Option ErrorValue → Bool → W → Result BaseRpcError A × W
  urls_loop [] last saw w = (throw (record { code = code_of saw; cause = last }), w)
  urls_loop (url ∷ urls) last saw w =
      let (reply, w') = url_loop max_retries_per_url 0 url saw w in
      go_on reply (λ e saw' v. urls_loop urls (some e) saw' v) w'

  abbrev pub if_any : List Text → W → Result BaseRpcError A × W
  if_any [] w = (throw (record { code = rpc_unavailable; cause = none }), w)
  if_any (url ∷ urls) w = urls_loop (url ∷ urls) none false w

  unfoldable pub with_base_rpc_retry : Option Text → Option Text → W → Result BaseRpcError A × W
  unfolding get_base_rpc_urls urls_loop
  with_base_rpc_retry url fallbacks w = if_any (get_base_rpc_urls url fallbacks) w
