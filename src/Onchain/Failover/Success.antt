-- ===== src/Onchain/Failover/Success.antt =====
-- src/onchain/rpc.ts: what a run of withBaseRpcRetry that succeeds leaves is what a call of the operation
-- left that succeeded.
use team_index.Base.{
  ℕ, zero, suc, ◌+◌, ◌≡◌, List, [], ◌∷◌, Bool, true, false, ◌||◌, Option, none, some, Result, ok,
  throw, Text,
}
use team_index.Onchain.RpcError.{ErrorValue, is_rpc_rate_limit_error}
use team_index.Onchain.Failover.{
  Node, BaseRpcError, url_loop, urls_loop, if_any, with_base_rpc_retry, get_base_rpc_urls, pause,
  retry_if, answered, go_on,
}

module _ {W A : Type 0} (node : Node W A) (retries base : ℕ) (Good : A → W → Type 0)
    (good : (url : Text) (w : W) (a : A)
      → (node.operation url w).0 ≡ ok a
      → Good a (node.operation url w).1) where
  -- A result and the state after it, good where the result is a value
  abbrev Fine : {E : Type 0} → Result E A × W → Type 0
  Fine out = (a : A) → out.0 ≡ ok a → Good a out.1

  operation-Fine : (url : Text) (w : W) → Fine (node.operation url w)
  operation-Fine url w a o = good url w a o

  retry_if-Fine :
      (b : Bool) (e : ErrorValue) (retry : W → Result (ErrorValue × Bool) A × W) (attempt : ℕ)
      (saw : Bool) (w : W)
      → ((v : W) → Fine (retry v))
      → Fine (retry_if node retries base b e retry attempt saw w)
  retry_if-Fine true e retry attempt saw w h a o = h (pause node retries base attempt w) a o
  retry_if-Fine false e retry attempt saw w h a o = absurd (cc o)

  answered-Fine :
      (reply : Result ErrorValue A) (retry : W → Result (ErrorValue × Bool) A × W) (attempt : ℕ)
      (saw : Bool) (w : W)
      → Fine (reply, w)
      → ((v : W) → Fine (retry v))
      → Fine (answered node retries base reply retry attempt saw w)
  answered-Fine (ok b) retry attempt saw w f h a o = f a (cc o)
  answered-Fine (throw e) retry attempt saw w f h a o =
      retry_if-Fine (is_rpc_rate_limit_error e) e retry attempt saw w h a o

  last-Fine :
      (reply : Result ErrorValue A) (saw : Bool) (w : W)
      → Fine (reply, w)
      → Fine {E = ErrorValue × Bool} (elim reply [
        | ok a ↦ (ok a, w)
        | throw e ↦ (throw (e, saw || is_rpc_rate_limit_error e), w)
      ])
  last-Fine (ok b) saw w f a o = f a (cc o)
  last-Fine (throw e) saw w f a o = absurd (cc o)

  url_loop-Fine :
      (left attempt : ℕ) (url : Text) (saw : Bool) (w : W)
      → Fine (url_loop node retries base left attempt url saw w)
  unfolding url_loop
  url_loop-Fine zero attempt url saw w =
      last-Fine (node.operation url w).0 saw (node.operation url w).1 (operation-Fine url w)
  url_loop-Fine (suc left) attempt url saw w =
      answered-Fine (node.operation url w).0
        (λ v. url_loop node retries base left (attempt + 1) url true v) attempt saw
        (node.operation url w).1 (operation-Fine url w)
        (λ v. url_loop-Fine left (attempt + 1) url true v)

  go_on-Fine :
      (reply : Result (ErrorValue × Bool) A)
      (next : ErrorValue → Bool → W → Result BaseRpcError A × W) (w : W)
      → Fine (reply, w)
      → ((e : ErrorValue) (saw : Bool) (v : W) → Fine (next e saw v))
      → Fine (go_on node retries base reply next w)
  go_on-Fine (ok b) next w f h a o = f a (cc o)
  go_on-Fine (throw (e, saw)) next w f h a o = h e saw w a o

  urls_loop-Fine :
      (urls : List Text) (last : Option ErrorValue) (saw : Bool) (w : W)
      → Fine (urls_loop node retries base urls last saw w)
  unfolding urls_loop
  urls_loop-Fine [] last saw w a o = absurd (cc o)
  urls_loop-Fine (url ∷ urls) last saw w a o =
      let out = url_loop node retries base retries 0 url saw w in
      go_on-Fine out.0 (λ e saw' v. urls_loop node retries base urls (some e) saw' v) out.1
        (url_loop-Fine retries 0 url saw w) (λ e saw' v. urls_loop-Fine urls (some e) saw' v) a o

  if_any-Fine : (urls : List Text) (w : W) → Fine (if_any node retries base urls w)
  if_any-Fine [] w a o = absurd (cc o)
  if_any-Fine (url ∷ urls) w a o = urls_loop-Fine (url ∷ urls) none false w a o

  pub with_base_rpc_retry-Good :
      (url fallbacks : Option Text) (w : W) (a : A)
      → (with_base_rpc_retry node retries base url fallbacks w).0 ≡ ok a
      → Good a (with_base_rpc_retry node retries base url fallbacks w).1
  unfolding with_base_rpc_retry
  with_base_rpc_retry-Good url fallbacks w = if_any-Fine (get_base_rpc_urls url fallbacks) w
