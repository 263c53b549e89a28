-- ===== src/Onchain/Failover/Kept.antt =====
-- src/onchain/rpc.ts: what calls of the operation that fail keep, and a call that succeeds turns into a good
-- state, holds of a whole run of withBaseRpcRetry.
use team_index.Base.{
  ℕ, zero, suc, ◌+◌, ◌*◌, ◌^◌, List, [], ◌∷◌, Bool, true, false, ◌||◌, Option, none, some, Result,
  ok, throw, Text,
}
use team_index.Onchain.RpcError.{ErrorValue, is_rpc_rate_limit_error}
use team_index.Onchain.Failover.{
  Node, BaseRpcError, url_loop, urls_loop, if_any, with_base_rpc_retry, get_base_rpc_urls, pause,
  retry_if, answered, go_on,
}

-- Good with a value, kept with an error
abbrev pub Fits : {W E A : Type 0} → (A → W → Type 0) → (W → Type 0) → Result E A × W → Type 0
Fits Good Inv (ok a, w) = Good a w
Fits Good Inv (throw e, w) = Inv w

module _ {W A : Type 0} (node : Node W A) (retries base : ℕ) (Good : A → W → Type 0)
    (Inv : W → Type 0) (call : (url : Text) (w : W) → Inv w → Fits Good Inv (node.operation url w))
    (sleeps : (ms : ℕ) (w : W) → Inv w → Inv (node.sleep ms w))
    (draws : (n : ℕ) (w : W) → Inv w → Inv (node.random_below n w).1) where
  pause-Inv : (attempt : ℕ) (w : W) → Inv w → Inv (pause node retries base attempt w)
  pause-Inv attempt w h =
      let (jitter, w') = node.random_below base w in
      sleeps (base * 2 ^ attempt + jitter) w' (draws base w h)

  answered-Fits :
      (reply : Result ErrorValue A) (retry : W → Result (ErrorValue × Bool) A × W) (attempt : ℕ)
      (saw : Bool) (w : W)
      → Fits Good Inv (reply, w)
      → ((v : W) → Inv v → Fits Good Inv (retry v))
      → Fits Good Inv (answered node retries base reply retry attempt saw w)
  answered-Fits (ok a) retry attempt saw w h k = h
  answered-Fits (throw e) retry attempt saw w h k = retry_by (is_rpc_rate_limit_error e)
    where
      retry_by : (b : Bool) → Fits Good Inv (retry_if node retries base b e retry attempt saw w)
      retry_by true = k (pause node retries base attempt w) (pause-Inv attempt w h)
      retry_by false = h

  last-Fits :
      (reply : Result ErrorValue A) (saw : Bool) (w : W)
      → Fits Good Inv (reply, w)
      → Fits {E = ErrorValue × Bool} Good Inv (elim reply [
        | ok a ↦ (ok a, w)
        | throw e ↦ (throw (e, saw || is_rpc_rate_limit_error e), w)
      ])
  last-Fits (ok a) saw w h = h
  last-Fits (throw e) saw w h = h

  url_loop-Fits :
      (left attempt : ℕ) (url : Text) (saw : Bool) (w : W)
      → Inv w
      → Fits Good Inv (url_loop node retries base left attempt url saw w)
  unfolding url_loop
  url_loop-Fits zero attempt url saw w h =
      let (reply, w') = node.operation url w in last-Fits reply saw w' (call url w h)
  url_loop-Fits (suc left) attempt url saw w h =
      let (reply, w') = node.operation url w in
      answered-Fits reply (λ v. url_loop node retries base left (attempt + 1) url true v) attempt
        saw w' (call url w h) (λ v k. url_loop-Fits left (attempt + 1) url true v k)

  go_on-Fits :
      (reply : Result (ErrorValue × Bool) A)
      (next : ErrorValue → Bool → W → Result BaseRpcError A × W) (w : W)
      → Fits Good Inv (reply, w)
      → ((e : ErrorValue) (saw : Bool) (v : W) → Inv v → Fits Good Inv (next e saw v))
      → Fits Good Inv (go_on node retries base reply next w)
  go_on-Fits (ok a) next w h k = h
  go_on-Fits (throw (e, saw)) next w h k = k e saw w h

  urls_loop-Fits :
      (urls : List Text) (last : Option ErrorValue) (saw : Bool) (w : W)
      → Inv w
      → Fits Good Inv (urls_loop node retries base urls last saw w)
  unfolding urls_loop
  urls_loop-Fits [] last saw w h = h
  urls_loop-Fits (url ∷ urls) last saw w h =
      let out = url_loop node retries base retries 0 url saw w in
      go_on-Fits out.0 (λ e saw' v. urls_loop node retries base urls (some e) saw' v) out.1
        (url_loop-Fits retries 0 url saw w h) (λ e saw' v k. urls_loop-Fits urls (some e) saw' v k)

  if_any-Fits : (urls : List Text) (w : W) → Inv w → Fits Good Inv (if_any node retries base urls w)
  if_any-Fits [] w h = h
  if_any-Fits (url ∷ urls) w h = urls_loop-Fits (url ∷ urls) none false w h

  pub with_base_rpc_retry-Fits :
      (url fallbacks : Option Text) (w : W)
      → Inv w
      → Fits Good Inv (with_base_rpc_retry node retries base url fallbacks w)
  unfolding with_base_rpc_retry
  with_base_rpc_retry-Fits url fallbacks w h = if_any-Fits (get_base_rpc_urls url fallbacks) w h
