-- ===== src/Onchain/Failover/Tries.antt =====
-- Which calls rpc.ts makes of an operation, and how it ends.
use team_index.Base.{
  ℕ, zero, suc, ◌+◌, ◌*◌, ◌≤◌, ◌<◌, ◌≡◌, refl, ap, List, [], ◌∷◌, Bool, true, false, ◌||◌, Option,
  none, some, Result, ok, throw, All, length, Text, arith,
}
use team_index.Onchain.RpcError.{ErrorValue, is_rpc_rate_limit_error}
use team_index.Onchain.Failover.{
  BaseRpcError, Node, code_of, url_loop, go_on, urls_loop, with_base_rpc_retry, get_base_rpc_urls,
  if_any, retry_if, answered,
}

-- A call and its answer
abbrev pub Call : Type 0 → Type 0
Call A = Text × Result ErrorValue A

-- A node that also keeps the calls, the latest first
abbrev pub traced : {W A : Type 0} → Node W A → Node (List (Call A) × W) A
traced node = record {
  operation = λ url s. (
    (node.operation url s.1).0,
    ((url, (node.operation url s.1).0) ∷ s.0, (node.operation url s.1).1),
  );
  sleep = λ n s. (s.0, node.sleep n s.1);
  random_below = λ n s. ((node.random_below n s.1).0, (s.0, (node.random_below n s.1).1));
}

abbrev pub failure_limited : {A : Type 0} → Result ErrorValue A → Bool
failure_limited (ok a) = false
failure_limited (throw e) = is_rpc_rate_limit_error e

abbrev pub limited : {A : Type 0} → List (Call A) → Bool
limited [] = false
limited (c ∷ cs) = limited cs || failure_limited c.1

abbrev pub Failed : {A : Type 0} → Call A → Type 0
Failed c = (e : ErrorValue) × (c.1 ≡ throw e)

-- How the calls `cs` end: a value is that of the last one, all before it failed; with an error all
-- failed, there are at least `low` and at most `high`, and the code says if one was rate limited.
abbrev pub Tried : {A : Type 0} → ℕ → ℕ → Result BaseRpcError A → List (Call A) → Type 0
Tried low high (ok a) [] = ⊥
Tried low high (ok a) (c ∷ cs) = (c.1 ≡ ok a) × All Failed cs × (length cs < high)
Tried low high (throw err) cs =
    All Failed cs × (low ≤ length cs) × (length cs ≤ high) × (err.code ≡ code_of (limited cs))

-- The calls on a url, after those of `before`
abbrev UrlTried :
    {A : Type 0} → ℕ → List (Call A) → Result (ErrorValue × Bool) A → List (Call A) → Type 0
UrlTried most before (ok a) [] = ⊥
UrlTried most before (ok a) (c ∷ cs) =
    (c.1 ≡ ok a) × All Failed cs × (length cs < length before + most)
UrlTried most before (throw (e, saw)) cs =
    All Failed cs
    × (length before < length cs)
    × (length cs ≤ length before + most)
    × (saw ≡ limited cs)

more-UrlTried :
    {A : Type 0} (most : ℕ) (c : Call A) (cs : List (Call A)) (reply : Result (ErrorValue × Bool) A)
    (after : List (Call A))
    → UrlTried most (c ∷ cs) reply after
    → UrlTried (suc most) cs reply after
more-UrlTried most c cs (ok a) [] h = absurd h
more-UrlTried most c cs (ok a) (d ∷ ds) (e, f, l) = (e, f, omega (arith, l))
more-UrlTried most c cs (throw (e, saw)) after (f, l, m, s) =
    (f, omega (arith, l), omega (arith, m), s)

wider-Tried :
    {A : Type 0} (low high low' high' : ℕ) (reply : Result BaseRpcError A) (cs : List (Call A))
    → low' ≤ low
    → high ≤ high'
    → Tried low high reply cs
    → Tried low' high' reply cs
wider-Tried low high low' high' (ok a) [] l h t = absurd t
wider-Tried low high low' high' (ok a) (c ∷ cs) l h (e, f, m) = (e, f, omega (arith, m, h))
wider-Tried low high low' high' (throw e) cs l h (f, m, n, s) =
    (f, omega (arith, l, m), omega (arith, h, n), s)

module _ {W A : Type 0} (node : Node W A) (retries base : ℕ) where
  retry_if-UrlTried :
      (rated : Bool) (e : ErrorValue)
      (retry : List (Call A) × W → Result (ErrorValue × Bool) A × (List (Call A) × W))
      (most attempt : ℕ) (url : Text) (saw : Bool) (cs : List (Call A)) (w : W)
      → is_rpc_rate_limit_error e ≡ rated
      → All Failed cs
      → saw ≡ limited cs
      → ((ds : List (Call A)) (v : W)
          → All Failed ds
          → true ≡ limited ds
          → UrlTried (suc most) ds (retry (ds, v)).0 (retry (ds, v)).1.0)
      → UrlTried
          (suc (suc most))
          cs
          (retry_if (traced node) retries base rated e retry attempt saw ((url, throw e) ∷ cs, w)).0
          (retry_if
            (traced node)
            retries
            base
            rated
            e
            retry
            attempt
            saw
            ((url, throw e) ∷ cs, w)).1.0
  retry_if-UrlTried true e retry most attempt url saw cs w r f s ih =
      more-UrlTried (suc most) (url, throw e) cs _ _
        (ih ((url, throw e) ∷ cs) _ ((e, refl), f) (ground (arith, r)))
  retry_if-UrlTried false e retry most attempt url saw cs w r f s ih =
      (((e, refl), f), omega arith, omega arith, ground (arith, r, s))

  answered-UrlTried :
      (reply : Result ErrorValue A)
      (retry : List (Call A) × W → Result (ErrorValue × Bool) A × (List (Call A) × W))
      (most attempt : ℕ) (url : Text) (saw : Bool) (cs : List (Call A)) (w : W)
      → All Failed cs
      → saw ≡ limited cs
      → ((ds : List (Call A)) (v : W)
          → All Failed ds
          → true ≡ limited ds
          → UrlTried (suc most) ds (retry (ds, v)).0 (retry (ds, v)).1.0)
      → UrlTried
          (suc (suc most))
          cs
          (answered (traced node) retries base reply retry attempt saw ((url, reply) ∷ cs, w)).0
          (answered (traced node) retries base reply retry attempt saw ((url, reply) ∷ cs, w)).1.0
  answered-UrlTried (ok a) retry most attempt url saw cs w f s ih = (refl, f, omega arith)
  answered-UrlTried (throw e) retry most attempt url saw cs w f s ih =
      retry_if-UrlTried _ e retry most attempt url saw cs w refl f s ih

  url_loop-UrlTried :
      (left attempt : ℕ) (url : Text) (saw : Bool) (cs : List (Call A)) (w : W)
      → All Failed cs
      → saw ≡ limited cs
      → UrlTried
          (suc left)
          cs
          (url_loop (traced node) retries base left attempt url saw (cs, w)).0
          (url_loop (traced node) retries base left attempt url saw (cs, w)).1.0
  unfolding url_loop
  url_loop-UrlTried zero attempt url saw cs w f s = ground arith
  url_loop-UrlTried (suc left) attempt url saw cs w f s =
      answered-UrlTried (node.operation url w).0
        (λ v. url_loop (traced node) retries base left (attempt + 1) url true v) left attempt url
        saw cs _ f s (λ ds v. url_loop-UrlTried left (attempt + 1) url true ds v)

  go_on-Tried :
      (n : ℕ) (reply : Result (ErrorValue × Bool) A)
      (next : ErrorValue → Bool → List (Call A) × W → Result BaseRpcError A × (List (Call A) × W))
      (cs after : List (Call A)) (w : W)
      → UrlTried (suc retries) cs reply after
      → ((e : ErrorValue) (saw : Bool) (ds : List (Call A)) (v : W)
          → All Failed ds
          → saw ≡ limited ds
          → Tried
              (length ds + n)
              (length ds + n * suc retries)
              (next e saw (ds, v)).0
              (next e saw (ds, v)).1.0)
      → Tried
          (length cs + suc n)
          (length cs + suc n * suc retries)
          (go_on (traced node) retries base reply next (after, w)).0
          (go_on (traced node) retries base reply next (after, w)).1.0
  go_on-Tried n (ok a) next cs [] w h ih = absurd h
  go_on-Tried n (ok a) next cs (d ∷ ds) w (e, f, l) ih = (e, f, grind (arith, l))
  go_on-Tried n (throw (e, saw)) next cs after w (f, l, m, s) ih =
      wider-Tried (length after + n) (length after + n * suc retries) _ _ _ _ (omega (arith, l))
        (grind (arith, m)) (ih e saw after w f s)

  urls_loop-Tried :
      (urls : List Text) (last : Option ErrorValue) (saw : Bool) (cs : List (Call A)) (w : W)
      → All Failed cs
      → saw ≡ limited cs
      → Tried
          (length cs + length urls)
          (length cs + length urls * suc retries)
          (urls_loop (traced node) retries base urls last saw (cs, w)).0
          (urls_loop (traced node) retries base urls last saw (cs, w)).1.0
  unfolding urls_loop
  urls_loop-Tried [] last saw cs w f s = (f, omega arith, omega arith, ap code_of s)
  urls_loop-Tried (url ∷ urls) last saw cs w f s =
      go_on-Tried (length urls) _ _ cs _ _ (url_loop-UrlTried retries 0 url saw cs w f s)
        (λ e saw' ds v g t. urls_loop-Tried urls (some e) saw' ds v g t)

  if_any-Tried :
      (urls : List Text) (w : W)
      → Tried
          (length urls)
          (length urls * suc retries)
          (if_any (traced node) retries base urls ([], w)).0
          (if_any (traced node) retries base urls ([], w)).1.0
  if_any-Tried [] w = (tt, omega arith, omega arith, refl)
  if_any-Tried (url ∷ urls) w =
      wider-Tried (0 + length (url ∷ urls)) (0 + length (url ∷ urls) * suc retries) _ _ _ _
        (omega arith) (omega arith) (urls_loop-Tried (url ∷ urls) none false [] w tt refl)

  -- An operation is called until it succeeds: a value is that of the last call, and all calls before
  -- failed. On an error every call failed, at least as many calls were made as there are URLs and at
  -- most once more than the retries for each, and the error's code is that of a rate limit exactly if
  -- a call was rate limited.
  pub base_rpc_retry-Tried :
      (url fallbacks : Option Text) (w : W)
      → Tried
          (length (get_base_rpc_urls url fallbacks))
          (length (get_base_rpc_urls url fallbacks) * suc retries)
          (with_base_rpc_retry (traced node) retries base url fallbacks ([], w)).0
          (with_base_rpc_retry (traced node) retries base url fallbacks ([], w)).1.0
  unfolding with_base_rpc_retry
  base_rpc_retry-Tried url fallbacks w = if_any-Tried (get_base_rpc_urls url fallbacks) w
