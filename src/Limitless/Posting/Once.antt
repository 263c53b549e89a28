-- ===== src/Limitless/Posting/Once.antt =====
-- An order of limitlessOrderClient.ts is placed at most once, however the API answers.
use team_index.Base.{
  ℕ, ◌≤◌, List, [], ◌∷◌, Option, none, some, true, false, ◌≡◌, ◌⊎◌, refl, arith, Result, ok, throw,
  Text, All, length,
}
use team_index.Limitless.Config.{Setting}
use team_index.Limitless.OrderResult.{OrderResult}
use team_index.Limitless.Posting.{
  Api, PostEnv, PostParams, PostError, refused, posting_failed, delegated_failed, Prepared, prepare,
  delegated_post, wallet_post, get_owner_id, signed_of, post_limitless_order, Refusal, Market,
  SigningMode, server_wallet, signed, with_key, by_mode, if_prepared, if_found, if_configured,
}
use team_index.Limitless.Posting.Retries.{Request, Attempt, Orders, Signed, Failure, signed_post}

-- A post and its answer.
abbrev pub Post : Type 0
Post = Request × Result Text OrderResult

-- An API that also keeps the posts that it received, the latest first.
abbrev pub traced : {W : Type 0} → Orders W → Orders (List Post × W)
traced orders = record {
  post_json = λ r s. (
    (orders.post_json r s.1).0,
    ((r, (orders.post_json r s.1).0) ∷ s.0, (orders.post_json r s.1).1),
  );
}

abbrev pub Failed : Post → Type 0
Failed p = (e : Text) × (p.1 ≡ throw e)

-- An outcome against the posts made: at most three; on success the last one succeeded and all
-- before it failed, and otherwise all failed and the error lists as many attempts.
abbrev pub Placed : Result Failure OrderResult → List Post → Type 0
Placed (ok result) [] = ⊥
Placed (ok result) (p ∷ ps) = (p.1 ≡ ok result) × All Failed ps × (length ps ≤ 2)
Placed (throw (e, attempts)) ps =
    All Failed ps × (1 ≤ length ps) × (length ps ≤ 3) × (length attempts ≡ length ps)

abbrev pub HasType : Signed → Option Attempt → Type 0
HasType s none = ⊥
HasType s (some a) =
    (a.signature_type ≡ s.signature_type)
    ⊎ (a.signature_type ≡ 3) × (s.has_maker ≡ true) × (s.signature_type_override ≡ false)

-- A post of the order `s`, with its own type of signature or, for a given maker and no override,
-- type 3.
abbrev pub IsPostOf : Signed → Post → Type 0
IsPostOf s (r, reply) = (r.order ≡ s.order) × HasType s r.attempt

-- An API as a whole, with the posts that it received.
abbrev pub traced_api : {W : Type 0} → Api W → Api (List Post × W)
traced_api api = record {
  orders = traced api.orders;
  get_market_by_slug =
      λ slug s. ((api.get_market_by_slug slug s.1).0, (s.0, (api.get_market_by_slug slug s.1).1));
  get_profile_me = λ s. ((api.get_profile_me s.1).0, (s.0, (api.get_profile_me s.1).1));
  get_profile = λ s. ((api.get_profile s.1).0, (s.0, (api.get_profile s.1).1));
  wallet_address = api.wallet_address;
}

-- The outcome of `postLimitlessOrder` against the posts made: none is made where the order is
-- refused before, one for a server wallet that fails.
abbrev pub Ordered : Result PostError OrderResult → List Post → Type 0
Ordered (ok result) ps = Placed (ok result) ps
Ordered (throw (posting_failed failure)) ps = Placed (throw failure) ps
Ordered (throw (delegated_failed e)) ps = All Failed ps × (length ps ≡ 1)
Ordered (throw (refused e)) ps = ps ≡ []

module _ {W : Type 0} (orders : Orders W) (s : Signed) where
  pub signed_post-Placed :
      (exchange : Text) (w : W)
      → Placed
          (signed_post (traced orders) s exchange ([], w)).0
          (signed_post (traced orders) s exchange ([], w)).1.0
  unfolding signed_post
  signed_post-Placed exchange w = ground arith

  -- Every attempt at an order posts the same order; only the exchange and the type of signature
  -- change, and the type only to 3, for a maker that was given, with no type configured.
  pub signed_post-IsPostOf :
      (exchange : Text) (w : W)
      → All (IsPostOf s) (signed_post (traced orders) s exchange ([], w)).1.0
  unfolding signed_post
  signed_post-IsPostOf exchange w = ground arith

module _ {W : Type 0} (api : Api W) where
  get_owner_id-posts : (w : W) → (get_owner_id (traced_api api) ([], w)).1.0 ≡ []
  unfolding get_owner_id
  get_owner_id-posts w = ground arith

  delegated_post-Ordered :
      (p : PostParams) (q : Prepared) (w : W)
      → Ordered
          (delegated_post (traced_api api) p q ([], w)).0
          (delegated_post (traced_api api) p q ([], w)).1.0
  unfolding delegated_post
  delegated_post-Ordered p q w = ground arith

  wallet_post-Ordered :
      (env : PostEnv) (p : PostParams) (q : Prepared) (key : Text) (w : W)
      → Ordered
          (wallet_post (traced_api api) env p q key ([], w)).0
          (wallet_post (traced_api api) env p q key ([], w)).1.0
  unfolding wallet_post
  wallet_post-Ordered env p q key w = ground (
    arith,
    get_owner_id-posts w,
    λ (n : ℕ) (v : W).
        signed_post-Placed api.orders (signed_of env p q n (api.wallet_address key)) q.exchange v,
  )

  module _ (env : PostEnv) (p : PostParams) where
    abbrev Fine : Result PostError OrderResult × (List Post × W) → Type 0
    Fine o = Ordered o.0 o.1.0

    with_key-Ordered :
        (q : Prepared) (key : Option Text) (w : W)
        → Fine (with_key (traced_api api) env p q key ([], w))
    with_key-Ordered q none w = refl
    with_key-Ordered q (some []) w = refl
    with_key-Ordered q (some (c ∷ key)) w = wallet_post-Ordered env p q (c ∷ key) w

    by_mode-Ordered :
        (q : Prepared) (mode : SigningMode) (w : W)
        → Fine (by_mode (traced_api api) env p q mode ([], w))
    by_mode-Ordered q server_wallet w = delegated_post-Ordered p q w
    by_mode-Ordered q signed w = with_key-Ordered q _ w

    if_prepared-Ordered :
        (r : Result Refusal Prepared) (w : W) → Fine (if_prepared (traced_api api) env p r ([], w))
    if_prepared-Ordered (throw e) w = refl
    if_prepared-Ordered (ok q) w = by_mode-Ordered q _ w

    if_found-Ordered :
        (r : Result Text (Option Market)) (w : W) → Fine (if_found (traced_api api) env p r ([], w))
    if_found-Ordered (throw e) w = refl
    if_found-Ordered (ok none) w = refl
    if_found-Ordered (ok (some m)) w = if_prepared-Ordered (prepare env p m) w

    if_configured-Ordered :
        (r : Result (List Setting) (Unit {0})) (w : W)
        → Fine (if_configured (traced_api api) env p r ([], w))
    if_configured-Ordered (throw missing) w = refl
    if_configured-Ordered (ok _) w =
        if_found-Ordered (api.get_market_by_slug p.market_slug w).0
          (api.get_market_by_slug p.market_slug w).1

-- However the API answers, an order is placed at most once: a success comes from the last of at
-- most three posts and all before it failed; an error after posting means that every post failed;
-- and an order that is refused earlier, by the settings, the market, the amounts, the fee, the
-- profile or the key, is not posted at all.
pub post_limitless_order-Ordered :
    {W : Type 0} (api : Api W) (env : PostEnv) (p : PostParams) (w : W)
    → Ordered
        (post_limitless_order (traced_api api) env p ([], w)).0
        (post_limitless_order (traced_api api) env p ([], w)).1.0
unfolding post_limitless_order
post_limitless_order-Ordered api env p w = if_configured-Ordered api env p _ w
