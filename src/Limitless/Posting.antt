-- ===== src/Limitless/Posting.antt =====
-- src/limitless/limitlessOrderClient.ts: posting an order, with its retries.
pub mod Messages
pub mod Retries
pub mod Once
use team_index.Base.{
  ℕ, ◌+◌, List, [], ◌∷◌, ◌++◌, Option, none, some, Bool, true, false, not, ◌&&◌, ◌||◌, Result, zero,
  suc, ok, throw, ◌<|>◌, ltb, leb, ◌==◌, if◌then◌else◌, Text, codes, to_lower, text_eq,
}
use team_index.Limitless.Amounts.{
  Side, Number, plus, OrderAmounts, AmountError, quote_limitless_order_amounts,
  quote_limitless_fok_amounts,
}
use team_index.Limitless.Config.{
  TradingEnv, Setting, truthy, assert_limitless_trading_config,
  get_limitless_order_signer_private_key,
}
use team_index.Limitless.OrderResult.{OrderResult}
use Messages.{is_eth_address}
use Retries.{
  Source, Attempt, Signed, Request, OrderFields, Orders, OrderType, gtc, fok, market, signed_post,
}

pub data Outcome : Type 0 where
  yes_outcome no_outcome : Outcome

pub data SigningMode : Type 0 where
  signed server_wallet : SigningMode

-- `Number(...)` of a fee rate: a whole number that is not negative, or something else.
pub data FeeRate : Type 0 where
  bps : ℕ → FeeRate
  not_whole : FeeRate

pub record PostParams : Type 0 where
  pub market_slug : Text
  pub outcome : Outcome
  pub price : Number
  pub size : ℕ
  pub side : Side
  pub order_type : Option OrderType
  pub maker_address : Option Text
  pub signing_mode : Option SigningMode
  pub owner_id : Option ℕ
  pub on_behalf_of : Option ℕ
  pub signature_type : Option ℕ
  pub fee_rate_bps : Option FeeRate

pub record Market : Type 0 where
  pub exchange : Option Text
  -- the ids of the "yes" and the "no" token
  pub tokens : Option (Text × Text)

pub record Profile : Type 0 where
  pub id : Option ℕ
  pub profile_id : Option ℕ

-- LIMITLESS_SIGNATURE_TYPE, where it is set and not empty: a finite number, or not.
pub data TypeSetting : Type 0 where
  finite : ℕ → TypeSetting
  not_finite : TypeSetting

pub record PostEnv : Type 0 where
  pub trading : TradingEnv
  pub fee_rate_bps : Option FeeRate
  pub signature_type : Option TypeSetting

-- The Limitless API, and the address of the wallet of a private key (ethers).
pub record Api (W : Type 0) : Type 0 where
  pub orders : Orders W
  pub get_market_by_slug : Text → W → Result Text (Option Market) × W
  -- GET /profiles/me and GET /profile
  pub get_profile_me : W → Result Text Profile × W
  pub get_profile : W → Result Text Profile × W
  pub wallet_address : Text → Text

-- The errors thrown before anything is posted.
pub data Refusal : Type 0 where
  not_configured : List Setting → Refusal
  api_failed : Text → Refusal
  market_not_found no_exchange no_tokens : Refusal
  bad_amount : AmountError → Refusal
  invalid_fee_rate no_profile_id no_maker_address no_private_key no_owner_id : Refusal

pub data PostError : Type 0 where
  refused : Refusal → PostError
  delegated_failed : Text → PostError
  posting_failed : Text × List Attempt → PostError

-- The parts of an order that do not depend on the mode of signing.
pub record Prepared : Type 0 where
  pub exchange : Text
  pub token_id : Text
  pub order_type : OrderType
  pub price : Option ℕ
  pub amounts : OrderAmounts
  pub fee_rate_bps : ℕ

abbrev pub amounts_of : OrderType → PostParams → Result Refusal (Option ℕ × OrderAmounts)
amounts_of gtc p =
    let quote = quote_limitless_order_amounts p.price p.size p.side in ok (some quote.0, quote.1)
amounts_of fok p = elim (quote_limitless_fok_amounts (plus p.size)) [
  | ok amounts ↦ ok (none, amounts)
  | throw e ↦ throw (bad_amount e)
]

abbrev fee_of : FeeRate → Result Refusal ℕ
fee_of (bps n) = if ltb 0 n then ok n else throw invalid_fee_rate
fee_of not_whole = throw invalid_fee_rate

abbrev or_else {ℓ} : {A : Type ℓ} → Option A → A → A
or_else none d = d
or_else (some a) d = a

abbrev exchange_of : Option Text → Result Refusal Text
exchange_of (some (c ∷ s)) = ok (c ∷ s)
exchange_of _ = throw no_exchange

abbrev tokens_of : Option (Text × Text) → Result Refusal (Text × Text)
tokens_of none = throw no_tokens
tokens_of (some t) = ok t

abbrev token_of : Outcome → Text × Text → Text
token_of yes_outcome t = t.0
token_of no_outcome t = t.1

infixl 5 ◌>>=◌
abbrev ◌>>=◌ : {A B : Type 0} → Result Refusal A → (A → Result Refusal B) → Result Refusal B
ok a >>= f = f a
throw e >>= f = throw e

unfoldable pub prepare : PostEnv → PostParams → Market → Result Refusal Prepared
prepare env p m = do
  exchange ← exchange_of m.exchange
  tokens ← tokens_of m.tokens
  quote ← amounts_of (or_else p.order_type fok) p
  fee ← fee_of (or_else (p.fee_rate_bps <|> env.fee_rate_bps) (bps 300))
  ok (record {
    exchange = exchange;
    token_id = token_of p.outcome tokens;
    order_type = or_else p.order_type fok;
    price = quote.0;
    amounts = quote.1;
    fee_rate_bps = fee;
  })

abbrev pub order_fields : PostParams → Prepared → ℕ → Option ℕ → Text → OrderFields
order_fields p q owner behalf maker = record {
  owner_id = owner;
  on_behalf_of = behalf;
  order_type = q.order_type;
  market_slug = p.market_slug;
  maker = maker;
  token_id = q.token_id;
  amounts = q.amounts;
  price = q.price;
  fee_rate_bps = q.fee_rate_bps;
  side = p.side;
}

-- A profile id that is present and not 0, and a maker that is an address.
abbrev delegated_fields : PostParams → Prepared → Result Refusal OrderFields
delegated_fields p q = elim (or_else (p.on_behalf_of <|> p.owner_id) 0) [
  | zero ↦ throw no_profile_id
  | suc n ↦
      if truthy p.maker_address && is_eth_address (or_else p.maker_address [])
      then ok (order_fields p q (suc n) (some (suc n)) (or_else p.maker_address []))
      else throw no_maker_address
]

abbrev id_of : Profile → Result Refusal ℕ
id_of profile = elim (or_else (profile.id <|> profile.profile_id) 0) [
  | zero ↦ throw no_owner_id
  | suc n ↦ ok (suc n)
]

abbrev erc1271_signature_type : Option TypeSetting → ℕ
erc1271_signature_type (some (finite n)) = n
erc1271_signature_type _ = 2

abbrev is_given {ℓ} : {A : Type ℓ} → Option A → Bool
is_given none = false
is_given (some a) = true

abbrev pub signed_of : PostEnv → PostParams → Prepared → ℕ → Text → Signed
signed_of env p q owner wallet = record {
  order = order_fields p q owner (p.on_behalf_of <|> p.owner_id) (or_else p.maker_address wallet);
  has_maker = truthy p.maker_address;
  signature_type_override = is_given p.signature_type || is_given env.signature_type;
  signature_type =
      or_else p.signature_type
        (if truthy p.maker_address then erc1271_signature_type env.signature_type else 0);
}

module _ {W : Type 0} (api : Api W) where
  unfoldable pub get_owner_id : W → Result Refusal ℕ × W
  get_owner_id w =
      let (me, w1) = api.get_profile_me w in
      elim me [
        | ok profile ↦ (id_of profile, w1)
        | throw e ↦
            let (legacy, w2) = api.get_profile w1 in
            elim legacy [
              | ok profile ↦ (id_of profile, w2)
              | throw e' ↦ (throw (api_failed e'), w2)
            ]
      ]

  -- `params.ownerId ?? await getOwnerId(env)`
  abbrev owner_of : Option ℕ → W → Result Refusal ℕ × W
  owner_of (some n) w = (ok n, w)
  owner_of none w = get_owner_id w

  unfoldable pub delegated_post : PostParams → Prepared → W → Result PostError OrderResult × W
  delegated_post p q w = elim (delegated_fields p q) [
    | throw e ↦ (throw (refused e), w)
    | ok order ↦
        let (reply, w') = api.orders.post_json (record { order = order; attempt = none }) w in
        elim reply [ ok result ↦ (ok result, w') | throw e ↦ (throw (delegated_failed e), w') ]
  ]

  abbrev as_failed : Result (Text × List Attempt) OrderResult → Result PostError OrderResult
  as_failed (ok result) = ok result
  as_failed (throw failure) = throw (posting_failed failure)

  unfoldable pub wallet_post :
      PostEnv → PostParams → Prepared → Text → W → Result PostError OrderResult × W
  unfolding get_owner_id signed_post
  wallet_post env p q key w =
      let (owner, w1) = owner_of p.owner_id w in
      elim owner [
        | throw e ↦ (throw (refused e), w1)
        | ok n ↦
            let (reply, w2) =
              signed_post api.orders (signed_of env p q n (api.wallet_address key)) q.exchange w1 in
            (as_failed reply, w2)
      ]

  module _ (env : PostEnv) (p : PostParams) where
    abbrev pub with_key : Prepared → Option Text → W → Result PostError OrderResult × W
    with_key q (some (c ∷ key)) w = wallet_post env p q (c ∷ key) w
    with_key q _ w = (throw (refused no_private_key), w)

    abbrev pub by_mode : Prepared → SigningMode → W → Result PostError OrderResult × W
    by_mode q server_wallet w = delegated_post p q w
    by_mode q signed w = with_key q (get_limitless_order_signer_private_key env.trading) w

    abbrev pub if_prepared : Result Refusal Prepared → W → Result PostError OrderResult × W
    if_prepared (throw e) w = (throw (refused e), w)
    if_prepared (ok q) w = by_mode q (or_else p.signing_mode signed) w

    abbrev pub if_found : Result Text (Option Market) → W → Result PostError OrderResult × W
    if_found (throw e) w = (throw (refused (api_failed e)), w)
    if_found (ok none) w = (throw (refused market_not_found), w)
    if_found (ok (some m)) w = if_prepared (prepare env p m) w

    abbrev pub if_configured :
        Result (List Setting) (Unit {0}) → W → Result PostError OrderResult × W
    if_configured (throw missing) w = (throw (refused (not_configured missing)), w)
    if_configured (ok _) w =
        let (found, w') = api.get_market_by_slug p.market_slug w in if_found found w'

    unfoldable pub post_limitless_order : W → Result PostError OrderResult × W
    post_limitless_order w = if_configured (assert_limitless_trading_config env.trading) w
