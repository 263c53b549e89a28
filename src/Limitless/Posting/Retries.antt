-- ===== src/Limitless/Posting/Retries.antt =====
-- src/limitless/limitlessOrderClient.ts: signing and posting, tried again with the exchange that the
-- API names and with signature type 3.
use team_index.Base.{
  ℕ, List, [], ◌∷◌, ◌++◌, Option, none, some, Bool, not, ◌&&◌, Result, ok, throw, ◌==◌,
  if◌then◌else◌, Text, to_lower, text_eq,
}
use team_index.Limitless.Amounts.{Side, OrderAmounts}
use team_index.Limitless.OrderResult.{OrderResult}
use team_index.Limitless.Posting.Messages.{
  extract_expected_exchange_address, is_invalid_signature_error,
}

pub data OrderType : Type 0 where
  gtc fok : OrderType

-- What the body of POST /orders holds, but for the random salt. `expiration` and `nonce` are 0.
pub record OrderFields : Type 0 where
  pub owner_id : ℕ
  pub on_behalf_of : Option ℕ
  pub order_type : OrderType
  pub market_slug : Text
  pub maker : Text
  pub token_id : Text
  pub amounts : OrderAmounts
  pub price : Option ℕ
  pub fee_rate_bps : ℕ
  pub side : Side

pub data Source : Type 0 where
  market api_retry signature_type_retry : Source

pub record Attempt : Type 0 where
  pub exchange_source : Source
  pub verifying_contract : Text
  pub signature_type : ℕ

-- `attempt` is `none` for an order that the server wallet signs.
pub record Request : Type 0 where
  pub order : OrderFields
  pub attempt : Option Attempt

-- The Limitless API behind POST /orders: the answer, or the message of the error thrown.
pub record Orders (W : Type 0) : Type 0 where
  pub post_json : Request → W → Result Text OrderResult × W

-- The message of an error with the attempts that `withAttemptContext` adds to it.
abbrev pub Failure : Type 0
Failure = Text × List Attempt

pub record Signed : Type 0 where
  pub order : OrderFields
  -- `params.makerAddress` was given
  pub has_maker : Bool
  pub signature_type_override : Bool
  pub signature_type : ℕ

module _ {W : Type 0} (orders : Orders W) (s : Signed) where
  unfoldable pub sign_and_post : Attempt → W → Result Text OrderResult × W
  sign_and_post attempt w = orders.post_json (record { order = s.order; attempt = some attempt }) w

  abbrev pub may_change_type : Text → Bool
  may_change_type message =
      s.has_maker
      && (not s.signature_type_override
          && (not (s.signature_type == 3) && is_invalid_signature_error message))

  -- The handler of a failed attempt: once more with signature type 3, or the error.
  unfoldable pub retry_signature_type :
      Text → Text → List Attempt → W → Result Failure OrderResult × W
  unfolding sign_and_post
  retry_signature_type message exchange attempts w =
      let attempt : Attempt = record {
        exchange_source = signature_type_retry;
        verifying_contract = exchange;
        signature_type = 3;
      } in
      let again : Result Failure OrderResult × W =
        (let (reply, w') = sign_and_post attempt w in
          elim reply [
            | ok result ↦ (ok result, w')
            | throw e ↦ (throw (e, attempts ++ attempt ∷ []), w')
          ]) in
      if may_change_type message then again else (throw (message, attempts), w)

  -- The exchange that the message names, if it is another one.
  abbrev other_exchange : Text → Text → Option Text
  other_exchange verifying_contract message = elim (extract_expected_exchange_address message) [
    | none ↦ none
    | some expected ↦
        if text_eq (to_lower expected) (to_lower verifying_contract) then none else some expected
  ]

  unfoldable pub retry_exchange : Text → Attempt → W → Result Failure OrderResult × W
  unfolding sign_and_post retry_signature_type
  retry_exchange expected first w =
      let attempt : Attempt = record {
        exchange_source = api_retry;
        verifying_contract = expected;
        signature_type = s.signature_type;
      } in
      let (reply, w') = sign_and_post attempt w in
      elim reply [
        | ok result ↦ (ok result, w')
        | throw e ↦ retry_signature_type e expected (first ∷ attempt ∷ []) w'
      ]

  unfoldable pub signed_post : Text → W → Result Failure OrderResult × W
  unfolding sign_and_post retry_signature_type retry_exchange
  signed_post verifying_contract w =
      let first : Attempt = record {
        exchange_source = market;
        verifying_contract = verifying_contract;
        signature_type = s.signature_type;
      } in
      let (reply, w') = sign_and_post first w in
      elim reply [
        | ok result ↦ (ok result, w')
        | throw e ↦ elim (other_exchange verifying_contract e) [
          | some expected ↦ retry_exchange expected first w'
          | none ↦ retry_signature_type e verifying_contract (first ∷ []) w'
        ]
      ]
