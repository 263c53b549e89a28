-- ===== src/Limitless/Config.antt =====
-- src/limitless/limitlessOrderClient.ts: the settings that trading needs. A variable is the text
-- that the environment holds, or `none`; a missing and an empty one are both falsy.
use team_index.Base.{
  List, [], ◌∷◌, ◌++◌, Option, some, Bool, true, false, Result, ok, throw, Text, ◌≡◌, ◌↔◌, ◌⊎◌,
  arith,
}

pub record TradingEnv : Type 0 where
  pub limitless_api_key : Option Text
  pub limitless_api_secret : Option Text
  pub limitless_order_signer_private_key : Option Text
  pub limitless_trader_private_key : Option Text

abbrev pub truthy : Option Text → Bool
truthy (some (c ∷ s)) = true
truthy _ = false

-- `a || b`
abbrev or_text : Option Text → Option Text → Option Text
or_text (some (c ∷ s)) b = some (c ∷ s)
or_text _ b = b

unfoldable pub get_limitless_order_signer_private_key : TradingEnv → Option Text
get_limitless_order_signer_private_key env =
    or_text env.limitless_order_signer_private_key env.limitless_trader_private_key

pub data Setting : Type 0 where
  api_key api_secret order_signer_private_key : Setting

abbrev unless : Bool → Setting → List Setting
unless true s = []
unless false s = s ∷ []

unfoldable pub missing_settings : TradingEnv → List Setting
unfolding get_limitless_order_signer_private_key
missing_settings env =
    unless (truthy env.limitless_api_key) api_key
    ++ (unless (truthy env.limitless_api_secret) api_secret
        ++ unless (truthy (get_limitless_order_signer_private_key env)) order_signer_private_key)

-- The error names the missing settings.
abbrev throw_missing : List Setting → Result (List Setting) (Unit {0})
throw_missing [] = ok tt
throw_missing (s ∷ missing) = throw (s ∷ missing)

unfoldable pub assert_limitless_trading_config : TradingEnv → Result (List Setting) (Unit {0})
unfolding missing_settings
assert_limitless_trading_config env = throw_missing (missing_settings env)

abbrev is_empty : List Setting → Bool
is_empty [] = true
is_empty (s ∷ missing) = false

unfoldable pub is_limitless_trading_ready : TradingEnv → Bool × List Setting
unfolding missing_settings
is_limitless_trading_ready env = (is_empty (missing_settings env), missing_settings env)

-- Trading is ready exactly when the assertion passes, and exactly when key and secret are set and
-- one of the two signer keys is; the reasons given are then none, and otherwise they are the
-- settings that the assertion's error names.
pub ready_iff :
    (env : TradingEnv)
    → (((is_limitless_trading_ready env).0 ≡ true) ↔ (assert_limitless_trading_config env ≡ ok tt))
      × (((is_limitless_trading_ready env).0 ≡ true) ↔ (
          (truthy env.limitless_api_key ≡ true)
          × (truthy env.limitless_api_secret ≡ true)
          × ((truthy env.limitless_order_signer_private_key ≡ true)
              ⊎ (truthy env.limitless_trader_private_key ≡ true))))
      × (((is_limitless_trading_ready env).1 ≡ [])
          ⊎ (assert_limitless_trading_config env ≡ throw (is_limitless_trading_ready env).1))
unfolding is_limitless_trading_ready assert_limitless_trading_config
ready_iff env =
    ((λ h. ground arith, λ h. ground arith), (λ h. ground arith, λ h. ground arith), ground arith)
