-- ===== src/Limitless/OrderResult/Acceptance.antt =====
-- When the answer to an order of limitlessOrderClient.ts counts as accepted.
use team_index.Base.{
  List, [], ◌∷◌, Option, none, some, Bool, true, false, ◌≡◌, ◌≢◌, ◌⊎◌, inl, inr, refl, arith, Text,
  any, Bool-cases, to_lower, text_eq,
}
use team_index.Limitless.Config.{truthy}
use team_index.Limitless.OrderResult.{
  OrderResult, present, statuses, is_rejected_status, is_accepted_status, is_accepted_order_result,
  get_limitless_order_id,
}

-- `s` stands in one of the four places for a status.
abbrev pub HasStatus : OrderResult → Text → Type 0
HasStatus r s =
    (r.status ≡ some s)
    ⊎ (r.order_status ≡ some s)
    ⊎ (r.execution_status ≡ some s)
    ⊎ (r.settlement_status ≡ some s)

empty_is_no_word : (is_rejected_status [] ≡ false) × (is_accepted_status [] ≡ false)
unfolding is_rejected_status is_accepted_status text_eq to_lower
empty_is_no_word = (refl, refl)

-- A word of rejection in any of the four places, in any letter case, rejects the order, whatever
-- the other places and the order id say.
pub rejected_word_wins :
    (r : OrderResult) (s : Text)
    → HasStatus r s
    → is_rejected_status s ≡ true
    → is_accepted_order_result (some r) ≡ false
unfolding is_accepted_order_result
rejected_word_wins r [] h w = absurd (cc (empty_is_no_word.0))
rejected_word_wins r (c ∷ s) h w = ground arith

any-present :
    (p : Text → Bool) (o : Option Text) (rest : List Text)
    → any p (present o rest) ≡ true
    → ((s : Text) × (o ≡ some s) × (p s ≡ true)) ⊎ (any p rest ≡ true)
any-present p none rest h = inr h
any-present p (some []) rest h = inr h
any-present p (some (c ∷ s)) rest h = elim (Bool-cases (p (c ∷ s))) [
  | inl word ↦ inl ((c ∷ s), refl, word)
  | inr other ↦ inr (ground arith)
]

any-statuses :
    (p : Text → Bool) (r : OrderResult)
    → any p (statuses r) ≡ true
    → (s : Text) × HasStatus r s × (p s ≡ true)
unfolding statuses
any-statuses p r h = elim (any-present p r.status _ h) [
  | inl (s, e, w) ↦ (s, inl e, w)
  | inr h ↦ elim (any-present p r.order_status _ h) [
    | inl (s, e, w) ↦ (s, inr (inl e), w)
    | inr h ↦ elim (any-present p r.execution_status _ h) [
      | inl (s, e, w) ↦ (s, inr (inr (inl e)), w)
      | inr h ↦ elim (any-present p r.settlement_status _ h) [
        | inl (s, e, w) ↦ (s, inr (inr (inr e)), w)
        | inr h ↦ absurd (cc h)
      ]
    ]
  ]
]

-- An order counts as accepted only if the answer does not say that it failed, no status is a word
-- of rejection, and some status is a word of acceptance or else there is an order id and neither an
-- error nor a message.
pub accepted_needs :
    (r : OrderResult)
    → is_accepted_order_result (some r) ≡ true
    → (r.success ≢ some false)
      × (any is_rejected_status (statuses r) ≡ false)
      × (((s : Text) × HasStatus r s × (is_accepted_status s ≡ true))
          ⊎ (get_limitless_order_id (some r) ≢ none)
            × (truthy r.error ≡ false)
            × (truthy r.message ≡ false))
unfolding is_accepted_order_result
accepted_needs r h = elim (Bool-cases (any is_accepted_status (statuses r))) [
  | inl word ↦ (ground arith, ground arith, inl (any-statuses is_accepted_status r word))
  | inr no_word ↦ (ground arith, ground arith, inr (ground arith, ground arith, ground arith))
]
