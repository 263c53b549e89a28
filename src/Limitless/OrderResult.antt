-- ===== src/Limitless/OrderResult.antt =====
-- src/limitless/limitlessOrderClient.ts: what the answer to an order says. The model keeps the fields
-- that the code reads; a field that is absent or null is `none`, and other values are the text that
-- `String` prints for them.
pub mod Acceptance
pub mod Fill
use team_index.Base.{
  ℕ, List, [], ◌∷◌, ◌++◌, map, Option, none, some, Bool, true, false, not, ◌&&◌, ◌||◌,
  if◌then◌else◌, Text, codes, to_lower, text_eq, any, ◌<|>◌,
}
use team_index.Limitless.Config.{truthy}

-- `totalsRaw`, its numbers in millionths; what is no number counts as 0.
pub record ExecutionTotals : Type 0 where
  pub usd_gross : Option ℕ
  pub usd_fee : Option ℕ
  pub contracts_net : Option ℕ
  pub contracts_gross : Option ℕ

pub record OrderResult : Type 0 where
  pub order_id : Option Text
  pub order_id_upper : Option Text
  pub id : Option Text
  pub nested_order_id : Option Text
  pub nested_order_id_upper : Option Text
  pub nested_id : Option Text
  pub success : Option Bool
  pub status : Option Text
  pub order_status : Option Text
  pub execution_status : Option Text
  pub settlement_status : Option Text
  pub error_msg : Option Text
  pub error : Option Text
  pub message : Option Text
  -- of `execution`, or else of `order.execution`
  pub totals : Option ExecutionTotals
  -- the `matchedSize` of each of `makerMatches`
  pub maker_matches : List ℕ

-- `id == null || id === "" ? null : String(id)`
abbrev non_empty : Option Text → Option Text
non_empty (some (c ∷ s)) = some (c ∷ s)
non_empty _ = none

unfoldable pub get_limitless_order_id : Option OrderResult → Option Text
get_limitless_order_id none = none
get_limitless_order_id (some r) = non_empty (
    r.order_id <|> r.order_id_upper <|> r.id <|> r.nested_order_id <|> r.nested_order_id_upper
    <|> r.nested_id)

abbrev pub member : Text → List Text → Bool
member s = any (text_eq s)

abbrev pub rejected_statuses : List Text
rejected_statuses =
    codes "rejected"
    ∷ codes "reject"
    ∷ codes "cancelled"
    ∷ codes "canceled"
    ∷ codes "failed"
    ∷ codes "failure"
    ∷ codes "error"
    ∷ codes "unmatched"
    ∷ []

abbrev pub accepted_statuses : List Text
accepted_statuses =
    codes "live"
    ∷ codes "matched"
    ∷ codes "mined"
    ∷ codes "confirmed"
    ∷ codes "open"
    ∷ codes "pending"
    ∷ codes "delayed"
    ∷ []

unfoldable pub is_rejected_status : Text → Bool
is_rejected_status s = member (to_lower s) rejected_statuses

unfoldable pub is_accepted_status : Text → Bool
is_accepted_status s = member (to_lower s) accepted_statuses

-- `map(String(status ?? "").toLowerCase()).filter(Boolean)`: an absent status and an empty one drop out
abbrev present : Option Text → List Text → List Text
present (some (c ∷ s)) rest = (c ∷ s) ∷ rest
present _ rest = rest

unfoldable pub statuses : OrderResult → List Text
statuses r =
    present r.status
      (present r.order_status (present r.execution_status (present r.settlement_status [])))

abbrev is_false : Option Bool → Bool
is_false (some false) = true
is_false _ = false

abbrev is_some : Option Text → Bool
is_some none = false
is_some (some s) = true

unfoldable pub is_accepted_order_result : Option OrderResult → Bool
unfolding statuses
is_accepted_order_result none = false
is_accepted_order_result (some r) =
    if is_false r.success
    then false
    else if any is_rejected_status (statuses r)
    then false
    else if any is_accepted_status (statuses r)
    then true
    else is_some (get_limitless_order_id (some r))
      && (not (truthy r.error) && not (truthy r.message))

abbrev or_unknown : Option Text → Text
or_unknown none = codes "unknown"
or_unknown (some s) = s

abbrev with_reason : Text → Option Text → Text
with_reason status (some (c ∷ s)) = codes "Order rejected (" ++ (status ++ (codes "): " ++ (c ∷ s)))
with_reason status _ = codes "Order rejected (" ++ (status ++ codes ")")

unfoldable pub get_order_reject_message : Option OrderResult → Text
get_order_reject_message none = codes "No order result"
get_order_reject_message (some r) =
    with_reason
      (or_unknown (r.status <|> r.order_status <|> r.execution_status <|> r.settlement_status))
      (r.error_msg <|> r.error <|> r.message)
