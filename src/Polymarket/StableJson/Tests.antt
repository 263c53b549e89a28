-- ===== src/Polymarket/StableJson/Tests.antt =====
-- Runs of the text of values.
use team_index.Base.{ℕ, ◌+◌, ◌≡◌, ◌≢◌, refl, [], ◌∷◌, ◌++◌, Text, codes, text_eq}
use team_index.Polymarket.StableJson.{
  Json, primitive, big, array, object, no_items, item, no_fields, field, text_lt, stable_json,
}
use team_index.Polymarket.StableJson.Reordered.{
  Same, same_array, same_object, same_none, same_item, same_end, same_field, swapped,
  stable_json-Same,
}

-- Digits
abbrev shown : ℕ → Text
shown n = (b'0' + n) ∷ []

abbrev quoted : Text → Text
quoted s = codes "'" ++ s ++ codes "'"

abbrev inner : Json ℕ
inner =
    object (field (codes "id") (primitive 1) (field (codes "amount") (big (codes "25")) no_fields))

abbrev inner_swapped : Json ℕ
inner_swapped =
    object (field (codes "amount") (big (codes "25")) (field (codes "id") (primitive 1) no_fields))

abbrev legs : Json ℕ → Json ℕ
legs v = object (field (codes "legs") (array (item v no_items)) no_fields)

id≢amount : codes "id" ≢ codes "amount"
id≢amount = cc

legs-Same : Same (legs inner) (legs inner_swapped)
legs-Same = same_object (
    same_field
      (same_array (
        same_item
          (same_object (
            swapped (codes "id") (codes "amount") (primitive 1) (big (codes "25")) no_fields
              id≢amount))
          same_none))
      same_end)

stable_json_run : stable_json shown quoted (legs inner) ≡ codes "{'legs':[{'amount':'25','id':1}]}"
unfolding stable_json text_lt text_eq
stable_json_run = refl

stable_json-Same_example :
    stable_json shown quoted (legs inner) ≡ stable_json shown quoted (legs inner_swapped)
stable_json-Same_example = stable_json-Same shown quoted (legs inner) (legs inner_swapped) legs-Same
