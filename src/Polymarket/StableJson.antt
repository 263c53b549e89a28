-- ===== src/Polymarket/StableJson.antt =====
-- src/polymarket/stableJson.ts: a text for a value that does not depend on the order of its keys. Texts
-- are lists of UTF-16 code units, and a function or undefined is no value of the model.
pub mod Order
pub mod Reordered
mod Tests
use team_index.Base.{
  ℕ, List, [], ◌∷◌, ◌++◌, map, Bool, true, false, ◌&&◌, ◌||◌, ltb, ◌==◌, if◌then◌else◌, Text, codes,
  text_eq,
}

-- Primitives are a parameter; `big` has the digits of a bigint.
mutual
  pub data Json (P : Type 0) : Type 0 where
    primitive : P → Json P
    big : Text → Json P
    array : Items P → Json P
    object : Fields P → Json P

  pub data Items (P : Type 0) : Type 0 where
    no_items : Items P
    item : Json P → Items P → Items P

  pub data Fields (P : Type 0) : Type 0 where
    no_fields : Fields P
    field : Text → Json P → Fields P → Fields P

-- The order of `sort`, by code units
unfoldable pub text_lt : Text → Text → Bool
text_lt s [] = false
text_lt [] (d ∷ t) = true
text_lt (c ∷ s) (d ∷ t) = ltb c d || (c == d && text_lt s t)

abbrev pub insert_key : Text → List Text → List Text
insert_key k [] = k ∷ []
insert_key k (l ∷ ls) = let rest = insert_key k ls in if text_lt l k then l ∷ rest else k ∷ l ∷ ls

abbrev pub sort_keys : List Text → List Text
sort_keys [] = []
sort_keys (k ∷ ks) = insert_key k (sort_keys ks)

-- The keys of an object, each with the text of its value
abbrev pub Members : Type 0
Members = List (Text × Text)

abbrev pub keys_of : Members → List Text
keys_of [] = []
keys_of (m ∷ ms) = m.0 ∷ keys_of ms

-- The text of `value[key]`
abbrev pub text_at : Text → Members → Text
text_at k [] = []
text_at k (m ∷ ms) = let rest = text_at k ms in if text_eq m.0 k then m.1 else rest

abbrev pub join : List Text → Text
join [] = []
join (s ∷ []) = s
join (s ∷ t ∷ ts) = s ++ codes "," ++ join (t ∷ ts)

-- `JSON.stringify` of primitives and of texts
module _ {P : Type 0} (stringify : P → Text) (quoted : Text → Text) where
  abbrev pub member_text : Members → Text → Text
  member_text ms k = quoted k ++ codes ":" ++ text_at k ms

  abbrev pub object_text : Members → Text
  object_text ms = codes "{" ++ join (map (member_text ms) (sort_keys (keys_of ms))) ++ codes "}"

  unfoldable mutual
    pub stable_json : Json P → Text
    stable_json (primitive p) = stringify p
    stable_json (big digits) = quoted digits
    stable_json (array xs) = codes "[" ++ join (items_texts xs) ++ codes "]"
    stable_json (object fs) = object_text (members fs)

    pub items_texts : Items P → List Text
    items_texts no_items = []
    items_texts (item v xs) = stable_json v ∷ items_texts xs

    pub members : Fields P → Members
    members no_fields = []
    members (field k v fs) = (k, stable_json v) ∷ members fs
