-- ===== src/Polymarket/StableJson/Reordered.antt =====
-- src/polymarket/stableJson.ts: values that differ in the order of keys.
use team_index.Base.{
  ◌≡◌, ◌≢◌, refl, sym, ap, ◌∙◌, List, [], ◌∷◌, ◌++◌, map, Text, codes, text_eq, text_eq_iff,
  Bool-cases, inl, inr,
}
use team_index.Polymarket.StableJson.{
  Json, primitive, big, array, object, Items, no_items, item, Fields, no_fields, field, insert_key,
  sort_keys, Members, keys_of, text_at, join, member_text, object_text, stable_json, items_texts,
  members,
}
use team_index.Polymarket.StableJson.Order.{insert_comm}

-- Two values that are the same but for the order of the keys of their objects, at any depth: neighbouring
-- fields of different keys may change places, any number of times.
mutual
  pub data Same {P : Type 0} : Json P → Json P → Type 0 where
    same_primitive : (p : P) → Same (primitive p) (primitive p)
    same_big : (s : Text) → Same (big s) (big s)
    same_array : {xs ys : Items P} → SameItems xs ys → Same (array xs) (array ys)
    same_object : {fs gs : Fields P} → SameFields fs gs → Same (object fs) (object gs)

  pub data SameItems {P : Type 0} : Items P → Items P → Type 0 where
    same_none : SameItems no_items no_items
    same_item :
        {v w : Json P} {xs ys : Items P}
        → Same v w
        → SameItems xs ys
        → SameItems (item v xs) (item w ys)

  pub data SameFields {P : Type 0} : Fields P → Fields P → Type 0 where
    same_end : SameFields no_fields no_fields
    same_field :
        {k : Text} {v w : Json P} {fs gs : Fields P}
        → Same v w
        → SameFields fs gs
        → SameFields (field k v fs) (field k w gs)
    swapped :
        (k l : Text) (v w : Json P) (fs : Fields P)
        → k ≢ l
        → SameFields (field k v (field l w fs)) (field l w (field k v fs))
    then_fields : {fs gs hs : Fields P} → SameFields fs gs → SameFields gs hs → SameFields fs hs

-- The same keys in some order, and the same text for each
abbrev Agree : Members → Members → Type 0
Agree ms ns =
    (sort_keys (keys_of ms) ≡ sort_keys (keys_of ns)) × ((k : Text) → text_at k ms ≡ text_at k ns)

text_at-swapped :
    (k l : Text) (s t : Text) (ms : Members) (a : Text)
    → k ≢ l
    → text_at a ((k, s) ∷ (l, t) ∷ ms) ≡ text_at a ((l, t) ∷ (k, s) ∷ ms)
text_at-swapped k l s t ms a n = elim (Bool-cases (text_eq k a)) [
  | inr e ↦ rw e refl
  | inl e ↦ elim (Bool-cases (text_eq l a)) [
    | inr d ↦ rw (e, d) refl
    | inl d ↦ absurd (n ((text_eq_iff k a).0 e ∙ sym ((text_eq_iff l a).0 d)))
  ]
]

text_at-cons :
    (k : Text) (s : Text) (ms ns : Members) (a : Text)
    → text_at a ms ≡ text_at a ns
    → text_at a ((k, s) ∷ ms) ≡ text_at a ((k, s) ∷ ns)
text_at-cons k s ms ns a h = rw h refl

module _ {P : Type 0} (stringify : P → Text) (quoted : Text → Text) where
  map-member :
      (ms ns : Members) (ks : List Text)
      → ((k : Text) → text_at k ms ≡ text_at k ns)
      → map (member_text stringify quoted ms) ks ≡ map (member_text stringify quoted ns) ks
  map-member ms ns [] h = refl
  map-member ms ns (k ∷ ks) h = rw (h k, map-member ms ns ks h) refl

  object-Agree :
      (ms ns : Members)
      → Agree ms ns
      → object_text stringify quoted ms ≡ object_text stringify quoted ns
  object-Agree ms ns (keys, texts) =
      ap (λ ts. codes "{" ++ join ts ++ codes "}")
        (ap (map (member_text stringify quoted ms)) keys
          ∙ map-member ms ns (sort_keys (keys_of ns)) texts)

  mutual
    unfolding stable_json

    value-Same :
        (v w : Json P) → Same v w → stable_json stringify quoted v ≡ stable_json stringify quoted w
    value-Same _ _ (same_primitive p) = refl
    value-Same _ _ (same_big s) = refl
    value-Same _ _ (same_array {xs} {ys} h) =
        ap (λ ts. codes "[" ++ join ts ++ codes "]") (items-Same xs ys h)
    value-Same _ _ (same_object {fs} {gs} h) =
        object-Agree (members stringify quoted fs) (members stringify quoted gs)
          (fields-Agree fs gs h)

    items-Same :
        (xs ys : Items P)
        → SameItems xs ys
        → items_texts stringify quoted xs ≡ items_texts stringify quoted ys
    items-Same _ _ same_none = refl
    items-Same _ _ (same_item {v} {w} {xs} {ys} h k) =
        rw (value-Same v w h, items-Same xs ys k) refl

    fields-Agree :
        (fs gs : Fields P)
        → SameFields fs gs
        → Agree (members stringify quoted fs) (members stringify quoted gs)
    fields-Agree _ _ same_end = (refl, λ a. refl)
    fields-Agree _ _ (same_field {k} {v} {w} {fs} {gs} h r) =
        let (keys, texts) = fields-Agree fs gs r in
        (
          ap (insert_key k) keys,
          λ a.
              ap (λ s. text_at a ((k, s) ∷ members stringify quoted fs)) (value-Same v w h)
              ∙ text_at-cons k (stable_json stringify quoted w) (members stringify quoted fs)
                  (members stringify quoted gs) a (texts a),
        )
    fields-Agree _ _ (swapped k l v w fs n) = (
      insert_comm k l (sort_keys (keys_of (members stringify quoted fs))),
      λ a.
          text_at-swapped k l (stable_json stringify quoted v) (stable_json stringify quoted w)
            (members stringify quoted fs) a n,
    )
    fields-Agree _ _ (then_fields {fs} {gs} {hs} h r) =
        let (keys, texts) = fields-Agree fs gs h in
        let (keys', texts') = fields-Agree gs hs r in (keys ∙ keys', λ a. texts a ∙ texts' a)

  -- Two values that are the same but for the order of the keys of their objects, at any depth, have the same
  -- text.
  pub stable_json-Same :
      (v w : Json P) → Same v w → stable_json stringify quoted v ≡ stable_json stringify quoted w
  stable_json-Same v w h = value-Same v w h
