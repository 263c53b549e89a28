-- ===== src/Polymarket/StableJson/Order.antt =====
-- src/polymarket/stableJson.ts: the order of the keys, and sorting by it.
use team_index.Base.{
  ◌≡◌, ◌⊎◌, refl, sym, ap, ◌∙◌, List, [], ◌∷◌, true, false, Text, arith, Bool-cases, inl, inr,
}
use team_index.Polymarket.StableJson.{text_lt, insert_key}

pub text_lt_trans : (s t u : Text) → text_lt s t ≡ true → text_lt t u ≡ true → text_lt s u ≡ true
unfolding text_lt
text_lt_trans s [] u h k = absurd (ground (arith, h))
text_lt_trans s (d ∷ t) [] h k = absurd (ground (arith, k))
text_lt_trans [] (d ∷ t) (e ∷ u) h k = refl
text_lt_trans (c ∷ s) (d ∷ t) (e ∷ u) h k = ground (arith, h, k, text_lt_trans s t u)

pub text_lt-asym : (s t : Text) → text_lt s t ≡ true → text_lt t s ≡ false
unfolding text_lt
text_lt-asym s [] h = absurd (ground (arith, h))
text_lt-asym [] (d ∷ t) h = refl
text_lt-asym (c ∷ s) (d ∷ t) h = ground (arith, h, text_lt-asym s t)

-- Two texts that do not stand in the order are one.
pub text_lt-total : (s t : Text) → text_lt s t ≡ false → text_lt t s ≡ false → s ≡ t
unfolding text_lt
text_lt-total [] [] h k = refl
text_lt-total [] (d ∷ t) h k = absurd (ground (arith, h))
text_lt-total (c ∷ s) [] h k = absurd (ground (arith, k))
text_lt-total (c ∷ s) (d ∷ t) h k = ground (arith, h, k, text_lt-total s t)

-- Past a key that is greater, before one that is not
insert_past :
    (k l : Text) (ls : List Text) → text_lt l k ≡ true → insert_key k (l ∷ ls) ≡ l ∷ insert_key k ls
insert_past k l ls h = rw (insert_key, h) refl

insert_before :
    (k l : Text) (ls : List Text) → text_lt l k ≡ false → insert_key k (l ∷ ls) ≡ k ∷ l ∷ ls
insert_before k l ls h = rw (insert_key, h) refl

insert_less :
    (k l : Text) (xs : List Text)
    → text_lt k l ≡ true
    → insert_key k (insert_key l xs) ≡ insert_key l (insert_key k xs)
insert_less k l [] h = insert_before k l [] (text_lt-asym k l h) ∙ sym (insert_past l k [] h)
insert_less k l (x ∷ xs) h = elim (Bool-cases (text_lt x k)) [
  | inl below ↦
      let below_both = text_lt_trans x k l below h in
      ap (insert_key k) (insert_past l x xs below_both)
      ∙ insert_past k x (insert_key l xs) below
      ∙ ap (λ r. x ∷ r) (insert_less k l xs h)
      ∙ sym (insert_past l x (insert_key k xs) below_both)
      ∙ ap (insert_key l) (sym (insert_past k x xs below))
  | inr above ↦
      before_both (Bool-cases (text_lt x l)) above
      ∙ sym (insert_past l k (x ∷ xs) h)
      ∙ ap (insert_key l) (sym (insert_before k x xs above))
]
  where
    before_both :
        (text_lt x l ≡ true) ⊎ (text_lt x l ≡ false)
        → text_lt x k ≡ false
        → insert_key k (insert_key l (x ∷ xs)) ≡ k ∷ insert_key l (x ∷ xs)
    before_both (inl e) above =
        ap (insert_key k) (insert_past l x xs e)
        ∙ insert_before k x (insert_key l xs) above
        ∙ ap (λ r. k ∷ r) (sym (insert_past l x xs e))
    before_both (inr e) above =
        ap (insert_key k) (insert_before l x xs e)
        ∙ insert_before k l (x ∷ xs) (text_lt-asym k l h)
        ∙ ap (λ r. k ∷ r) (sym (insert_before l x xs e))

-- The order of insertion is forgotten.
pub insert_comm :
    (k l : Text) (xs : List Text) → insert_key k (insert_key l xs) ≡ insert_key l (insert_key k xs)
insert_comm k l xs = elim (Bool-cases (text_lt k l)) [
  | inl h ↦ insert_less k l xs h
  | inr h ↦ elim (Bool-cases (text_lt l k)) [
    | inl h' ↦ sym (insert_less l k xs h')
    | inr h' ↦
        let same = text_lt-total k l h h' in
        ap (λ m. insert_key m (insert_key l xs)) same
        ∙ ap (λ m. insert_key l (insert_key m xs)) (sym same)
  ]
]
