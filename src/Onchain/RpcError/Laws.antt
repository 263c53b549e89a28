-- ===== src/Onchain/RpcError/Laws.antt =====
-- A rate limit is recognised wherever its words stand in the text of the error.
use team_index.Base.{
  List, [], ◌∷◌, ◌++◌, ◌≡◌, refl, true, arith, Text, codes, to_lower, starts_with, includes,
}
use team_index.Onchain.RpcError.{
  ErrorValue, obj, error_text, join_space, rate_limit_text, is_rpc_rate_limit_error,
}
use mathlib.Core.List.{map-append}

starts_with-append : (p s b : Text) → starts_with p s ≡ true → starts_with p (s ++ b) ≡ true
unfolding starts_with
starts_with-append [] s b h = refl
starts_with-append (c ∷ p) [] b h = absurd (cc h)
starts_with-append (c ∷ p) (d ∷ s) b h = ground (arith, starts_with-append p s b)

starts_with-includes : (p s : Text) → starts_with p s ≡ true → includes p s ≡ true
unfolding includes
starts_with-includes p [] h = h
starts_with-includes p (c ∷ s) h = ground arith

includes-append_left : (p a s : Text) → includes p s ≡ true → includes p (a ++ s) ≡ true
unfolding includes
includes-append_left p [] s h = h
includes-append_left p (c ∷ a) s h = ground (arith, includes-append_left p a s h)

includes-append_right : (p s b : Text) → includes p s ≡ true → includes p (s ++ b) ≡ true
unfolding includes
includes-append_right p [] b h = starts_with-includes p b (starts_with-append p [] b h)
includes-append_right p (c ∷ s) b h =
    ground (arith, includes-append_right p s b, starts_with-append p (c ∷ s) b)

rate_limit_text-append_left :
    (a s : Text) → rate_limit_text s ≡ true → rate_limit_text (a ++ s) ≡ true
rate_limit_text-append_left a s h = ground (
  arith,
  includes-append_left (codes "too many requests") a s,
  includes-append_left (codes "rate limit") a s,
  includes-append_left (codes "exceeded") a s,
  includes-append_left (codes "429") a s,
  includes-append_left (codes "-32005") a s,
)

rate_limit_text-append_right :
    (s b : Text) → rate_limit_text s ≡ true → rate_limit_text (s ++ b) ≡ true
rate_limit_text-append_right s b h = ground (
  arith,
  includes-append_right (codes "too many requests") s b,
  includes-append_right (codes "rate limit") s b,
  includes-append_right (codes "exceeded") s b,
  includes-append_right (codes "429") s b,
  includes-append_right (codes "-32005") s b,
)

abbrev IsLimited : Text → Type 0
IsLimited s = rate_limit_text (to_lower s) ≡ true

IsLimited-append_left : (a s : Text) → IsLimited s → IsLimited (a ++ s)
unfolding to_lower
IsLimited-append_left a s h = rw map-append (rate_limit_text-append_left _ _ h)

IsLimited-append_right : (s b : Text) → IsLimited s → IsLimited (s ++ b)
unfolding to_lower
IsLimited-append_right s b h = rw map-append (rate_limit_text-append_right _ _ h)

-- One of the texts that are joined is enough.
IsLimited-join_space :
    (before : List Text) (x : Text) (after : List Text)
    → IsLimited x
    → IsLimited (join_space (before ++ x ∷ after))
IsLimited-join_space [] x [] h = h
IsLimited-join_space [] x (y ∷ after) h = IsLimited-append_right x _ h
IsLimited-join_space (w ∷ []) x after h =
    IsLimited-append_left w _
      (IsLimited-append_left (b' ' ∷ []) _ (IsLimited-join_space [] x after h))
IsLimited-join_space (w ∷ v ∷ before) x after h =
    IsLimited-append_left w _
      (IsLimited-append_left (b' ' ∷ []) _ (IsLimited-join_space (v ∷ before) x after h))

-- An error whose `message`, or whose nested `error`, reads as a rate limit in any letter case is
-- one, whatever its other fields hold; the nested value is read one level deeper.
pub is_rpc_rate_limit_error_of_field :
    (v a c d e f g h i j k l : ErrorValue)
    → rate_limit_text (to_lower (error_text v 1)) ≡ true
    → (is_rpc_rate_limit_error (obj a v c d e f g h i j k l) ≡ true)
      × (is_rpc_rate_limit_error (obj a c d v e f g h i j k l) ≡ true)
unfolding is_rpc_rate_limit_error
is_rpc_rate_limit_error_of_field v a c d e f g h i j k l limited =
    let later : List Text =
      error_text e 1
      ∷ error_text f 1
      ∷ error_text g 1
      ∷ error_text h 1
      ∷ error_text i 1
      ∷ error_text j 1
      ∷ error_text k 1
      ∷ error_text l 1
      ∷ [] in
    (
      IsLimited-join_space (error_text a 1 ∷ []) (error_text v 1)
          (error_text c 1 ∷ error_text d 1 ∷ later) limited,
      IsLimited-join_space (error_text a 1 ∷ error_text c 1 ∷ error_text d 1 ∷ []) (error_text v 1)
          later limited,
    )
