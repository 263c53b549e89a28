-- ===== src/Onchain/RpcError.antt =====
-- src/onchain/ethersLogChunks.ts: the text of an error value, and whether it is a rate limit.
pub mod Laws
use team_index.Base.{
  ℕ, ◌+◌, List, [], ◌∷◌, ◌++◌, Bool, ◌||◌, ltb, if◌then◌else◌, Text, codes, to_lower, includes,
}

-- The values that `errorText` tells apart. Of an object it reads twelve fields, in this order; an
-- absent field is `nullish`, and fields of other names are not read. `scalar` holds what `String`
-- prints for a number, a boolean or a bigint. `other` is a function or a symbol.
mutual
  pub data ErrorValue : Type 0 where
    nullish other : ErrorValue
    text scalar : Text → ErrorValue
    arr : ErrorValues → ErrorValue
    obj :
        (code message short_message error value info : ErrorValue)
        → (payload response_body response_status request_url status status_code : ErrorValue)
        → ErrorValue

  pub data ErrorValues : Type 0 where
    nil : ErrorValues
    cons : ErrorValue → ErrorValues → ErrorValues

-- `xs.join(" ")`
abbrev pub join_space : List Text → Text
join_space [] = []
join_space (x ∷ []) = x
join_space (x ∷ y ∷ xs) = x ++ (b' ' ∷ join_space (y ∷ xs))

unfoldable mutual
  pub error_text : ErrorValue → ℕ → Text
  error_text nullish depth = []
  error_text other depth = []
  error_text (text s) depth = if ltb 4 depth then [] else s
  error_text (scalar s) depth = if ltb 4 depth then [] else s
  error_text (arr xs) depth = if ltb 4 depth then [] else join_space (error_texts xs (depth + 1))
  error_text (obj a b c d e f g h i j k l) depth =
      if ltb 4 depth
      then []
      else join_space (
          error_text a (depth + 1)
          ∷ error_text b (depth + 1)
          ∷ error_text c (depth + 1)
          ∷ error_text d (depth + 1)
          ∷ error_text e (depth + 1)
          ∷ error_text f (depth + 1)
          ∷ error_text g (depth + 1)
          ∷ error_text h (depth + 1)
          ∷ error_text i (depth + 1)
          ∷ error_text j (depth + 1)
          ∷ error_text k (depth + 1)
          ∷ error_text l (depth + 1)
          ∷ [])

  pub error_texts : ErrorValues → ℕ → List Text
  error_texts nil depth = []
  error_texts (cons x xs) depth = error_text x depth ∷ error_texts xs depth

abbrev pub rate_limit_text : Text → Bool
rate_limit_text s =
    includes (codes "too many requests") s
    || includes (codes "rate limit") s
    || includes (codes "exceeded") s
    || includes (codes "429") s
    || includes (codes "-32005") s

unfoldable pub is_rpc_rate_limit_error : ErrorValue → Bool
unfolding error_text
is_rpc_rate_limit_error err = rate_limit_text (to_lower (error_text err 0))
