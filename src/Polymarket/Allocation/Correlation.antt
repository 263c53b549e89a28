-- ===== src/Polymarket/Allocation/Correlation.antt =====
-- src/polymarket/allocationEngine.ts: how much two markets move together.
use Prim.Native.Nat.{◌+◌ as add}
use team_index.Base.{
  ℕ, suc, Bool, true, false, not, ◌&&◌, List, [], ◌∷◌, map, Option, none, some, ltb, leb,
  if◌then◌else◌, length, any, Text, codes, text_eq, to_lower,
}
use team_index.Polymarket.Allocation.Number.{
  Number, ◌+◌, ◌-◌, ◌*◌, ◌/◌, ◌<◌, ◌<=◌, whole, clamp, sum, mean, logit,
}
use team_index.Polymarket.Allocation.Series.{TsSeries, MarketSide, yes_side, no_side, sort_points}

pub data MarketType : Type 0 where
  game future : MarketType

-- A market that the admin selected
pub record SelectedMarket : Type 0 where
  pub market_id : Text
  pub condition_id : Text
  pub event_id : Text
  pub question : Text
  pub market_type : MarketType
  pub selected_side : MarketSide
  pub manual_cluster_id : Option Text

-- The Subject words of a question: what is no letter separates them.
abbrev is_letter : ℕ → Bool
is_letter c = leb b'a' c && leb c b'z'

abbrev add_letter : Bool → ℕ → List Text → List Text
add_letter false c ws = [] ∷ ws
add_letter true c [] = (c ∷ []) ∷ []
add_letter true c (w ∷ ws) = (c ∷ w) ∷ ws

abbrev words : Text → List Text
words [] = [] ∷ []
words (c ∷ s) = add_letter (is_letter c) c (words s)

abbrev mem_text : Text → List Text → Bool
mem_text w ws = any (text_eq w) ws

abbrev subject_stopwords : List Text
subject_stopwords = map codes (
    "will" ∷ "win" ∷ "wins" ∷ "won" ∷ "the" ∷ "a" ∷ "an" ∷ "of" ∷ "in" ∷ "on" ∷ "to" ∷ "at" ∷ "for"
    ∷ "and" ∷ "or" ∷ "vs" ∷ "versus" ∷ "be" ∷ "is" ∷ "by" ∷ "with" ∷ "this" ∷ "that" ∷ "fc" ∷ "cf"
    ∷ "afc" ∷ "sc" ∷ "club" ∷ "team" ∷ "match" ∷ "game" ∷ "final" ∷ "season" ∷ "title" ∷ "trophy"
    ∷ "cup" ∷ "league" ∷ "champion" ∷ "champions" ∷ "championship" ∷ [])

-- The words of three letters at least that are no stop words, each once
abbrev subjects : List Text → List Text
subjects [] = []
subjects (w ∷ ws) =
    let rest = subjects ws in
    if leb 3 (length w) && (not (mem_text w subject_stopwords) && not (mem_text w rest))
    then w ∷ rest
    else rest

unfoldable pub question_subject : Text → List Text
question_subject q = subjects (words (to_lower q))

abbrev common_count : List Text → List Text → ℕ
common_count [] sb = 0
common_count (w ∷ sa) sb = let rest = common_count sa sb in if mem_text w sb then suc rest else rest

abbrev same_side : MarketSide → MarketSide → Bool
same_side yes_side yes_side = true
same_side no_side no_side = true
same_side _ _ = false

abbrev same_type : MarketType → MarketType → Bool
same_type game game = true
same_type future future = true
same_type _ _ = false

-- Both are set, not empty, and equal.
abbrev same_cluster : Option Text → Option Text → Bool
same_cluster (some (c ∷ s)) (some t) = text_eq (c ∷ s) t
same_cluster _ _ = false

abbrev same_event : Text → Text → Bool
same_event [] t = false
same_event (c ∷ s) t = text_eq (c ∷ s) t

module _ {R : Type 0} ⦃n : Number R⦄ where
  abbrev overlap_of : List Text → List Text → R
  overlap_of [] sb = whole 0
  overlap_of (w ∷ sa) [] = whole 0
  overlap_of (w ∷ sa) (v ∷ sb) =
      let a = length (w ∷ sa) in
      let b = length (v ∷ sb) in
      whole (common_count (w ∷ sa) (v ∷ sb)) / whole (if leb a b then a else b)

  unfoldable pub subject_overlap : Text → Text → R
  unfolding question_subject
  subject_overlap a b = overlap_of (question_subject a) (question_subject b)

  unfoldable pub structural_corr : SelectedMarket → SelectedMarket → R
  unfolding subject_overlap
  structural_corr a b =
      if text_eq a.condition_id b.condition_id
      then (if same_side a.selected_side b.selected_side
          then n.ratio 95 100
          else whole 0 - n.ratio 95 100)
      else if same_event a.event_id b.event_id
      then n.ratio 55 100
      else if same_cluster a.manual_cluster_id b.manual_cluster_id
      then n.ratio 45 100
      else if n.ratio 1 2 <= subject_overlap a.question b.question
      then clamp (if same_type a.market_type b.market_type then n.ratio 30 100 else n.ratio 45 100)
          (whole 0) (n.ratio 6 10)
      else n.ratio 5 100

  abbrev eq_number : R → R → Bool
  eq_number a b = a <= b && b <= a

  -- `new Map(...)` of the points: a later point of the same time replaces the value.
  abbrev set_point : R × R → TsSeries R → TsSeries R
  set_point h [] = h ∷ []
  set_point h (k ∷ ks) = let rest = set_point h ks in if eq_number h.0 k.0 then h ∷ ks else k ∷ rest

  abbrev point_map : TsSeries R → TsSeries R → TsSeries R
  point_map done [] = done
  point_map done (h ∷ hs) = point_map (set_point h done) hs

  abbrev find_point : R → TsSeries R → Option R
  find_point t [] = none
  find_point t (k ∷ ks) = let rest = find_point t ks in if eq_number t k.0 then some k.1 else rest

  abbrev add_common : R × R → Option R → List (R × (R × R)) → List (R × (R × R))
  add_common h none rest = rest
  add_common h (some q) rest = (h.0, (h.1, q)) ∷ rest

  abbrev common_points : TsSeries R → TsSeries R → List (R × (R × R))
  common_points [] mb = []
  common_points (h ∷ hs) mb = add_common h (find_point h.0 mb) (common_points hs mb)

  -- The logit returns of both series over the common times
  abbrev return_pairs : List (R × (R × R)) → List (R × R)
  return_pairs [] = []
  return_pairs (h ∷ []) = []
  return_pairs (h ∷ k ∷ hs) =
      (logit k.1.0 - logit h.1.0, logit k.1.1 - logit h.1.1) ∷ return_pairs (k ∷ hs)

  abbrev products : R → R → List (R × R) → List R
  products ma mb [] = []
  products ma mb (r ∷ rs) = (r.0 - ma) * (r.1 - mb) ∷ products ma mb rs

  abbrev squares_of : R → List R → List R
  squares_of m [] = []
  squares_of m (x ∷ xs) = (x - m) * (x - m) ∷ squares_of m xs

  -- The correlation of the returns and their number
  abbrev corr_of : List (R × R) → Option (R × ℕ)
  corr_of rs =
      let ra = map (λ r. r.0) rs in
      let rb = map (λ r. r.1) rs in
      let cov = sum (products (mean ra) (mean rb) rs) in
      let d = n.sqrt (sum (squares_of (mean ra) ra) * sum (squares_of (mean rb) rb)) in
      if d < n.ratio 1 1000000000000
      then none
      else some (clamp (cov / d) (whole 0 - whole 1) (whole 1), length rs)

  unfoldable pub aligned_logit_return_corr : TsSeries R → TsSeries R → Option (R × ℕ)
  aligned_logit_return_corr a b =
      let common = sort_points [] (common_points (point_map [] a) (point_map [] b)) in
      if ltb (length common) 5 then none else corr_of (return_pairs common)

  abbrev blend : R → Option (R × ℕ) → R
  blend struct none = struct
  blend struct (some (corr, count)) =
      let phi = whole 8 / whole (add 8 count) in
      clamp ((whole 1 - phi) * corr + phi * struct) (whole 0 - n.ratio 99 100) (n.ratio 99 100)

  unfoldable pub blended_corr : SelectedMarket → SelectedMarket → TsSeries R → TsSeries R → R
  unfolding structural_corr aligned_logit_return_corr
  blended_corr a b sa sb = blend (structural_corr a b) (aligned_logit_return_corr sa sb)
