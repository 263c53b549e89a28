-- ===== src/Limitless/Discovery.antt =====
-- src/limitless/limitlessDiscoveryService.ts: a team's markets become the candidates of a pool.
mod Tests
use team_index.Base.{
  ℕ, zero, suc, ◌+◌, ◌-◌, ◌*◌, ◌≤◌, ◌≡◌, refl, ap, List, [], ◌∷◌, Bool, true, false, ◌&&◌, not,
  Option, none, some, ltb, if◌then◌else◌, arith, All, Text, codes, text_eq, to_upper, length,
  Bool-cases, inl, inr,
}
use team_index.Limitless.TokenId.{
  OutcomeSide, yes, no, outcome_index, encode_limitless_token_id, decode_limitless_token_id,
  decode-encode,
}

pub data SideHint : Type 0 where
  home other_hint : SideHint

-- A market of getLimitlessMarketsForTeam; an empty text is a missing one, and times are in
-- milliseconds.
pub record Market : Type 0 where
  pub id : Text
  pub status : Text
  pub liquidity : ℕ
  pub side_hint : SideHint
  pub end_date : Option ℕ
  pub league : Text

-- A row of club_market_candidates of the pool, with the status CANDIDATE
pub record Candidate : Type 0 where
  pub event_id : Text
  pub market_id : Text
  pub token_id : Text
  pub side : OutcomeSide
  pub kickoff_time : Option ℕ
  pub entry_window : Option ℕ
  pub liquidity_usd : ℕ

abbrev pub side_of : SideHint → OutcomeSide
side_of home = yes
side_of other_hint = no

abbrev entry_window_of : Option ℕ → Option ℕ
entry_window_of none = none
entry_window_of (some kickoff) = some (kickoff - 48 * 3600 * 1000)

abbrev pub candidate_of : Market → Candidate
candidate_of m = record {
  event_id = m.league;
  market_id = m.id;
  token_id = encode_limitless_token_id m.id (side_of m.side_hint);
  side = side_of m.side_hint;
  kickoff_time = m.end_date;
  entry_window = entry_window_of m.end_date;
  liquidity_usd = m.liquidity;
}

abbrev pub has_active_status : Text → Bool
has_active_status [] = true
has_active_status (c ∷ s) = text_eq (to_upper (c ∷ s)) (codes "ACTIVE")

abbrev pub taken : ℕ → Market → Bool
taken liquidity_min_usd m = has_active_status m.status && not (ltb m.liquidity liquidity_min_usd)

pub record Discovered : Type 0 where
  pub created : ℕ
  pub scanned : ℕ

abbrev pub created_if : Bool → Market → List Candidate × ℕ → List Candidate × ℕ
created_if true m (cs, k) = (candidate_of m ∷ cs, suc k)
created_if false m (cs, k) = (cs, k)

-- The rows that the loop makes, and their number
unfoldable pub candidates_of : ℕ → List Market → List Candidate × ℕ
candidates_of liquidity_min_usd [] = ([], 0)
candidates_of liquidity_min_usd (m ∷ ms) =
    created_if (taken liquidity_min_usd m) m (candidates_of liquidity_min_usd ms)

-- The rows of the pool, of which the older ones are deleted
unfoldable pub discover_limitless_club_candidates :
    ℕ → List Market → List Candidate → List Candidate × Discovered
unfolding candidates_of
discover_limitless_club_candidates liquidity_min_usd markets rows =
    let out = candidates_of liquidity_min_usd markets in
    (out.0, record { created = out.1; scanned = length markets })

-- A candidate whose token decodes to its market and side, with enough liquidity
abbrev pub Tradable : ℕ → Candidate → Type 0
Tradable liquidity_min_usd c =
    (decode_limitless_token_id c.token_id ≡ (c.market_id, outcome_index c.side))
    × (liquidity_min_usd ≤ c.liquidity_usd)

Found : ℕ → List Candidate × ℕ → Type 0
Found liquidity_min_usd out = (length out.0 ≡ out.1) × All (Tradable liquidity_min_usd) out.0

created_if-Found :
    (liquidity_min_usd : ℕ) (b : Bool) (m : Market) (out : List Candidate × ℕ)
    → taken liquidity_min_usd m ≡ b
    → Found liquidity_min_usd out
    → Found liquidity_min_usd (created_if b m out)
unfolding Found
created_if-Found liquidity_min_usd true m (cs, k) e (n, h) =
    (ap suc n, ((decode-encode m.id (side_of m.side_hint), ground arith), h))
created_if-Found liquidity_min_usd false m (cs, k) e h = h

candidates_of-Found :
    (liquidity_min_usd : ℕ) (ms : List Market)
    → Found liquidity_min_usd (candidates_of liquidity_min_usd ms)
unfolding Found candidates_of
candidates_of-Found liquidity_min_usd [] = (refl, tt)
candidates_of-Found liquidity_min_usd (m ∷ ms) =
    created_if-Found liquidity_min_usd (taken liquidity_min_usd m) m
      (candidates_of liquidity_min_usd ms) refl (candidates_of-Found liquidity_min_usd ms)

created_le_scanned :
    (liquidity_min_usd : ℕ) (ms : List Market) → (candidates_of liquidity_min_usd ms).1 ≤ length ms
unfolding candidates_of
created_le_scanned liquidity_min_usd [] = omega arith
created_le_scanned liquidity_min_usd (m ∷ ms) = elim (Bool-cases (taken liquidity_min_usd m)) [
  | inl e ↦ rw e (omega (arith, created_le_scanned liquidity_min_usd ms))
  | inr e ↦ rw e (omega (arith, created_le_scanned liquidity_min_usd ms))
]

-- Discovery leaves as many rows as it reports, whatever rows there were, at most one for each market, and
-- each has enough liquidity and a token id that decodes to its market and the index of its side.
pub discovered_rows :
    (liquidity_min_usd : ℕ) (markets : List Market) (rows : List Candidate)
    → let out = discover_limitless_club_candidates liquidity_min_usd markets rows in
      (length out.0 ≡ out.1.created)
      × (out.1.created ≤ out.1.scanned)
      × All (Tradable liquidity_min_usd) out.0
unfolding Found discover_limitless_club_candidates
discovered_rows liquidity_min_usd markets rows =
    let f = candidates_of-Found liquidity_min_usd markets in
    (f.0, created_le_scanned liquidity_min_usd markets, f.1)
