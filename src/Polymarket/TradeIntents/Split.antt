-- ===== src/Polymarket/TradeIntents/Split.antt =====
-- src/polymarket/tradeIntentService.ts, splitAmount: when it ends, and what it returns.
use team_index.Base.{
  ℕ, zero, suc, ◌+◌, ◌-◌, ◌*◌, ◌≤◌, ◌<◌, ◌≡◌, ◌≢◌, ◌↔◌, refl, sym, ap, ◌∙◌, min, List, [], ◌∷◌,
  Option, none, some, arith, Bool-cases, inl, inr, All, leb, leb→le, ◌⊎◌,
}
use team_index.Polymarket.TradeIntents.{micro, rounded, with_chunk, chunks_of, split_amount}

abbrev pub sum : List ℕ → ℕ
sum [] = 0
sum (c ∷ cs) = c + sum cs

-- A limit above half a millionth takes something off.
rounded-lt :
    (r limit : ℕ) → 500_000 < limit → rounded (suc r * micro - min (suc r * micro) limit) ≤ r
unfolding rounded
rounded-lt r limit h = omega (arith, h)

-- A limit up to half a millionth takes nothing off.
rounded-stuck :
    (r limit : ℕ) → limit ≤ 500_000 → rounded (suc r * micro - min (suc r * micro) limit) ≡ suc r
unfolding rounded
rounded-stuck r limit h = omega (arith, h)

chunks_of-ends :
    (fuel remaining limit : ℕ)
    → 500_000 < limit
    → remaining < fuel
    → (chunks : List ℕ) × (chunks_of fuel remaining limit ≡ some chunks)
unfolding chunks_of
chunks_of-ends zero remaining limit h b = absurd (omega (arith, b))
chunks_of-ends (suc fuel) zero limit h b = ([], refl)
chunks_of-ends (suc fuel) (suc r) limit h b =
    let chunk = min (suc r * micro) limit in
    let (rest, e) =
      chunks_of-ends fuel (rounded (suc r * micro - chunk)) limit h
        (omega (arith, rounded-lt r limit h, b)) in
    (rounded chunk ∷ rest, ap (with_chunk (rounded chunk)) e)

chunks_of-done : (fuel limit : ℕ) → (chunks : List ℕ) × (chunks_of (suc fuel) 0 limit ≡ some chunks)
unfolding chunks_of
chunks_of-done fuel limit = ([], refl)

chunks_of-stuck : (fuel r limit : ℕ) → limit ≤ 500_000 → chunks_of fuel (suc r) limit ≡ none
unfolding chunks_of
chunks_of-stuck zero r limit h = refl
chunks_of-stuck (suc fuel) r limit h =
    let chunk = min (suc r * micro) limit in
    ap (with_chunk (rounded chunk))
      (ap (λ n. chunks_of fuel n limit) (rounded-stuck r limit h) ∙ chunks_of-stuck fuel r limit h)

some≢none : (o : Option (List ℕ)) (chunks : List ℕ) → o ≡ some chunks → o ≢ none
some≢none o chunks e h = absurd (ground (arith, sym e ∙ h))

chunks_of_iff :
    (fuel remaining limit : ℕ)
    → remaining < fuel
    → ((chunks : List ℕ) × (chunks_of fuel remaining limit ≡ some chunks))
      ↔ ((500_000 < limit) ⊎ (remaining ≡ 0))
chunks_of_iff zero remaining limit b = absurd (omega (arith, b))
chunks_of_iff (suc fuel) zero limit b = (λ ended. inr refl, λ ends. chunks_of-done fuel limit)
chunks_of_iff (suc fuel) (suc r) limit b = (
  λ (chunks, e). elim (Bool-cases (leb limit 500_000)) [
    | inl t ↦
        absurd (some≢none _ chunks e (chunks_of-stuck (suc fuel) r limit (leb→le limit 500_000 t)))
    | inr t ↦ inl (ground (arith, t))
  ],
  λ ends. elim ends [
    | inl h ↦ chunks_of-ends (suc fuel) (suc r) limit h b
    | inr z ↦ absurd (omega (arith, z))
  ],
)

-- With more rounds than the rounded amount has millionths, the loop ends exactly if the limit is above half a
-- millionth or the amount is rounded to 0; otherwise it is still running, however many rounds there are.
pub split_amount_iff :
    (amount limit fuel : ℕ)
    → rounded amount < fuel
    → ((chunks : List ℕ) × (split_amount fuel amount limit ≡ some chunks))
      ↔ ((500_000 < limit) ⊎ (rounded amount ≡ 0))
unfolding split_amount
split_amount_iff amount limit fuel b = chunks_of_iff fuel (rounded amount) limit b

-- One round with a limit of whole millionths
whole_round :
    (r k : ℕ)
    → 0 < k
    → let chunk = min (suc r * micro) (k * micro) in
      (rounded chunk + rounded (suc r * micro - chunk) ≡ suc r)
      × (0 < rounded chunk)
      × (rounded chunk ≤ k)
unfolding rounded
whole_round r k h = (omega (arith, h), omega (arith, h), omega (arith, h))

-- Chunks of the amount, none of them empty or above the limit
abbrev pub Parts : ℕ → ℕ → List ℕ → Type 0
Parts amount k chunks = (sum chunks ≡ amount) × All (λ c. (0 < c) × (c ≤ k)) chunks

chunks_of-Parts :
    (fuel remaining k : ℕ)
    → 0 < k
    → remaining < fuel
    → (chunks : List ℕ) × (chunks_of fuel remaining (k * micro) ≡ some chunks)
      × Parts remaining k chunks
unfolding chunks_of
chunks_of-Parts zero remaining k h b = absurd (omega (arith, b))
chunks_of-Parts (suc fuel) zero k h b = ([], refl, (refl, tt))
chunks_of-Parts (suc fuel) (suc r) k h b =
    let chunk = min (suc r * micro) (k * micro) in
    let left = rounded (suc r * micro - chunk) in
    let (adds_up, positive, small) = whole_round r k h in
    let (rest, e, (total, parts)) =
      chunks_of-Parts fuel left k h (omega (arith, adds_up, positive, b)) in
    (
      rounded chunk ∷ rest,
      ap (with_chunk (rounded chunk)) e,
      (ap (λ n. rounded chunk + n) total ∙ adds_up, ((positive, small), parts)),
    )

-- With a limit of whole millionths, at least one, an amount is split into chunks that add up to the amount
-- rounded to millionths; no chunk is empty and none is above the limit.
pub split_amount-Parts :
    (amount k : ℕ)
    → 0 < k
    → (chunks : List ℕ) × (split_amount (suc (rounded amount)) amount (k * micro) ≡ some chunks)
      × Parts (rounded amount) k chunks
unfolding split_amount
split_amount-Parts amount k h =
    chunks_of-Parts (suc (rounded amount)) (rounded amount) k h (omega arith)
