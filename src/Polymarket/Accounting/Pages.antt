-- ===== src/Polymarket/Accounting/Pages.antt =====
-- src/polymarket/accountingService.ts, fetchDataApiPositions: all pages of a list, or an error.
use team_index.Base.{
  ℕ, zero, suc, ◌+◌, ◌-◌, ◌*◌, ◌≤◌, ◌<◌, ◌≡◌, refl, ◌∙◌, min, List, [], ◌++◌, length, take, drop,
  true, false, Option, none, some, Result, ok, throw, Text, codes, ltb, leb, arith, Bool-cases, ◌⊎◌,
  inl, inr, length-take-drop, take-add, take_all,
}

abbrev pub too_many : Text
too_many = codes "Polymarket positions exceed the paginated Data API limit"

module _ {W A : Type 0} where
  -- A page that is not full is the last one.
  abbrev page_answered :
      (List A → W → Option (Result Text (List A) × W))
      → List A
      → Result Text (List A)
      → W
      → Option (Result Text (List A) × W)
  page_answered next positions (throw e) w = some (throw e, w)
  page_answered next positions (ok page) w = elim (ltb (length page) 500) [
    | true ↦ some (ok (positions ++ page), w)
    | false ↦ next (positions ++ page) w
  ]

module _ {W A : Type 0} (get_page : ℕ → W → Result Text (List A) × W) where
  -- The loop from an offset; `none` without fuel
  unfoldable pub pages : ℕ → ℕ → List A → W → Option (Result Text (List A) × W)
  pages zero offset positions w = none
  pages (suc fuel) offset positions w = elim (leb offset 10_000) [
    | false ↦ some (throw too_many, w)
    | true ↦
        let (r, w') = get_page offset w in page_answered (pages fuel (offset + 500)) positions r w'
  ]

  -- The pages at 0, 500, ..., 10000 and the round in which the test of the offset fails
  unfoldable pub fetch_data_api_positions : W → Option (Result Text (List A) × W)
  unfolding pages
  fetch_data_api_positions w = pages 22 0 [] w

  -- The requests are counted.
  abbrev pub counted : ℕ → W × ℕ → Result Text (List A) × (W × ℕ)
  counted offset s = let (r, w') = get_page offset s.0 in (r, (w', suc s.1))

-- It ended, after at most so many requests.
abbrev pub EndsWithin : {W A : Type 0} → ℕ → Option (Result Text (List A) × (W × ℕ)) → Type 0
EndsWithin n none = ⊥
EndsWithin n (some (r, s)) = s.1 ≤ n

module _ {W A : Type 0} where
  answered-Ends :
      (next : List A → W × ℕ → Option (Result Text (List A) × (W × ℕ))) (positions : List A)
      (r : Result Text (List A)) (s : W × ℕ) (n : ℕ)
      → s.1 ≤ n
      → ((ps : List A) → EndsWithin n (next ps s))
      → EndsWithin n (page_answered next positions r s)
  answered-Ends next positions (throw e) s n h k = h
  answered-Ends next positions (ok page) s n h k = elim (Bool-cases (ltb (length page) 500)) [
    | inl e ↦ rw (e, page_answered) h
    | inr e ↦ rw (e, page_answered) (k (positions ++ page))
  ]

module _ {W A : Type 0} (get_page : ℕ → W → Result Text (List A) × W) where
  pages-Ends :
      (fuel offset : ℕ) (positions : List A) (s : W × ℕ) (n : ℕ)
      → 10_000 < offset + 500 * fuel
      → s.1 + fuel ≤ n
      → EndsWithin n (pages (counted get_page) (suc fuel) offset positions s)
  unfolding pages
  pages-Ends zero offset positions s n h b = elim (Bool-cases (leb offset 10_000)) [
    | inl e ↦ absurd (ground (arith, e, h))
    | inr e ↦ rw (e, pages) (omega arith)
  ]
  pages-Ends (suc fuel) offset positions s n h b = elim (Bool-cases (leb offset 10_000)) [
    | inl e ↦
        let (r, w') = get_page offset s.0 in
        rw (e, pages)
          (answered-Ends (pages (counted get_page) (suc fuel) (offset + 500)) positions r
            (w', suc s.1) n (omega arith)
            (λ ps. pages-Ends fuel (offset + 500) ps (w', suc s.1) n (omega arith) (omega arith)))
    | inr e ↦ rw (e, pages) (omega arith)
  ]

  -- The loop over the pages ends, whatever the pages are, after at most 21 requests.
  pub fetch-EndsWithin :
      (w : W) → EndsWithin 21 (fetch_data_api_positions (counted get_page) (w, 0))
  unfolding fetch_data_api_positions
  fetch-EndsWithin w = pages-Ends 21 0 [] (w, 0) 21 (omega arith) (omega arith)

-- The list is returned whole, and only if it has less than 10500 elements, or an error is.
abbrev pub Reads : {W A : Type 0} → List A → Option (Result Text (List A) × W) → Type 0
Reads xs none = ⊥
Reads xs (some (ok ys, w)) = (ys ≡ xs) × (length xs < 10_500)
Reads xs (some (throw e, w)) = Unit

short→lt : (p n o : ℕ) → p ≡ min 500 (n - o) → o ≤ n → ltb p 500 ≡ true → n < o + 500
short→lt p n o e h t = ground (arith, e, h, t)

full→le : (p n o : ℕ) → p ≡ min 500 (n - o) → o ≤ n → ltb p 500 ≡ false → o + 500 ≤ n
full→le p n o e h t = ground (arith, e, h, t)

module _ {W A : Type 0} (get_page : ℕ → W → Result Text (List A) × W) (xs : List A) where
  -- The service has one list and answers each request with the part from the offset on, or with an error.
  abbrev pub Serves : Type 0
  Serves =
      (offset : ℕ) (w : W)
      → ((get_page offset w).0 ≡ ok (take 500 (drop offset xs)))
        ⊎ ((e : Text) × ((get_page offset w).0 ≡ throw e))

  full_page-Reads :
      (next : List A → W → Option (Result Text (List A) × W)) (offset j : ℕ) (w : W)
      → offset ≤ length xs
      → offset ≤ 10_000
      → offset + 500 ≡ j
      → (j ≤ length xs → Reads xs (next (take j xs) w))
      → Reads xs (page_answered next (take offset xs) (ok (take 500 (drop offset xs))) w)
  full_page-Reads next offset j w h b e k =
      let page = take 500 (drop offset xs) in
      let n : length page ≡ min 500 (length xs - offset) = length-take-drop 500 offset xs in
      let joined : take offset xs ++ page ≡ take j xs = take-add offset 500 j xs e in
      elim (Bool-cases (ltb (length page) 500)) [
        | inl short ↦
            let below : length xs < offset + 500 =
              short→lt (length page) (length xs) offset n h short in
            let whole : take offset xs ++ page ≡ xs =
              joined ∙ take_all j xs (omega (arith, below, e)) in
            rw (short, page_answered) (whole, omega (arith, below, b))
        | inr full ↦
            let more : offset + 500 ≤ length xs =
              full→le (length page) (length xs) offset n h full in
            rw (full, page_answered, joined) (k (omega (arith, more, e)))
      ]

  pages-Reads :
      (fuel offset : ℕ) (w : W)
      → Serves
      → 10_000 < offset + 500 * fuel
      → offset ≤ length xs
      → Reads xs (pages get_page (suc fuel) offset (take offset xs) w)
  unfolding pages
  pages-Reads zero offset w serves h b = elim (Bool-cases (leb offset 10_000)) [
    | inl t ↦ absurd (ground (arith, t, h))
    | inr t ↦ rw (t, pages) tt
  ]
  pages-Reads (suc fuel) offset w serves h b = elim (Bool-cases (leb offset 10_000)) [
    | inr t ↦ rw (t, pages) tt
    | inl t ↦
        let (r, w') = get_page offset w in
        elim (serves offset w) [
          | inr (e, failed) ↦ rw (t, pages, failed) tt
          | inl served ↦
              rw (t, pages, served)
                (full_page-Reads (pages get_page (suc fuel) (offset + 500)) offset (offset + 500) w'
                  b (ground (arith, t)) refl
                  (λ more. pages-Reads fuel (offset + 500) w' serves (omega (arith, h)) more))
        ]
  ]

  -- Of a service that pages one list, the loop returns exactly the list, and only when it has less than 10500
  -- elements, or an error: it never returns a part, whichever requests fail.
  pub fetch-Reads : Serves → (w : W) → Reads xs (fetch_data_api_positions get_page w)
  unfolding fetch_data_api_positions
  fetch-Reads serves w = pages-Reads 21 0 w serves (omega arith) (omega arith)
