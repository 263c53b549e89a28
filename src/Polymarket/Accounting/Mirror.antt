-- ===== src/Polymarket/Accounting/Mirror.antt =====
-- src/polymarket/accountingService.ts: the rows of a pool after a reconciliation, against what Polymarket
-- answered.
use team_index.Base.{
  ℕ, ◌<◌, ◌≡◌, ◌↔◌, refl, sym, ap, ◌∙◌, List, [], ◌∷◌, any, Bool, true, false, ◌&&◌, ◌||◌, Option,
  none, some, Result, ok, throw, Text, text_eq, text_eq_iff, if◌then◌else◌, ◌<|>◌, arith,
  Bool-cases, inl, inr,
}
use team_index.Polymarket.Accounting.Pages.{Reads, Serves, fetch_data_api_positions, fetch-Reads}
use team_index.Polymarket.Accounting.Tables.{
  RemotePosition, RemoteOrder, RemoteTrade, PositionRow, Quote, AccountingDb, Polymarket,
}
use team_index.Polymarket.Accounting.Reconcile.{
  fresh_bid, row_of, Positions, is_known, position_turn, positions_loop, shut, shut_row,
  close_others, reconciled, all_of, fetched, reconcile_pool_polymarket,
}

abbrev is_position_of : Text → RemotePosition → Bool
is_position_of token p = is_known p && text_eq p.asset token

-- The last of the positions of a token
abbrev pub last_known : Text → List RemotePosition → Option RemotePosition
last_known token [] = none
last_known token (p ∷ ps) =
    last_known token ps <|> (if is_position_of token p then some p else none)

abbrev is_some : {A : Type 0} → Option A → Bool
is_some none = false
is_some (some a) = true

text_eq_sym : (s t : Text) → text_eq s t ≡ text_eq t s
unfolding text_eq
text_eq_sym [] [] = refl
text_eq_sym [] (d ∷ t) = refl
text_eq_sym (c ∷ s) [] = refl
text_eq_sym (c ∷ s) (d ∷ t) = ground (arith, text_eq_sym s t)

module _ (now : ℕ) (quotes : Text → Option Quote) (token : Text) where
  -- The row of the token, where it has a position, and otherwise what was there
  abbrev entry : Option RemotePosition → Option PositionRow → Option PositionRow
  entry none old = old
  entry (some p) old = some (row_of now (fresh_bid now (quotes token)) p)

  entry-entry :
      (o n : Option RemotePosition) (old : Option PositionRow)
      → entry o (entry n old) ≡ entry (o <|> n) old
  entry-entry none n old = refl
  entry-entry (some p) n old = refl

  some_or :
      (o : Option RemotePosition) (b c : Bool) (p : RemotePosition)
      → (is_some o || (b || c)) ≡ (is_some (o <|> (if b then some p else none)) || c)
  some_or (some q) b c p = refl
  some_or none true c p = refl
  some_or none false c p = refl

  turn-entry :
      (p : RemotePosition) (s : List Text × Positions)
      → (position_turn now quotes p s).1 token
        ≡ entry (if is_position_of token p then some p else none) (s.1 token)
  turn-entry p s = elim (Bool-cases (is_known p)) [
    | inr e ↦ rw e refl
    | inl e ↦ elim (Bool-cases (text_eq p.asset token)) [
      | inr d ↦ rw (e, d) refl
      | inl d ↦
          let same : p.asset ≡ token = (text_eq_iff p.asset token).0 d in
          rw (e, d) (ap (λ k. some (row_of now (fresh_bid now (quotes k)) p)) same)
    ]
  ]

  turn-active :
      (p : RemotePosition) (s : List Text × Positions)
      → any (text_eq token) (position_turn now quotes p s).0
        ≡ is_position_of token p || any (text_eq token) s.0
  turn-active p s = elim (Bool-cases (is_known p)) [
    | inr e ↦ rw e refl
    | inl e ↦ rw (e, text_eq_sym token p.asset) refl
  ]

  loop-entry :
      (ps : List RemotePosition) (s : List Text × Positions)
      → (positions_loop now quotes ps s).1 token ≡ entry (last_known token ps) (s.1 token)
  unfolding positions_loop
  loop-entry [] s = refl
  loop-entry (p ∷ ps) s =
      loop-entry ps (position_turn now quotes p s)
      ∙ ap (entry (last_known token ps)) (turn-entry p s)
      ∙ entry-entry (last_known token ps) (if is_position_of token p then some p else none)
          (s.1 token)

  loop-active :
      (ps : List RemotePosition) (s : List Text × Positions)
      → any (text_eq token) (positions_loop now quotes ps s).0
        ≡ is_some (last_known token ps) || any (text_eq token) s.0
  unfolding positions_loop
  loop-active [] s = refl
  loop-active (p ∷ ps) s =
      loop-active ps (position_turn now quotes p s)
      ∙ ap (λ b. is_some (last_known token ps) || b) (turn-active p s)
      ∙ some_or (last_known token ps) (is_position_of token p) (any (text_eq token) s.0) p

-- What a reconciliation stores for a token: its last position, as Polymarket has it; without one, the row
-- that was there, closed.
abbrev pub stored_row :
    ℕ
    → (Text → Option Quote)
    → Text
    → Option RemotePosition
    → Option PositionRow
    → Option PositionRow
stored_row now quotes token none old = shut_row now old
stored_row now quotes token (some p) old = some (row_of now (fresh_bid now (quotes token)) p)

closed-stored :
    (now : ℕ) (quotes : Text → Option Quote) (token : Text) (o : Option RemotePosition)
    (old : Option PositionRow) (active : List Text) (rows : Positions)
    → any (text_eq token) active ≡ is_some o
    → rows token ≡ entry now quotes token o old
    → close_others now active rows token ≡ stored_row now quotes token o old
closed-stored now quotes token none old active rows a r = rw (a, r) refl
closed-stored now quotes token (some p) old active rows a r = rw (a, r) refl

or_false : (b : Bool) → (b || false) ≡ b
or_false true = refl
or_false false = refl

reconciled-stored :
    (now : ℕ) (positions : List RemotePosition) (open_orders : List RemoteOrder)
    (trades : List RemoteTrade) (db : AccountingDb) (token : Text)
    → (reconciled now positions open_orders trades db).positions token
      ≡ stored_row now db.quotes token (last_known token positions) (db.positions token)
unfolding reconciled
reconciled-stored now positions open_orders trades db token =
    let s = positions_loop now db.quotes positions ([], db.positions) in
    closed-stored now db.quotes token (last_known token positions) (db.positions token) s.0 s.1
      (loop-active now db.quotes token positions ([], db.positions) ∙ or_false _)
      (loop-entry now db.quotes token positions ([], db.positions))

-- A row against the last position of its token: without one it is not open, otherwise it has the size, and
-- is open exactly for a positive one.
abbrev pub OpenAs : Option RemotePosition → Option PositionRow → Type 0
OpenAs none none = Unit
OpenAs none (some row) = row.is_open ≡ false
OpenAs (some p) none = ⊥
OpenAs (some p) (some row) = (row.quantity ≡ p.size) × ((row.is_open ≡ true) ↔ (0 < p.size))

shut-closed : (now : ℕ) (row : PositionRow) → (shut now row).is_open ≡ false
shut-closed now row = elim (Bool-cases row.is_open) [
  | inl e ↦ rw (shut, e) refl
  | inr e ↦ rw (shut, e) refl
]

stored-OpenAs :
    (now : ℕ) (quotes : Text → Option Quote) (token : Text) (o : Option RemotePosition)
    (old : Option PositionRow)
    → OpenAs o (stored_row now quotes token o old)
stored-OpenAs now quotes token none none = tt
stored-OpenAs now quotes token none (some row) = shut-closed now row
stored-OpenAs now quotes token (some p) old =
    (refl, (λ h. ground (arith, h), λ h. ground (arith, h)))

-- What a reconciliation leaves: the rows as they were, when it throws; otherwise the positions returned are
-- the list, and each row is as its last position says.
abbrev pub Whole :
    {W : Type 0}
    → List RemotePosition
    → AccountingDb
    → Result Text (List RemotePosition) × (AccountingDb × W)
    → Type 0
Whole xs db (throw e, (after, w)) = after ≡ db
Whole xs db (ok positions, (after, w)) =
    (positions ≡ xs) × ((token : Text) → OpenAs (last_known token xs) (after.positions token))

all_of-Whole :
    {W : Type 0} (clock : W → ℕ × W) (positions : Result Text (List RemotePosition))
    (open_orders : Result Text (List RemoteOrder)) (trades : Result Text (List RemoteTrade))
    (xs : List RemotePosition) (db : AccountingDb) (w : W)
    → ((ps : List RemotePosition) → positions ≡ ok ps → ps ≡ xs)
    → Whole xs db (all_of clock positions open_orders trades db w)
all_of-Whole clock (ok ps) (ok os) (ok ts) xs db w same =
    let e = same ps refl in
    let now = (clock w).0 in
    (
      e,
      λ token.
          rw (sym e, reconciled-stored now ps os ts db token)
            (stored-OpenAs now db.quotes token (last_known token ps) (db.positions token)),
    )
all_of-Whole clock (throw e) orders trades xs db w same = refl
all_of-Whole clock (ok ps) (throw e) trades xs db w same = refl
all_of-Whole clock (ok ps) (ok os) (throw e) xs db w same = refl

Reads→same :
    {W : Type 0} (xs ps : List RemotePosition) (o : Option (Result Text (List RemotePosition) × W))
    (w : W)
    → Reads xs o
    → (fetched o w).0 ≡ ok ps
    → ps ≡ xs
Reads→same xs ps none w h e = absurd h
Reads→same xs ps (some (ok ys, w')) w (same, short) e = ground (arith, same, e)
Reads→same xs ps (some (throw f, w')) w h e = absurd (ground (arith, e))

module _ {W : Type 0} (api : Polymarket W) (xs : List RemotePosition) where
  -- Where the service pages one list of positions, and some requests for a page may fail, a reconciliation
  -- throws and changes nothing, or it saw the whole list: then a position of the pool is open exactly if the last position of its token in the list
  -- has a positive size, and it has that size. No position is closed because a page was missing.
  pub reconcile-Whole :
      (db : AccountingDb) (w : W)
      → Serves api.get_page xs
      → Whole xs db (reconcile_pool_polymarket api db w)
  unfolding reconcile_pool_polymarket
  reconcile-Whole db w serves =
      let out = fetch_data_api_positions api.get_page w in
      let (positions, w1) = fetched out w in
      let (open_orders, w2) = api.get_open_orders w1 in
      let (trades, w3) = api.get_trades w2 in
      all_of-Whole api.now positions open_orders trades xs db w3
        (λ ps e. Reads→same xs ps out w (fetch-Reads api.get_page xs serves w) e)
