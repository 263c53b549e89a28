-- ===== src/Onchain/PoolSync/Deposits.antt =====
-- src/onchain/poolSync.ts: a deposit is booked once, however often its block is synced.
use team_index.Base.{
  ℕ, ◌≡◌, refl, List, [], ◌∷◌, Bool, true, false, ◌&&◌, not, Option, none, some, arith, All, Text,
  text_eq_refl, to_lower, Bool-cases, inl, inr, if◌then◌else◌,
}
use team_index.Onchain.PoolSync.Logs.{Log, Deposit, FeeCharged}
use team_index.Onchain.PoolSync.Booking.{
  Transaction, PoolDb, is_deposit, is_recorded, deposit_turn, deposits_loop, recorded, fee_by_tx,
  transaction_of,
}

-- No two transactions have a hash in common.
abbrev pub Once : List Transaction → Type 0
Once [] = Unit {0}
Once (t ∷ ts) = (is_recorded t.tx_hash ts ≡ false) × Once ts

module _ (only : Option (List Text)) where
  -- A deposit that is to be booked is in the table.
  abbrev pub Booked : PoolDb → Log Deposit → Type 0
  Booked db ev =
      is_deposit only ev ≡ true → is_recorded (to_lower ev.transaction_hash) db.transactions ≡ true

  -- The turn of a deposit, by what is known of it
  if-db :
      (P : PoolDb → Type 0) (b : Bool) (x y : PoolDb)
      → (b ≡ true → P x)
      → (b ≡ false → P y)
      → P (if b then x else y)
  if-db P true x y h k = h refl
  if-db P false x y h k = k refl

  turn-kept :
      (price : ℕ) (fees : List (Log FeeCharged)) (ev : Log Deposit) (key : Text) (db : PoolDb)
      → is_recorded key db.transactions ≡ true
      → is_recorded key (deposit_turn only price fees ev db).transactions ≡ true
  turn-kept price fees ev key db h =
      if-db (λ d. is_recorded key d.transactions ≡ true)
        (is_deposit only ev && not (is_recorded (to_lower ev.transaction_hash) db.transactions))
        (recorded price (fee_by_tx only (to_lower ev.transaction_hash) fees) ev db) db
        (λ e. ground arith) (λ e. h)

  transaction_of-hash :
      (price : ℕ) (fee : Option FeeCharged) (ev : Log Deposit)
      → (transaction_of price fee ev).tx_hash ≡ to_lower ev.transaction_hash
  transaction_of-hash price none ev = refl
  transaction_of-hash price (some fee) ev = refl

  turn-Booked :
      (price : ℕ) (fees : List (Log FeeCharged)) (ev : Log Deposit) (db : PoolDb)
      → Booked (deposit_turn only price fees ev db) ev
  turn-Booked price fees ev db =
      let key = to_lower ev.transaction_hash in
      let fee = fee_by_tx only key fees in
      if-db (λ d. Booked d ev) (is_deposit only ev && not (is_recorded key db.transactions))
        (recorded price fee ev db) db
        (λ e d. ground (arith, transaction_of-hash price fee ev, text_eq_refl key))
        (λ e d. ground arith)

  pub loop-kept :
      (price : ℕ) (fees : List (Log FeeCharged)) (evs : List (Log Deposit)) (key : Text)
      (db : PoolDb)
      → is_recorded key db.transactions ≡ true
      → is_recorded key (deposits_loop only price fees evs db).transactions ≡ true
  unfolding deposits_loop
  loop-kept price fees [] key db h = h
  loop-kept price fees (ev ∷ evs) key db h =
      loop-kept price fees evs key (deposit_turn only price fees ev db)
        (turn-kept price fees ev key db h)

  deposits_loop-Booked :
      (price : ℕ) (fees : List (Log FeeCharged)) (evs : List (Log Deposit)) (db : PoolDb)
      → All (Booked (deposits_loop only price fees evs db)) evs
  unfolding deposits_loop
  deposits_loop-Booked price fees [] db = tt
  deposits_loop-Booked price fees (ev ∷ evs) db =
      let db' = deposit_turn only price fees ev db in
      (
        λ d.
            loop-kept price fees evs (to_lower ev.transaction_hash) db'
              (turn-Booked price fees ev db d),
        deposits_loop-Booked price fees evs db',
      )

  pub turn-unmoved :
      (price : ℕ) (fees : List (Log FeeCharged)) (ev : Log Deposit) (db : PoolDb)
      → Booked db ev
      → deposit_turn only price fees ev db ≡ db
  turn-unmoved price fees ev db h = elim (Bool-cases (is_deposit only ev)) [
    | inl d ↦ let r = h d in rw (d, r) refl
    | inr d ↦ rw d refl
  ]

  loop-unmoved :
      (price : ℕ) (fees : List (Log FeeCharged)) (evs : List (Log Deposit)) (db : PoolDb)
      → All (Booked db) evs
      → deposits_loop only price fees evs db ≡ db
  unfolding deposits_loop
  loop-unmoved price fees [] db h = refl
  loop-unmoved price fees (ev ∷ evs) db (b, h) =
      rw (turn-unmoved price fees ev db b) (loop-unmoved price fees evs db h)

  -- Syncing the same deposits again, at another price and with other fee events, changes neither the
  -- transactions nor a balance: each deposit is booked once.
  pub deposits_again :
      (price price' : ℕ) (fees fees' : List (Log FeeCharged)) (evs : List (Log Deposit))
      (db : PoolDb)
      → deposits_loop only price' fees' evs (deposits_loop only price fees evs db)
        ≡ deposits_loop only price fees evs db
  deposits_again price price' fees fees' evs db =
      loop-unmoved price' fees' evs (deposits_loop only price fees evs db)
        (deposits_loop-Booked price fees evs db)

  turn-Once :
      (price : ℕ) (fees : List (Log FeeCharged)) (ev : Log Deposit) (db : PoolDb)
      → Once db.transactions
      → Once (deposit_turn only price fees ev db).transactions
  turn-Once price fees ev db h =
      let key = to_lower ev.transaction_hash in
      let fee = fee_by_tx only key fees in
      if-db (λ d. Once d.transactions) (is_deposit only ev && not (is_recorded key db.transactions))
        (recorded price fee ev db) db
        (λ e. (rw (transaction_of-hash price fee ev) (ground arith), h)) (λ e. h)

  loop-Once :
      (price : ℕ) (fees : List (Log FeeCharged)) (evs : List (Log Deposit)) (db : PoolDb)
      → Once db.transactions
      → Once (deposits_loop only price fees evs db).transactions
  unfolding deposits_loop
  loop-Once price fees [] db h = h
  loop-Once price fees (ev ∷ evs) db h =
      loop-Once price fees evs (deposit_turn only price fees ev db) (turn-Once price fees ev db h)

  -- Where no two transactions have a hash in common, that is so after the deposits too, and each
  -- deposit with a hash and an owner, and among the hashes asked for, has a transaction with its hash.
  pub deposits_loop-Once :
      (price : ℕ) (fees : List (Log FeeCharged)) (evs : List (Log Deposit)) (db : PoolDb)
      → Once db.transactions
      → Once (deposits_loop only price fees evs db).transactions
        × All (Booked (deposits_loop only price fees evs db)) evs
  deposits_loop-Once price fees evs db h =
      (loop-Once price fees evs db h, deposits_loop-Booked price fees evs db)
