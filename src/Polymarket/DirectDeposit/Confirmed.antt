-- ===== src/Polymarket/DirectDeposit/Confirmed.antt =====
-- src/polymarket/directVaultDeposit.ts and src/onchain/poolSync.ts on the same transactions.
use mathlib.Core.Path.{subst}
use team_index.Base.{
  ℕ, suc, ◌+◌, ◌<◌, ◌≡◌, ◌≢◌, refl, ap, List, [], ◌∷◌, length, Bool, true, false, ◌||◌, ◌==◌,
  Option, none, some, Result, ok, throw, Text, text_eq_refl, to_lower, if◌then◌else◌, arith,
  Bool-cases, inl, inr,
}
use team_index.Onchain.PoolSync.Logs.{Log, Deposit, FeeCharged}
use team_index.Onchain.PoolSync.Booking.{Transaction, is_recorded, deposit_turn}
use team_index.Onchain.PoolSync.Deposits.{Once, turn-unmoved}
use team_index.Polymarket.DirectDeposit.{
  DepositError, Receipt, DepositPool, Polygon, DepositEnv, Step, done, ask, after, chain,
  deposits_of, single_deposit, read_single_vault_deposit, load_vault, deposit_checked, read_deposit,
  confirmed_by, confirm_direct_pusd_deposit,
}
use team_index.Polymarket.DirectDeposit.Booking.{
  DepositEvent, Totals, DepositDb, transaction_row, stored,
}

-- The event says that something was deposited.
abbrev IsPositive : DepositEvent → Type 0
IsPositive d = (0 < d.assets) × (0 < d.shares)

single_deposit-IsPositive :
    (get_address : Text → Text) (ds : List DepositEvent) (d : DepositEvent)
    → single_deposit get_address ds ≡ ok d
    → IsPositive d
single_deposit-IsPositive get_address [] d h = absurd (ground (arith, h))
single_deposit-IsPositive get_address (x ∷ y ∷ ds) d h = absurd (ground (arith, h))
single_deposit-IsPositive get_address (x ∷ []) d h =
    elim (Bool-cases (x.assets == 0 || x.shares == 0)) [
      | inl e ↦ absurd (ground (arith, h, e))
      | inr e ↦ (ground (arith, h, e), ground (arith, h, e))
    ]

module _ {W A : Type 0} where
  -- The branch of a test that succeeds, where the other one does not
  pub if-ok :
      (b : Bool) (m n : Result DepositError A × W) (y : A)
      → (if b then m else n).0 ≡ ok y
      → n.0 ≢ ok y
      → m.0 ≡ ok y
  if-ok true m n y h k = h
  if-ok false m n y h k = absurd (k h)

module _ {W A B : Type 0} where
  after-ok :
      (r : Result DepositError A) (f : A → Step W B) (w : W) (y : B)
      → (after r f w).0 ≡ ok y
      → (x : A) × (r ≡ ok x) × ((f x w).0 ≡ ok y)
  after-ok (ok x) f w y h = (x, refl, h)
  after-ok (throw e) f w y h = absurd (ground (arith, h))

  -- A sequence that succeeds comes from two steps that succeed.
  pub chain-ok :
      (m : Step W A) (f : A → Step W B) (w : W) (y : B)
      → (chain m f w).0 ≡ ok y
      → (x : A) × (w' : W) × ((m w).0 ≡ ok x) × ((f x w').0 ≡ ok y)
  unfolding chain
  chain-ok m f w y h = let (x, e, k) = after-ok (m w).0 f (m w).1 y h in (x, (m w).1, e, k)

pub ok-injective : {A : Type 0} (x y : A) (r : Result DepositError A) → r ≡ ok x → r ≡ ok y → x ≡ y
ok-injective x y r h k = cc (h, k)

module _ {W : Type 0} (polygon : Polygon W) (env : DepositEnv) where
  checked-IsPositive :
      (vault : Text) (receipt : Option Receipt) (w : W) (found : Text × DepositEvent)
      → (deposit_checked polygon env vault receipt w).0 ≡ ok found
      → IsPositive found.1
  unfolding read_single_vault_deposit
  checked-IsPositive vault none w found h = absurd (ground (arith, h))
  checked-IsPositive vault (some r) w found h =
      let read = read_single_vault_deposit polygon.get_address r.logs vault in
      let keep = λ (d : DepositEvent). done {W = W} (to_lower r.hash, d) in
      let (d, e, k) =
        after-ok read keep w found
          (if-ok r.is_successful (after read keep w) _ found h (λ z. absurd (ground (arith, z)))) in
      let same : d ≡ found.1 =
        ap (λ f. f.1) (ok-injective (to_lower r.hash, d) found (ok (to_lower r.hash, d)) refl k) in
      subst IsPositive same
        (single_deposit-IsPositive polygon.get_address (deposits_of vault r.logs) d e)

  read_deposit-IsPositive :
      (pool : Option DepositPool) (tx_hash : Text) (w : W) (out : (Text × DepositEvent) × Totals)
      → (read_deposit polygon env pool tx_hash w).0 ≡ ok out
      → IsPositive out.0.1
  unfolding read_deposit
  read_deposit-IsPositive pool tx_hash w out h =
      let with_totals = λ (vault : Text) (found : Text × DepositEvent).
        chain (ask (polygon.read_totals vault found.1.owner))
          (λ totals. done {W = W} (found, totals)) in
      let with_receipt = λ (vault : Text) (receipt : Option Receipt).
        chain (deposit_checked polygon env vault receipt) (with_totals vault) in
      let (vault, w1, e1, h1) =
        chain-ok (load_vault polygon env pool false)
          (λ vault. chain (ask (polygon.get_transaction_receipt tx_hash)) (with_receipt vault)) w
          out h in
      let (receipt, w2, e2, h2) =
        chain-ok (ask (polygon.get_transaction_receipt tx_hash)) (with_receipt vault) w1 out h1 in
      let (found, w3, e3, h3) =
        chain-ok (deposit_checked polygon env vault receipt) (with_totals vault) w2 out h2 in
      let (totals, w4, e4, h4) =
        chain-ok (ask (polygon.read_totals vault found.1.owner)) (λ totals. done (found, totals)) w3
          out h3 in
      let same : found ≡ out.0 =
        ap (λ o. o.0) (ok-injective (found, totals) out (ok (found, totals)) refl h4) in
      subst (λ f. IsPositive f.1) same (checked-IsPositive vault receipt w2 found e3)

abbrev transactions_of : DepositDb → List Transaction
transactions_of db = db.booked.transactions

-- The transactions and the snapshots after a deposit, by whether its hash was there
stored-new :
    (hash : Text) (d : DepositEvent) (t : Totals) (db : DepositDb)
    → is_recorded hash (transactions_of db) ≡ false
    → (transactions_of (stored hash d t db) ≡ transaction_row hash d ∷ transactions_of db)
      × (length (stored hash d t db).snapshots ≡ suc (length db.snapshots))
unfolding stored
stored-new hash d t db e = (rw e refl, rw e refl)

stored-old :
    (hash : Text) (d : DepositEvent) (t : Totals) (db : DepositDb)
    → is_recorded hash (transactions_of db) ≡ true
    → (transactions_of (stored hash d t db) ≡ transactions_of db)
      × (length (stored hash d t db).snapshots ≡ length db.snapshots)
unfolding stored
stored-old hash d t db e = (rw e refl, rw e refl)

-- The hash is recorded, there are as many new snapshots as new transactions, and no two transactions share a
-- hash if none did before.
abbrev pub Recorded : DepositDb → Text → DepositDb → Type 0
Recorded db hash db' =
    (is_recorded hash (transactions_of db') ≡ true)
    × (length db'.snapshots + length (transactions_of db)
        ≡ length db.snapshots + length (transactions_of db'))
    × (Once (transactions_of db) → Once (transactions_of db'))

stored-Recorded :
    (hash : Text) (d : DepositEvent) (t : Totals) (db : DepositDb)
    → Recorded db hash (stored hash d t db)
stored-Recorded hash d t db = elim (Bool-cases (is_recorded hash (transactions_of db))) [
  | inl e ↦
      let (rows, count) = stored-old hash d t db e in
      (rw rows e, rw (rows, count) refl, λ once. rw rows once)
  | inr e ↦
      let (rows, count) = stored-new hash d t db e in
      (rw (rows, text_eq_refl hash) refl, rw (rows, count) (omega arith), λ once. rw rows (e, once))
]

-- What a confirmation leaves: the rows as they were, when it throws; otherwise a recorded deposit, which a
-- synchronisation of the vault's events leaves alone.
abbrev pub Confirmed : DepositDb → Result DepositError (Text × DepositEvent) → DepositDb → Type 0
Confirmed db (throw e) db' = db' ≡ db
Confirmed db (ok (hash, d)) db' =
    IsPositive d
    × Recorded db hash db'
    × ((only : Option (List Text)) (price : ℕ) (fees : List (Log FeeCharged)) (ev : Log Deposit)
        → to_lower ev.transaction_hash ≡ hash
        → deposit_turn only price fees ev db'.booked ≡ db'.booked)

module _ {W : Type 0} (polygon : Polygon W) (env : DepositEnv) where
  confirmed_by-Confirmed :
      (r : Result DepositError ((Text × DepositEvent) × Totals)) (db : DepositDb)
      → ((out : (Text × DepositEvent) × Totals) → r ≡ ok out → IsPositive out.0.1)
      → let (out, db') = confirmed_by polygon env r db in Confirmed db out db'
  confirmed_by-Confirmed (throw e) db h = refl
  confirmed_by-Confirmed (ok (found, totals)) db h =
      let recorded = stored-Recorded found.0 found.1 totals db in
      (
        h (found, totals) refl,
        recorded,
        λ only price fees ev e.
            turn-unmoved only price fees ev (stored found.0 found.1 totals db).booked
              (λ d. rw e recorded.0),
      )

  -- A confirmation throws and leaves all rows as they are, or its deposit is positive, its hash has a
  -- transaction, there are as many new snapshots of the price as new transactions, no two transactions share a
  -- hash if none did before, and the event of the deposit is not booked again by a
  -- synchronisation of the vault.
  pub confirm-Confirmed :
      (pool : Option DepositPool) (tx_hash : Text) (db : DepositDb) (w : W)
      → let (out, (db', w')) = confirm_direct_pusd_deposit polygon env pool tx_hash db w in
        Confirmed db out db'
  unfolding confirm_direct_pusd_deposit
  confirm-Confirmed pool tx_hash db w =
      confirmed_by-Confirmed (read_deposit polygon env pool tx_hash w).0 db
        (λ out e. read_deposit-IsPositive polygon env pool tx_hash w out e)
