-- ===== src/Polymarket/DirectDeposit.antt =====
-- src/polymarket/directVaultDeposit.ts: deposits of pUSD into the vault of a pool.
pub mod Booking
pub mod Prepared
pub mod Confirmed
mod Tests
use team_index.Base.{
  ℕ, zero, suc, ◌+◌, ◌-◌, ◌*◌, ◌/◌, ◌^◌, List, [], ◌∷◌, Bool, true, false, ◌&&◌, ◌||◌, not, Option,
  none, some, Result, ok, throw, Text, codes, text_eq, to_lower, leb, ltb, ◌==◌, if◌then◌else◌,
}
use team_index.Onchain.PoolSync.Booking.{User, Transaction, PoolDb, is_recorded}
use team_index.Polymarket.DirectDeposit.Booking.{DepositDb, DepositEvent, Totals, stored}

-- With the status of the response, or an error of an outside call
pub data DepositError : Type 0 where
  direct : ℕ → Text → DepositError
  outside : Text → DepositError

-- `deposit` is what parseLog makes of the log; `none` for another event or an error.
pub record VaultLog : Type 0 where
  pub address : Text
  pub deposit : Option DepositEvent

pub record Receipt : Type 0 where
  pub hash : Text
  pub is_successful : Bool
  pub logs : List VaultLog

pub record DepositPool : Type 0 where
  pub is_active : Bool
  pub vault_address : Text

pub record Capacity : Type 0 where
  pub maximum : ℕ
  pub shares : ℕ
  pub total_assets : ℕ

-- ethers and the contracts: addresses, and reads that may throw
pub record Polygon (W : Type 0) : Type 0 where
  pub is_address : Text → Bool
  pub get_address : Text → Text
  pub get_code : Text → W → Result Text Text × W
  pub asset : Text → W → Result Text Text × W
  pub get_transaction_receipt : Text → W → Result Text (Option Receipt) × W
  pub read_capacity : Text → Text → ℕ → W → Result Text Capacity × W
  pub read_totals : Text → Text → W → Result Text Totals × W

pub record DepositEnv : Type 0 where
  pub is_enabled : Bool
  pub pusd_address : Text
  pub pilot_tvl : ℕ

abbrev pub Step : Type 0 → Type 0 → Type 0
Step W A = W → Result DepositError A × W

abbrev pub wrapped : {A : Type 0} → Result Text A → Result DepositError A
wrapped (ok x) = ok x
wrapped (throw e) = throw (outside e)

module _ {W A : Type 0} where
  abbrev pub done : A → Step W A
  done x w = (ok x, w)

  abbrev pub refused : ℕ → Text → Step W A
  refused status message w = (throw (direct status message), w)

  abbrev pub ask : (W → Result Text A × W) → Step W A
  ask f w = let (r, w') = f w in (wrapped r, w')

module _ {W A B : Type 0} where
  abbrev pub after : Result DepositError A → (A → Step W B) → Step W B
  after (ok x) f w = f x w
  after (throw e) f w = (throw e, w)

  unfoldable pub chain : Step W A → (A → Step W B) → Step W B
  chain m f w = let (r, w') = m w in after r f w'

-- The deposits among the logs of the vault
abbrev pub deposit_of : Text → VaultLog → List DepositEvent
deposit_of vault log =
    if text_eq (to_lower log.address) (to_lower vault)
    then elim log.deposit [ none ↦ [] | some d ↦ d ∷ [] ]
    else []

abbrev pub deposits_of : Text → List VaultLog → List DepositEvent
deposits_of vault [] = []
deposits_of vault (log ∷ logs) = elim (deposit_of vault log) [
  | [] ↦ deposits_of vault logs
  | d ∷ ds ↦ d ∷ deposits_of vault logs
]

abbrev pub single_deposit : (Text → Text) → List DepositEvent → Result DepositError DepositEvent
single_deposit get_address (d ∷ []) =
    if d.assets == 0 || d.shares == 0
    then throw (direct 409 (codes "Invalid vault Deposit event"))
    else ok (record d { owner = get_address d.owner })
single_deposit get_address _ = throw (direct 409 (codes "Expected exactly one vault Deposit event"))

-- With the form of addresses that getAddress gives
unfoldable pub read_single_vault_deposit :
    (Text → Text) → List VaultLog → Text → Result DepositError DepositEvent
read_single_vault_deposit get_address logs vault =
    single_deposit get_address (deposits_of vault logs)

abbrev pub checked_amount : {W : Type 0} → Polygon W → Option ℕ → Text → Step W ℕ
checked_amount polygon none receiver =
    λ w. (throw (outside (codes "Cannot convert to a BigInt")), w)
checked_amount polygon (some assets) receiver =
    if assets == 0 || not (polygon.is_address receiver)
    then refused 400 (codes "Invalid deposit")
    else done assets

module _ {W : Type 0} (polygon : Polygon W) (env : DepositEnv) where
  abbrev pub asset_checked : Text → Text → Step W Text
  asset_checked vault asset =
      if text_eq (polygon.get_address asset) (polygon.get_address env.pusd_address)
      then done vault
      else refused 409 (codes "Pool vault asset is not Polygon pUSD")

  abbrev pub code_checked : Text → Text → Step W Text
  code_checked vault code =
      if text_eq code (codes "0x")
      then refused 409 (codes "Pool vault is not deployed on Polygon")
      else chain (ask (polygon.asset vault)) (asset_checked vault)

  -- The vault's address
  abbrev pub load_vault : Option DepositPool → Bool → Step W Text
  load_vault none require_active = refused 404 (codes "Pool not found")
  load_vault (some pool) require_active =
      if (require_active && not pool.is_active)
        || (text_eq pool.vault_address [] || not (polygon.is_address pool.vault_address))
      then refused 409 (codes "Pool vault is not ready")
      else chain (ask (polygon.get_code pool.vault_address)) (code_checked pool.vault_address)

  abbrev pub within_capacity : ℕ → Capacity → Step W ℕ
  within_capacity assets c =
      if ltb c.maximum assets || c.shares == 0
      then refused 409 (codes "Deposit exceeds current vault capacity")
      else if ltb env.pilot_tvl (c.total_assets + assets)
      then refused 409 (codes "Deposit exceeds the pUSD pilot limit")
      else done c.shares

  -- The transactions that the source also returns follow from the arguments; the result is the number of
  -- expected shares.
  unfoldable pub prepare_direct_pusd_deposit : Option DepositPool → Option ℕ → Text → Step W ℕ
  unfolding chain
  prepare_direct_pusd_deposit pool assets_text receiver_text =
      if not env.is_enabled
      then refused 503 (codes "Pilot pUSD deposits are disabled")
      else chain (checked_amount polygon assets_text receiver_text) λ assets.
        chain (load_vault pool true) λ vault.
          chain (ask (polygon.read_capacity vault (polygon.get_address receiver_text) assets))
            (within_capacity assets)

  abbrev pub deposit_checked : Text → Option Receipt → Step W (Text × DepositEvent)
  deposit_checked vault none w = refused 409 (codes "Successful Polygon receipt not found") w
  deposit_checked vault (some receipt) w =
      if receipt.is_successful
      then after (read_single_vault_deposit polygon.get_address receipt.logs vault)
          (λ d. done (to_lower receipt.hash, d)) w
      else refused 409 (codes "Successful Polygon receipt not found") w

  -- The deposit of a transaction's receipt, with the vault's totals
  unfoldable pub read_deposit : Option DepositPool → Text → Step W ((Text × DepositEvent) × Totals)
  unfolding chain read_single_vault_deposit
  read_deposit pool tx_hash = chain (load_vault pool false) λ vault.
      chain (ask (polygon.get_transaction_receipt tx_hash)) λ receipt.
        chain (deposit_checked vault receipt) λ found.
          chain (ask (polygon.read_totals vault (found.1.owner))) λ totals. done (found, totals)

  abbrev pub confirmed_by :
      Result DepositError ((Text × DepositEvent) × Totals)
      → DepositDb
      → Result DepositError (Text × DepositEvent) × DepositDb
  confirmed_by (throw e) db = (throw e, db)
  confirmed_by (ok (found, totals)) db = (ok found, stored found.0 found.1 totals db)

  unfoldable pub confirm_direct_pusd_deposit :
      Option DepositPool
      → Text
      → DepositDb
      → W
      → Result DepositError (Text × DepositEvent) × (DepositDb × W)
  unfolding read_deposit stored
  confirm_direct_pusd_deposit pool tx_hash db w =
      let (r, w') = read_deposit pool tx_hash w in
      let (out, db') = confirmed_by r db in (out, (db', w'))
