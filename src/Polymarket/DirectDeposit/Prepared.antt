-- ===== src/Polymarket/DirectDeposit/Prepared.antt =====
-- src/polymarket/directVaultDeposit.ts: which deposits are prepared.
use team_index.Base.{
  ℕ, ◌+◌, ◌≤◌, ◌<◌, ◌≡◌, Bool, true, false, ◌&&◌, ◌||◌, not, Option, none, some, Result, [], ok,
  throw, Text, codes, text_eq, if◌then◌else◌, arith,
}
use team_index.Polymarket.DirectDeposit.{
  wrapped, DepositPool, Capacity, Polygon, DepositEnv, Step, refused, ask, chain, checked_amount,
  asset_checked, code_checked, load_vault, within_capacity, prepare_direct_pusd_deposit,
}
use team_index.Polymarket.DirectDeposit.Confirmed.{chain-ok}

-- The branch of a test that succeeds, where the first one does not
else-ok :
    {W A : Type 0} (b : Bool) (status : ℕ) (message : Text) (n : Step W A) (w : W) (y : A)
    → ((if b then refused status message else n) w).0 ≡ ok y
    → (n w).0 ≡ ok y
else-ok true status message n w y h = absurd (ground (arith, h))
else-ok false status message n w y h = h

asked_ok : {A : Type 0} (r : Result Text A) (x : A) → wrapped r ≡ ok x → r ≡ ok x
asked_ok (ok y) x h = ground (arith, h)
asked_ok (throw e) x h = absurd (ground (arith, h))

checked_amount-ok :
    {W : Type 0} (polygon : Polygon W) (assets_text : Option ℕ) (receiver : Text) (w : W)
    (assets : ℕ)
    → (checked_amount polygon assets_text receiver w).0 ≡ ok assets
    → (assets_text ≡ some assets) × (0 < assets) × (polygon.is_address receiver ≡ true)
checked_amount-ok polygon none receiver w assets h = absurd (ground (arith, h))
checked_amount-ok polygon (some n) receiver w assets h =
    (ground (arith, h), ground (arith, h), ground (arith, h))

-- The pool is there and active, and the vault is its own.
abbrev pub IsActiveVault : Option DepositPool → Text → Type 0
IsActiveVault none vault = ⊥
IsActiveVault (some pool) vault = (pool.is_active ≡ true) × (vault ≡ pool.vault_address)

module _ {W : Type 0} (polygon : Polygon W) (env : DepositEnv) where
  within_capacity-ok :
      (assets : ℕ) (c : Capacity) (w : W) (shares : ℕ)
      → (within_capacity polygon env assets c w).0 ≡ ok shares
      → (assets ≤ c.maximum)
        × (c.total_assets + assets ≤ env.pilot_tvl)
        × (0 < shares)
        × (c.shares ≡ shares)
  within_capacity-ok assets c w shares h =
      (ground (arith, h), ground (arith, h), ground (arith, h), ground (arith, h))

  asset_checked-ok :
      (vault asset : Text) (w : W) (out : Text)
      → (asset_checked polygon env vault asset w).0 ≡ ok out
      → out ≡ vault
  asset_checked-ok vault asset w out h = ground (arith, h)

  code_checked-ok :
      (vault code : Text) (w : W) (out : Text)
      → (code_checked polygon env vault code w).0 ≡ ok out
      → out ≡ vault
  code_checked-ok vault code w out h =
      let rest = chain (ask (polygon.asset vault)) (asset_checked polygon env vault) in
      let (asset, w', e, k) =
        chain-ok (ask (polygon.asset vault)) (asset_checked polygon env vault) w out (
          else-ok (text_eq code (codes "0x")) 409 (codes "Pool vault is not deployed on Polygon")
            rest w out h) in
      asset_checked-ok vault asset w' out k

  load_vault-IsActiveVault :
      (pool : Option DepositPool) (w : W) (vault : Text)
      → (load_vault polygon env pool true w).0 ≡ ok vault
      → IsActiveVault pool vault
  load_vault-IsActiveVault none w vault h = absurd (ground (arith, h))
  load_vault-IsActiveVault (some pool) w vault h =
      let address = pool.vault_address in
      let rest = chain (ask (polygon.get_code address)) (code_checked polygon env address) in
      let (code, w', e, k) =
        chain-ok (ask (polygon.get_code address)) (code_checked polygon env address) w vault (
          else-ok
            ((true && not pool.is_active)
              || (text_eq address [] || not (polygon.is_address address)))
            409 (codes "Pool vault is not ready") rest w vault h) in
      (ground (arith, h), code_checked-ok address code w' vault k)

  -- A deposit is prepared only while deposits are enabled, for a positive amount and the address of a receiver,
  -- into the vault of an active pool; and the amount is at most what the vault said it takes, with its total
  -- assets at most the pilot limit, and the shares that are announced are the positive number that the vault
  -- said.
  pub prepare-Within :
      (pool : Option DepositPool) (assets_text : Option ℕ) (receiver : Text) (w : W) (shares : ℕ)
      → (prepare_direct_pusd_deposit polygon env pool assets_text receiver w).0 ≡ ok shares
      → (env.is_enabled ≡ true)
        × (assets : ℕ) × (vault : Text) × (w' : W) × (c : Capacity) × ((polygon.read_capacity vault
              (polygon.get_address receiver)
              assets
              w').0
            ≡ ok c)
        × (assets_text ≡ some assets)
        × (0 < assets)
        × (polygon.is_address receiver ≡ true)
        × IsActiveVault pool vault
        × (assets ≤ c.maximum)
        × (c.total_assets + assets ≤ env.pilot_tvl)
        × (0 < shares)
        × (c.shares ≡ shares)
  unfolding prepare_direct_pusd_deposit
  prepare-Within pool assets_text receiver w shares h =
      let read = λ (assets : ℕ) (vault : Text).
        chain (ask (polygon.read_capacity vault (polygon.get_address receiver) assets))
          (within_capacity polygon env assets) in
      let rest = λ (assets : ℕ). chain (load_vault polygon env pool true) (read assets) in
      let all_steps = chain (checked_amount polygon assets_text receiver) rest in
      let (assets, w1, e1, h1) =
        chain-ok (checked_amount polygon assets_text receiver) rest w shares (
          else-ok (not env.is_enabled) 503 (codes "Pilot pUSD deposits are disabled") all_steps w
            shares h) in
      let (vault, w2, e2, h2) =
        chain-ok (load_vault polygon env pool true) (read assets) w1 shares h1 in
      let (c, w3, e3, h3) =
        chain-ok (ask (polygon.read_capacity vault (polygon.get_address receiver) assets))
          (within_capacity polygon env assets) w2 shares h2 in
      let (amount, positive, address) =
        checked_amount-ok polygon assets_text receiver w assets e1 in
      let (small, limited, some_shares, same) = within_capacity-ok assets c w3 shares h3 in
      (
        ground (arith, h),
        assets,
        vault,
        w2,
        c,
        asked_ok (polygon.read_capacity vault (polygon.get_address receiver) assets w2).0 c e3,
        amount,
        positive,
        address,
        load_vault-IsActiveVault pool w1 vault e2,
        small,
        limited,
        some_shares,
        same,
      )
