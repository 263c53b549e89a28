-- ===== src/Limitless/Executor/Wallet.antt =====
-- src/limitless/limitlessExecutor.ts, ensurePoolLimitlessServerWallet: the wallet of a pool on Limitless,
-- made if there is none, and linked to the pool's vault.
use team_index.Base.{ℕ, ◌∷◌, Bool, true, false, Option, none, some, ok, Text, codes, if◌then◌else◌}
use team_index.Limitless.TokenId.{number_from}
use team_index.Limitless.Executor.Calls.{
  WalletAccount, Exchange, Exec, pure, stop, raise, call, ◌>>=◌,
}

pub record ServerWallet : Type 0 where
  pub created : Bool
  pub owner_id : ℕ
  pub wallet_address : Text

abbrev active_account : Text → Text → WalletAccount
active_account profile address = record {
  limitless_profile_id = some profile;
  account_address = some address;
  server_wallet = true;
  allowance_status = codes "PENDING";
  status = codes "ACTIVE";
}

-- `Number(...)` of the profile id, where what is no number counts as 0
abbrev wallet_of : Bool → Text → Text → ServerWallet
wallet_of created profile address = record {
  created = created;
  owner_id = number_from 0 profile;
  wallet_address = address;
}

abbrev pub both : Option Text → Option Text → Option (Text × Text)
both (some (p ∷ ps)) (some (c ∷ cs)) = some (p ∷ ps, c ∷ cs)
both _ _ = none

-- The profile id and the address, where the account has a server wallet
abbrev pub existing_ids : Option WalletAccount → Option (Text × Text)
existing_ids none = none
existing_ids (some a) =
    let ids = both a.limitless_profile_id a.account_address in if a.server_wallet then ids else none

module _ {W : Type 0} (ex : Exchange W) where
  abbrev pub link_unless : Text → Text → Bool → Exec W Bool
  link_unless vault wallet true = pure true
  link_unless vault wallet false = call (ex.set_trading_wallet vault wallet)

  -- The wallet is made one of the vault's trading wallets, if it is not.
  unfoldable pub linked : Text → Text → Exec W Bool
  linked vault wallet = call (ex.is_trading_wallet vault wallet) >>= link_unless vault wallet

  -- The row is written.
  abbrev pub store : Text → Text → Exec W Bool
  store profile address a w = (ok true, (some (active_account profile address), w))

  abbrev pub created_wallet : Text → Option (Text × Text) → Exec W ServerWallet
  created_wallet vault none =
      stop
        (raise (codes "Limitless server wallet creation did not return profileId/accountAddress"))
  created_wallet vault (some (profile, address)) = store profile address >>= λ done.
      linked vault address >>= λ link. pure (wallet_of true profile address)

  abbrev pub wallet_by : Text → Option (Text × Text) → Exec W ServerWallet
  wallet_by vault (some (profile, address)) =
      linked vault address >>= λ link. pure (wallet_of false profile address)
  wallet_by vault none = call ex.create_partner >>= λ ids. created_wallet vault (both ids.0 ids.1)

  -- For a pool with the vault's address
  unfoldable pub ensure_pool_limitless_server_wallet : Text → Exec W ServerWallet
  unfolding linked ◌>>=◌
  ensure_pool_limitless_server_wallet vault a w = wallet_by vault (existing_ids a) a w
