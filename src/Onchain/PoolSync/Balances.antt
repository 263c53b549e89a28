-- ===== src/Onchain/PoolSync/Balances.antt =====
-- src/onchain/poolSync.ts: after a pass over the holders, their balances are the vault's.
use team_index.Base.{
  ℕ, ◌≡◌, refl, sym, List, [], ◌∷◌, Bool, false, Option, none, some, Result, ok, throw, arith, All,
  Text, text_eq, text_eq→eq, text_eq_refl, to_lower, Bool-cases, inl, inr, if◌then◌else◌, ap, ◌∙◌,
}
use team_index.Onchain.RpcError.{ErrorValue}
use team_index.Onchain.PoolSync.{Vault, RpcEnv, balances_pass, balance_answered}
use team_index.Onchain.PoolSync.Booking.{User}
use team_index.Onchain.PoolSync.Touched.{Holder, upsert_synced_holder_balance}
use team_index.Onchain.PoolSync.Holders.{is_key, Keyed}

-- The balance in the first row of the address, whatever its case
unfoldable pub balance_at : Text → List User → Option ℕ
balance_at key [] = none
balance_at key (u ∷ us) =
    let rest = balance_at key us in
    if text_eq (to_lower u.user_address) key then some u.token_balance else rest

upsert-same :
    (h : Holder) (balance : ℕ) (users : List User)
    → balance_at (to_lower h.address) (upsert_synced_holder_balance h balance users) ≡ some balance
unfolding balance_at upsert_synced_holder_balance
upsert-same h balance [] = rw (text_eq_refl (to_lower h.address)) refl
upsert-same h balance (u ∷ us) =
    elim (Bool-cases (text_eq (to_lower u.user_address) (to_lower h.address))) [
      | inl e ↦ rw (e, e) refl
      | inr e ↦ rw (e, e) (upsert-same h balance us)
    ]

upsert-other :
    (h : Holder) (balance : ℕ) (key : Text) (users : List User)
    → text_eq (to_lower h.address) key ≡ false
    → balance_at key (upsert_synced_holder_balance h balance users) ≡ balance_at key users
unfolding balance_at upsert_synced_holder_balance
upsert-other h balance key [] e = rw e refl
upsert-other h balance key (u ∷ us) e =
    elim (Bool-cases (text_eq (to_lower u.user_address) (to_lower h.address))) [
      | inl a ↦
          let same = text_eq→eq (to_lower u.user_address) (to_lower h.address) a in
          let b : text_eq (to_lower u.user_address) key ≡ false = rw same e in rw (a, b) refl
      | inr a ↦ rw (a, upsert-other h balance key us e) refl
    ]

module _ {W : Type 0} (vault : Vault W) (env : RpcEnv) where
  answered-other :
      (url : Text) (h : Holder) (hs : List Holder) (key : Text) (users : List User) (w : W)
      (reply : Result ErrorValue ℕ)
      → h.key ≡ to_lower h.address
      → text_eq h.key key ≡ false
      → ((us : List User) (v : W)
          → balance_at key (balances_pass vault env url hs us v).1.1 ≡ balance_at key us)
      → balance_at key
          (balance_answered vault env reply h
            (λ us v. balances_pass vault env url hs us v)
            users
            w).1.1
        ≡ balance_at key users
  answered-other url h hs key users w (ok balance) e n rest =
      rest (upsert_synced_holder_balance h balance users) w
      ∙ upsert-other h balance key users (rw (sym e) n)
  answered-other url h hs key users w (throw err) e n rest = refl

  pass-other :
      (url : Text) (hs : List Holder) (key : Text) (users : List User) (w : W)
      → Keyed hs
      → is_key key hs ≡ false
      → balance_at key (balances_pass vault env url hs users w).1.1 ≡ balance_at key users
  unfolding balances_pass
  pass-other url [] key users w k n = refl
  pass-other url (h ∷ hs) key users w (e, m, k) n =
      answered-other url h hs key users (vault.balance_of url h.address w).1
        (vault.balance_of url h.address w).0 e (ground arith)
        (λ us v. pass-other url hs key us v k (ground arith))

  -- The vault's balances do not change meanwhile, nor with the case of an address.
  abbrev pub Answers : (Text → ℕ) → Type 0
  Answers shares =
      (url address : Text) (w : W) (b : ℕ)
      → (vault.balance_of url address w).0 ≡ ok b
      → b ≡ shares (to_lower address)

  abbrev pub Synced : (Text → ℕ) → List User → Holder → Type 0
  Synced shares users h = balance_at h.key users ≡ some (shares h.key)

  answered-Synced :
      (shares : Text → ℕ) (url : Text) (h : Holder) (hs : List Holder) (users : List User) (w : W)
      (reply : Result ErrorValue ℕ) (b : Bool)
      → ((c : ℕ) → reply ≡ ok c → c ≡ shares (to_lower h.address))
      → h.key ≡ to_lower h.address
      → is_key h.key hs ≡ false
      → Keyed hs
      → ((us : List User) (v : W)
          → (balances_pass vault env url hs us v).0 ≡ ok b
          → All (Synced shares (balances_pass vault env url hs us v).1.1) hs)
      → let out =
          balance_answered vault env reply h
            (λ us v. balances_pass vault env url hs us v)
            users
            w in
        out.0 ≡ ok b → All (Synced shares out.1.1) (h ∷ hs)
  answered-Synced shares url h hs users w (throw err) b a e m k rest o = absurd (cc o)
  answered-Synced shares url h hs users w (ok balance) b a e m k rest o =
      let us = upsert_synced_holder_balance h balance users in
      let same : balance_at h.key us ≡ some balance =
        ap (λ key. balance_at key us) e ∙ upsert-same h balance users in
      let value : balance ≡ shares h.key = rw e (a balance refl) in
      (pass-other url hs h.key us w k m ∙ same ∙ ap (λ c. some c) value, rest us w o)

  pub pass-Synced :
      (shares : Text → ℕ) (url : Text) (hs : List Holder) (users : List User) (w : W) (b : Bool)
      → Answers shares
      → Keyed hs
      → (balances_pass vault env url hs users w).0 ≡ ok b
      → All (Synced shares (balances_pass vault env url hs users w).1.1) hs
  unfolding balances_pass
  pass-Synced shares url [] users w b a k o = tt
  pass-Synced shares url (h ∷ hs) users w b a (e, m, k) o =
      answered-Synced shares url h hs users (vault.balance_of url h.address w).1
        (vault.balance_of url h.address w).0 b (a url h.address w) e m k
        (λ us v r. pass-Synced shares url hs us v b a k r) o
