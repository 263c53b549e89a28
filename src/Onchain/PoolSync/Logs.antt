-- ===== src/Onchain/PoolSync/Logs.antt =====
-- src/onchain/poolSync.ts: the logs that a sync reads, in their order.
use team_index.Base.{
  ℕ, List, [], ◌∷◌, map, Bool, true, false, ◌||◌, ◌&&◌, not, Option, none, some, ◌==◌, ltb,
  if◌then◌else◌, any, Text, codes, text_eq, to_lower,
}

-- A log of the chain; an empty text is a missing one.
pub record Log (A : Type 0) : Type 0 where
  pub transaction_hash : Text
  pub block_number : ℕ
  pub log_index : ℕ
  pub args : A

pub record Deposit : Type 0 where
  pub owner : Text
  pub assets : ℕ
  pub shares : ℕ

pub record Withdraw : Type 0 where
  pub owner : Text
  pub shares : ℕ

pub record Transfer : Type 0 where
  pub from : Text
  pub to : Text

pub record FeeCharged : Type 0 where
  pub gross_assets : ℕ
  pub fee_assets : ℕ
  pub net_assets : ℕ

pub record VaultSyncSnapshot : Type 0 where
  pub deposit_events : List (Log Deposit)
  pub withdraw_events : List (Log Withdraw)
  pub transfer_events : List (Log Transfer)
  pub fee_events : List (Log FeeCharged)
  pub vault_cash : ℕ
  pub total_supply : ℕ

abbrev pub is_missing : Text → Bool
is_missing [] = true
is_missing (c ∷ s) = false

abbrev pub zero_address : Text
zero_address = codes "0x0000000000000000000000000000000000000000"

-- `onlySet`: an empty list is none.
abbrev pub only_set : Option (List Text) → Option (List Text)
only_set none = none
only_set (some []) = none
only_set (some (h ∷ hs)) = some (map to_lower (h ∷ hs))

abbrev pub wanted : Option (List Text) → Text → Bool
wanted none h = true
wanted (some hs) h = not (is_missing h) && any (text_eq (to_lower h)) hs

-- By block and index
abbrev pub is_after : {A : Type 0} → Log A → Log A → Bool
is_after a b =
    ltb b.block_number a.block_number
    || a.block_number == b.block_number && ltb b.log_index a.log_index

abbrev pub insert_log : {A : Type 0} → Log A → List (Log A) → List (Log A)
insert_log ev [] = ev ∷ []
insert_log ev (x ∷ xs) =
    let rest = insert_log ev xs in if is_after x ev then ev ∷ x ∷ xs else x ∷ rest

-- `sort(sortFn)`, which is stable
abbrev pub sort_logs : {A : Type 0} → List (Log A) → List (Log A) → List (Log A)
sort_logs done [] = done
sort_logs done (ev ∷ evs) = sort_logs (insert_log ev done) evs
