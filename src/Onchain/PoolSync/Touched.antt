-- ===== src/Onchain/PoolSync/Touched.antt =====
-- src/onchain/poolSync.ts: the holders that transfers touch, and the row that gets a holder's balance.
use team_index.Base.{
  ℕ, List, [], ◌∷◌, Bool, true, false, ◌||◌, not, Option, some, if◌then◌else◌, Text, text_eq,
  to_lower,
}
use team_index.Onchain.PoolSync.Logs.{Log, Transfer, is_after, is_missing, wanted, zero_address}
use team_index.Onchain.PoolSync.Booking.{User}

-- An entry of `touchedHolders`
pub record Holder : Type 0 where
  pub key : Text
  pub address : Text
  pub event : Log Transfer

-- `true`: the event is after that of the entry.
abbrev pub newer : Bool → Text → Log Transfer → Holder → Holder
newer true address ev t = record { key = to_lower address; address = address; event = ev }
newer false address ev t = t

abbrev pub put_holder : Text → Log Transfer → List Holder → List Holder
put_holder address ev [] = (record { key = to_lower address; address = address; event = ev }) ∷ []
put_holder address ev (t ∷ ts) =
    let rest = put_holder address ev ts in
    if text_eq t.key (to_lower address)
    then newer (is_after ev t.event) address ev t ∷ ts
    else t ∷ rest

abbrev pub is_holder : Text → Bool
is_holder address = not (is_missing address || text_eq (to_lower address) zero_address)

unfoldable pub add_touched_holder : Text → Log Transfer → List Holder → List Holder
add_touched_holder address ev touched =
    if is_holder address then put_holder address ev touched else touched

-- `true`: the transfer is one of those asked for.
unfoldable pub touched_by : Bool → Log Transfer → List Holder → List Holder
unfolding add_touched_holder
touched_by true ev touched =
    add_touched_holder ev.args.to ev (add_touched_holder ev.args.from ev touched)
touched_by false ev touched = touched

unfoldable pub touched_holders :
    Option (List Text) → List (Log Transfer) → List Holder → List Holder
unfolding touched_by
touched_holders only [] touched = touched
touched_holders only (ev ∷ evs) touched =
    touched_holders only evs (touched_by (wanted only ev.transaction_hash) ev touched)

-- The first row of the address, whatever its case, gets the balance; or a new row.
unfoldable pub upsert_synced_holder_balance : Holder → ℕ → List User → List User
upsert_synced_holder_balance h balance [] =
    (record {
      user_address = h.address;
      token_balance = balance;
      shares_raw = balance;
      last_transfer = some h.event;
    })
    ∷ []
upsert_synced_holder_balance h balance (u ∷ us) =
    let rest = upsert_synced_holder_balance h balance us in
    if text_eq (to_lower u.user_address) (to_lower h.address)
    then (record u { token_balance = balance; shares_raw = balance; last_transfer = some h.event })
      ∷ us
    else u ∷ rest
