-- ===== src/Polymarket/DirectDeposit/Tests.antt =====
-- Runs of the direct deposits.
use team_index.Base.{
  ℕ, suc, ◌+◌, ◌*◌, ◌^◌, ◌≤◌, ◌<◌, ◌≡◌, refl, [], ◌∷◌, true, none, some, ok, throw, Text, codes,
  text_eq, to_lower, length,
}
use team_index.Polymarket.DirectDeposit.{
  direct, Receipt, DepositPool, Capacity, Polygon, DepositEnv, chain, read_single_vault_deposit,
  read_deposit, prepare_direct_pusd_deposit, confirm_direct_pusd_deposit,
}
use team_index.Polymarket.DirectDeposit.Booking.{DepositEvent, DepositDb, stored}
use team_index.Polymarket.DirectDeposit.Prepared.{IsActiveVault, prepare-Within}
use team_index.Polymarket.DirectDeposit.Confirmed.{Confirmed, confirm-Confirmed}

abbrev vault : Text
vault = codes "0xVa"

abbrev alice : Text
alice = codes "0xAl"

abbrev pool : DepositPool
pool = record { is_active = true; vault_address = vault }

abbrev event : DepositEvent
event = record { owner = alice; assets = 50; shares = 25 }

-- A deposit of another vault stands beside that of the pool's.
abbrev receipt : Receipt
receipt = record {
  hash = codes "0xA1";
  is_successful = true;
  logs =
      record { address = alice; deposit = some event }
      ∷ record { address = codes "0xVA"; deposit = some event }
      ∷ record { address = vault; deposit = none }
      ∷ [];
}

-- The state counts the calls.
abbrev polygon : Polygon ℕ
polygon = record {
  is_address = λ address. true;
  get_address = λ address. address;
  get_code = λ address w. (ok (codes "0x60"), suc w);
  asset = λ address w. (ok (codes "0xUsd"), suc w);
  get_transaction_receipt = λ hash w. (ok (some receipt), suc w);
  read_capacity = λ address receiver assets w.
      (ok (record { maximum = 1000; shares = 25; total_assets = 400 }), suc w);
  read_totals = λ address owner w.
      (ok (record { balance = 25; cash = 300; total_assets = 450; total_supply = 225 }), suc w);
}

abbrev env : DepositEnv
env = record { is_enabled = true; pusd_address = codes "0xUsd"; pilot_tvl = 500 }

abbrev empty_db : DepositDb
empty_db = record {
  booked = record {
    users = [];
    transactions = [];
    cash = 0;
    total_token_supply = 0;
    last_synced_block = 6;
  };
  total_pool_value = 0;
  official_token_price = 0;
  snapshots = [];
}

abbrev booked_db : DepositDb
booked_db = (confirm_direct_pusd_deposit polygon env (some pool) (codes "0xA1") empty_db 0).1.0

-- A price of 2, with one snapshot
booked_price : (booked_db.official_token_price ≡ 2 * 10 ^ 18) × (length booked_db.snapshots ≡ 1)
unfolding confirm_direct_pusd_deposit read_deposit read_single_vault_deposit stored chain text_eq
    to_lower
booked_price = (refl, refl)

-- The same transaction again adds no transaction and no snapshot.
booked_again :
    (confirm_direct_pusd_deposit polygon env (some pool) (codes "0xa1") booked_db 0).1.0 ≡ booked_db
unfolding confirm_direct_pusd_deposit read_deposit read_single_vault_deposit stored chain text_eq
    to_lower
booked_again = refl

prepared : (prepare_direct_pusd_deposit polygon env (some pool) (some 50) alice 0).0 ≡ ok 25
unfolding prepare_direct_pusd_deposit chain text_eq
prepared = refl

-- The pilot limit
too_much :
    (prepare_direct_pusd_deposit polygon env (some pool) (some 101) alice 0).0
    ≡ throw (direct 409 (codes "Deposit exceeds the pUSD pilot limit"))
unfolding prepare_direct_pusd_deposit chain text_eq
too_much = refl

confirm-Confirmed_example :
    let (out, (db', w')) =
      confirm_direct_pusd_deposit polygon env (some pool) (codes "0xA1") empty_db 0 in
    Confirmed empty_db out db'
confirm-Confirmed_example = confirm-Confirmed polygon env (some pool) (codes "0xA1") empty_db 0

prepare-Within_example :
    (env.is_enabled ≡ true)
    × (assets : ℕ) × (to : Text) × (w' : ℕ) × (c : Capacity) × ((polygon.read_capacity to
          (polygon.get_address alice)
          assets
          w').0
        ≡ ok c)
    × (some 50 ≡ some assets)
    × (0 < assets)
    × (polygon.is_address alice ≡ true)
    × IsActiveVault (some pool) to
    × (assets ≤ c.maximum)
    × (c.total_assets + assets ≤ env.pilot_tvl)
    × (0 < 25)
    × (c.shares ≡ 25)
prepare-Within_example = prepare-Within polygon env (some pool) (some 50) alice 0 25 prepared
