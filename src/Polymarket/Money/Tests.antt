-- ===== src/Polymarket/Money/Tests.antt =====
-- Runs of the conversions of amounts.
use team_index.Base.{◌≡◌, refl, ok, throw, codes, trim}
use team_index.Polymarket.Money.{parts, decimal_to_base_units, base_units_to_decimal}
use team_index.Polymarket.Money.Printed.{read-print}
use team_index.Polymarket.Money.Columns.{Agree, column-Agree}
use team_index.Polymarket.TradeExecutor.Prices
use team_index.Polymarket.Money.Exact.{Reading, decimal_to_base_units-Reading}

printed : base_units_to_decimal 12_050_300 6 ≡ codes "12.0503"
unfolding base_units_to_decimal
printed = refl

printed_whole : base_units_to_decimal 3_000_000 6 ≡ codes "3"
unfolding base_units_to_decimal
printed_whole = refl

padded_read : decimal_to_base_units (codes " 0.50000000 ") 6 ≡ ok 500_000
unfolding decimal_to_base_units
padded_read = refl

too_precise :
    decimal_to_base_units (codes "0.0000001") 6
    ≡ throw (codes "Amount has more significant decimals")
unfolding decimal_to_base_units
too_precise = refl

no_amount : decimal_to_base_units (codes "1.") 6 ≡ throw (codes "Invalid unsigned decimal amount")
unfolding decimal_to_base_units
no_amount = refl

read-print_example : decimal_to_base_units (base_units_to_decimal 12_050_300 6) 6 ≡ ok 12_050_300
read-print_example = read-print 12_050_300 6

decimal_to_base_units-Reading_example :
    Reading 6 (parts (trim (codes " 0.50000000 "))) (decimal_to_base_units (codes " 0.50000000 ") 6)
decimal_to_base_units-Reading_example = decimal_to_base_units-Reading (codes " 0.50000000 ") 6

column-Agree_example :
    Agree
      (decimal_to_base_units (base_units_to_decimal 2_500_000_000_000_000_000 18) 6)
      (Prices.decimal_to_base_units 2_500_000_000_000_000_000)
column-Agree_example = column-Agree 2_500_000_000_000_000_000
