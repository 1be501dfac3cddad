-- ===== src/Sdk/Tests/Display.antt =====
-- The display of an amount with seven decimals.
use bc_forge.Common.{◌≡◌, refl, some, length}
use bc_forge.Common.Int.{negsuc}
use bc_forge.Common.Decimal.{parse, format_nat, digits}
use bc_forge.Common.Texts.{codes}
use bc_forge.Sdk.Amounts.{format_atomic_amount}
use bc_forge.Sdk.Amounts.Reading.{without_point, fraction, format_atomic_amount_lem}

small_debt : format_atomic_amount (negsuc 41) 7 ≡ codes "-0.0000042"
unfolding format_atomic_amount format_nat digits
small_debt = refl

format_atomic_amount_lem_example :
    (parse (without_point (format_atomic_amount (negsuc 41) 7)) ≡ some (negsuc 41))
    × (length (fraction (format_atomic_amount (negsuc 41) 7)) ≡ 7)
format_atomic_amount_lem_example = format_atomic_amount_lem (negsuc 41) 7
