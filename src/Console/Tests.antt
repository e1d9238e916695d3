-- ===== src/Console/Tests.antt =====
-- The theorems on Kernel/naiveConsole.c: the number 255 in base 16, and the first hour of a leap
-- year's March.
use boke_os.Base.{ℕ, ◌+◌, ◌<◌, ◌≡◌, ◌⊎◌, some, List, length, arith}
use mathlib.Core.List.{reverse}
use boke_os.Base.Run.{ok, fault}
use boke_os.Console.Numbers.{uint_to_base}
use boke_os.Console.Digits.{number_of, uint_to_base-number}
use boke_os.Console.Clock.{
  Date, IsDate, hour_of_year, month_days, convert_to_gtm_minus_3, convert_to_gtm_minus_3_earlier,
}

uint_to_base-number_example :
    (cs : List ℕ) × (uint_to_base 64 255 16 ≡ some cs)
    × (number_of 16 (reverse cs) ≡ 255)
    × (0 < length cs)
uint_to_base-number_example = uint_to_base-number 255 16 (omega arith) (omega arith) (omega arith)

abbrev march : Date
march = record { hours = 1; days = 1; month = 3; year = 24 }

march-IsDate : IsDate march
unfolding month_days
march-IsDate = omega arith

convert_to_gtm_minus_3_earlier_example :
    (((d' : Date) × (convert_to_gtm_minus_3 march ≡ ok d')
      × IsDate d'
      × (d'.year ≡ 24)
      × (hour_of_year d' + 3 ≡ hour_of_year march)))
    ⊎ ((convert_to_gtm_minus_3 march ≡ fault)
        × (march.month ≡ 1)
        × (march.days ≡ 1)
        × (march.hours < 3))
convert_to_gtm_minus_3_earlier_example = convert_to_gtm_minus_3_earlier march march-IsDate
