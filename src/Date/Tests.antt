-- ===== src/Date/Tests.antt =====
-- Doctests of scripts/lib/CIME/date.py, and the theorems at concrete dates.
use cime.Common.{◌≡◌, ◌↔◌, refl, true, false, ◌||◌, not, arith}
use cime.Date.{
  Date, hms_to_second, second_to_hms, init, time_of, is_equal, is_unequal, is_less, is_at_most,
  is_at_least, is_greater,
}
use cime.Date.Order.{IsBefore, time_of-init, init-time_of, comparisons}

program : Unit {0}
unfolding hms_to_second second_to_hms init time_of is_equal is_unequal is_less is_at_most
    is_at_least is_greater
program = tt

abbrev at_nine : Date
at_nine = record { year = 4; month = 5; day = 6; second_of_day = 32400 }

abbrev at_eight : Date
at_eight = record { year = 4; month = 5; day = 6; second_of_day = 28800 }

abbrev next_month : Date
next_month = record { year = 4; month = 6; day = 6; second_of_day = 28800 }

hours_doctest :
    (init 4 5 6 9 0 0 ≡ at_nine)
    × (is_equal at_nine at_eight ≡ false)
    × (is_unequal at_nine at_eight ≡ true)
    × (is_less at_nine at_eight ≡ false)
    × (is_at_most at_nine at_eight ≡ false)
    × (is_at_least at_nine at_eight ≡ true)
    × (is_greater at_nine at_eight ≡ true)
unfolding program
hours_doctest = (refl, refl, refl, refl, refl, refl, refl)

time_of-init_example : time_of (init 10 1 6 0 7 15) ≡ record { hour = 0; minute = 7; second = 15 }
time_of-init_example = time_of-init 10 1 6 0 7 15 (omega arith) (omega arith)

init-time_of_example :
    init 4 5 6 (time_of at_nine).hour (time_of at_nine).minute (time_of at_nine).second ≡ at_nine
init-time_of_example = init-time_of at_nine

comparisons_example :
    ((is_less at_nine next_month ≡ true) ↔ IsBefore at_nine next_month)
    × ((is_equal at_nine next_month ≡ true) ↔ (at_nine ≡ next_month))
    × (is_at_most at_nine next_month ≡ not (is_less next_month at_nine))
    × (is_greater at_nine next_month ≡ is_less next_month at_nine)
    × (is_at_least at_nine next_month ≡ is_at_most next_month at_nine)
    × (is_unequal at_nine next_month ≡ (is_less at_nine next_month || is_less next_month at_nine))
comparisons_example = comparisons at_nine next_month
