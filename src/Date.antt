-- ===== src/Date.antt =====
-- scripts/lib/CIME/date.py: the class date, a day and a time of day. A year may have any length.
pub mod Order
mod Tests
use cime.Common.{
  ℕ, ◌+◌, ◌*◌, ◌/◌, ◌%◌, ◌<◌, ◌≡◌, Bool, true, false, ◌&&◌, ◌||◌, not, if◌then◌else◌, ltb, ◌==◌,
  nat_eq, arith,
}

pub record Date : Type 0 where
  pub year : ℕ
  pub month : ℕ
  pub day : ℕ
  -- self._second, second_of_day()
  pub second_of_day : ℕ

-- hms_to_second
unfoldable pub hms_to_second : ℕ → ℕ → ℕ → ℕ
hms_to_second hour minute second = hour * 3600 + minute * 60 + second

-- The dictionary that `second_to_hms` returns.
pub record TimeOfDay : Type 0 where
  pub hour : ℕ
  pub minute : ℕ
  pub second : ℕ

unfoldable pub second_to_hms : ℕ → TimeOfDay
second_to_hms second = record {
  hour = second / 3600;
  minute = second % 3600 / 60;
  second = second % 60;
}

-- date(year, month, day, hour, minute, second)
unfoldable pub init : ℕ → ℕ → ℕ → ℕ → ℕ → ℕ → Date
init year month day hour minute second = record {
  year = year;
  month = month;
  day = day;
  second_of_day = hms_to_second hour minute second;
}

-- hour(), minute() and second()
unfoldable pub time_of : Date → TimeOfDay
time_of d = second_to_hms d.second_of_day

-- __eq__
unfoldable pub is_equal : Date → Date → Bool
is_equal a b =
    a.year == b.year && a.month == b.month && a.day == b.day && a.second_of_day == b.second_of_day

-- __ne__
unfoldable pub is_unequal : Date → Date → Bool
unfolding is_equal
is_unequal a b = not (is_equal a b)

-- __lt__
unfoldable pub is_less : Date → Date → Bool
is_less a b =
    if ltb a.year b.year
    then true
    else if ltb b.year a.year
    then false
    else if ltb a.month b.month
    then true
    else if ltb b.month a.month
    then false
    else if ltb a.day b.day
    then true
    else if ltb b.day a.day
    then false
    else ltb a.second_of_day b.second_of_day

-- __le__
unfoldable pub is_at_most : Date → Date → Bool
unfolding is_less is_equal
is_at_most a b = is_less a b || is_equal a b

-- __ge__
unfoldable pub is_at_least : Date → Date → Bool
unfolding is_less
is_at_least a b = not (is_less a b)

-- __gt__
unfoldable pub is_greater : Date → Date → Bool
unfolding is_at_most
is_greater a b = not (is_at_most a b)
