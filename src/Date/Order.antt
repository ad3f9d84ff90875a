-- ===== src/Date/Order.antt =====
-- scripts/lib/CIME/date.py: the comparisons of dates agree with each other, and the conversions of
-- the time of day are inverse to each other.
use cime.Common.{
  ℕ, ◌+◌, ◌*◌, ◌/◌, ◌%◌, ◌<◌, ◌≡◌, ◌↔◌, ◌⊎◌, inl, inr, refl, true, ◌||◌, not, nat_eq, arith,
}
use cime.Date.{
  Date, hms_to_second, second_to_hms, init, time_of, is_equal, is_unequal, is_less, is_at_most,
  is_at_least, is_greater,
}

-- The time of day of a date that was made from an hour, a minute and a second below 60 are that hour,
-- minute and second.
pub time_of-init :
    (year month day hour minute second : ℕ)
    → minute < 60
    → second < 60
    → time_of (init year month day hour minute second)
      ≡ record { hour = hour; minute = minute; second = second }
unfolding time_of init second_to_hms hms_to_second
time_of-init year month day hour minute second below below' =
    let hours : (hour * 3600 + minute * 60 + second) / 3600 ≡ hour = omega arith in
    let minutes : (hour * 3600 + minute * 60 + second) % 3600 / 60 ≡ minute = omega arith in
    let seconds : (hour * 3600 + minute * 60 + second) % 60 ≡ second = omega arith in
    rw (hours, minutes, seconds) refl

-- Every time of day in seconds is that of its hour, minute and second.
pub init-time_of :
    (d : Date)
    → init d.year d.month d.day (time_of d).hour (time_of d).minute (time_of d).second ≡ d
unfolding init time_of hms_to_second second_to_hms
init-time_of d =
    let seconds : d.second_of_day / 3600 * 3600
          + d.second_of_day % 3600 / 60 * 60
          + d.second_of_day % 60
        ≡ d.second_of_day =
      omega arith in
    rw seconds refl

-- The specification: earlier in the first of year, month, day and time of day that differ.
pub data IsBefore (a b : Date) : Type 0 where
  by_year : a.year < b.year → IsBefore a b
  by_month : a.year ≡ b.year → a.month < b.month → IsBefore a b
  by_day : a.year ≡ b.year → a.month ≡ b.month → a.day < b.day → IsBefore a b
  by_second :
      a.year ≡ b.year
      → a.month ≡ b.month
      → a.day ≡ b.day
      → a.second_of_day < b.second_of_day
      → IsBefore a b

compare_cases : (m n : ℕ) → (m < n) ⊎ (m ≡ n) ⊎ (n < m)
compare_cases m n = ground arith

is_less-IsBefore : (a b : Date) → is_less a b ≡ true → IsBefore a b
unfolding is_less
is_less-IsBefore a b h = elim (compare_cases a.year b.year) [
  | inl less ↦ by_year less
  | inr (inr more) ↦ absurd (ground arith)
  | inr (inl years) ↦ elim (compare_cases a.month b.month) [
    | inl less ↦ by_month years less
    | inr (inr more) ↦ absurd (ground arith)
    | inr (inl months) ↦ elim (compare_cases a.day b.day) [
      | inl less ↦ by_day years months less
      | inr (inr more) ↦ absurd (ground arith)
      | inr (inl days) ↦ by_second years months days (ground arith)
    ]
  ]
]

IsBefore-is_less : (a b : Date) → IsBefore a b → is_less a b ≡ true
unfolding is_less
IsBefore-is_less a b (by_year less) = ground arith
IsBefore-is_less a b (by_month years less) = ground arith
IsBefore-is_less a b (by_day years months less) = ground arith
IsBefore-is_less a b (by_second years months days less) = ground arith

is_equal_iff : (a b : Date) → (is_equal a b ≡ true) ↔ (a ≡ b)
unfolding is_equal
is_equal_iff a b = ground arith

at_most_lem : (a b : Date) → is_at_most a b ≡ not (is_less b a)
unfolding is_at_most is_less is_equal
at_most_lem a b = ground arith

greater_lem : (a b : Date) → is_greater a b ≡ is_less b a
unfolding is_greater
greater_lem a b = ground (arith, at_most_lem a b)

at_least_lem : (a b : Date) → is_at_least a b ≡ is_at_most b a
unfolding is_at_least
at_least_lem a b = ground (arith, at_most_lem b a)

unequal_lem : (a b : Date) → is_unequal a b ≡ (is_less a b || is_less b a)
unfolding is_unequal is_less is_equal
unequal_lem a b = ground arith

-- `<` holds of two dates when the first is earlier, `==` when they are the same, and the other four
-- comparisons are what those two say: `<=` is "not later", `>` is `<` the other way round, `>=` is
-- `<=` the other way round, `!=` is "earlier or later".
pub comparisons :
    (a b : Date)
    → ((is_less a b ≡ true) ↔ IsBefore a b)
      × ((is_equal a b ≡ true) ↔ (a ≡ b))
      × (is_at_most a b ≡ not (is_less b a))
      × (is_greater a b ≡ is_less b a)
      × (is_at_least a b ≡ is_at_most b a)
      × (is_unequal a b ≡ (is_less a b || is_less b a))
comparisons a b = (
  (is_less-IsBefore a b, IsBefore-is_less a b),
  is_equal_iff a b,
  at_most_lem a b,
  greater_lem a b,
  at_least_lem a b,
  unequal_lem a b,
)
