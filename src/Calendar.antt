-- ===== src/Calendar.antt =====
-- What the services use of Go's package `time`, in UTC: calendar times, their order, the day and
-- month steps of `AddDate`, and the layouts that they print and parse.
pub mod Rfc3339
use bondster_bco.Base.{
  ℕ, ◌+◌, ◌-◌, ◌*◌, ◌/◌, ◌%◌, ◌≤◌, ◌<◌, ◌≡◌, refl, Bool, true, ◌&&◌, ◌||◌, not, Option, none, some,
  [], ◌∷◌, ◌++◌, arith, ltb, leb, ◌==◌, if◌then◌else◌,
}
use bondster_bco.Base.Text.{Bytes, codes}

-- A UTC time by its date and the nanoseconds since midnight. Months and days count from one.
pub record Time : Type 0 where
  pub year : ℕ
  pub month : ℕ
  pub day : ℕ
  pub nanos : ℕ

abbrev pub day_nanos : ℕ
day_nanos = 86400000000000

abbrev pub second_nanos : ℕ
second_nanos = 1000000000

is_leap : ℕ → Bool
is_leap y = y % 4 == 0 && (not (y % 100 == 0) || y % 400 == 0)

-- `daysIn`
pub days_in : ℕ → ℕ → ℕ
unfolding is_leap
days_in y m =
    if m == 2
    then (if is_leap y then 29 else 28)
    else if m == 4 || m == 6 || (m == 9 || m == 11)
    then 30
    else 31

-- The dates that the layouts below can print.
pub record IsValid (t : Time) : Type 0 where
  pub year_lt : t.year < 10000
  pub month_pos : 1 ≤ t.month
  pub month_le : t.month ≤ 12
  pub day_pos : 1 ≤ t.day
  pub day_le : t.day ≤ days_in t.year t.month
  pub nanos_lt : t.nanos < day_nanos

-- `time.Date(y, m, d, 0, 0, 0, 0, time.UTC)` at a day that exists.
abbrev pub date : ℕ → ℕ → ℕ → Time
date y m d = record { year = y; month = m; day = d; nanos = 0 }

-- `time.Date(2017, 1, 1, 0, 0, 0, 0, time.UTC)`, from where a token is synchronised first.
abbrev pub start_time : Time
start_time = date 2017 1 1

-- The months since January of year 0, and the order of times as one number.
abbrev pub month_index : Time → ℕ
month_index t = t.year * 12 + t.month

abbrev pub stamp : Time → ℕ
stamp t = (month_index t * 32 + t.day) * day_nanos + t.nanos

-- `a.Before(b)`, `a.After(b)`
abbrev pub before : Time → Time → Bool
before a b = ltb (stamp a) (stamp b)

abbrev pub after : Time → Time → Bool
after a b = ltb (stamp b) (stamp a)

-- The normalisation of `Date` for a month that is one too large.
norm_month : Time → Time
norm_month t = if leb t.month 12 then t else record t { year = t.year + 1; month = t.month - 12 }

-- ... and for a day that passes the end of its month by less than a month.
norm_day : Time → Time
unfolding norm_month
norm_day t =
    if leb t.day (days_in t.year t.month)
    then t
    else norm_month (record t { month = t.month + 1; day = t.day - days_in t.year t.month })

-- `t.AddDate(0, 1, 0)`
unfoldable pub add_month : Time → Time
unfolding norm_day norm_month
add_month t = norm_day (norm_month (record t { month = t.month + 1 }))

-- `t.AddDate(0, 0, 1)`
unfoldable pub next_day : Time → Time
unfolding norm_day
next_day t = norm_day (record t { day = t.day + 1 })

-- `t.AddDate(0, 0, -1)`
unfoldable pub prev_day : Time → Time
prev_day t =
    if ltb 1 t.day
    then record t { day = t.day - 1 }
    else if ltb 1 t.month
    then record t { month = t.month - 1; day = days_in t.year (t.month - 1) }
    else record t { year = t.year - 1; month = 12; day = days_in (t.year - 1) 12 }

-- The time at midnight of the same day.
abbrev pub midnight : Time → Time
midnight t = record t { nanos = 0 }

two_digits : ℕ → Bytes
two_digits n = (b'0' + n / 10) ∷ (b'0' + n % 10) ∷ []

four_digits : ℕ → Bytes
four_digits n =
    (b'0' + n / 1000) ∷ (b'0' + n / 100 % 10) ∷ (b'0' + n / 10 % 10) ∷ (b'0' + n % 10) ∷ []

-- `t.Format("02/01/2006")`, for a year of four digits
unfoldable pub format_date : Time → Bytes
unfolding two_digits four_digits
format_date t = two_digits t.day ++ b'/' ∷ (two_digits t.month ++ b'/' ∷ four_digits t.year)

-- `t.Format(time.RFC3339)`, which leaves fractions of a second out
unfoldable pub format_rfc3339 : Time → Bytes
unfolding two_digits four_digits
format_rfc3339 t =
    let seconds = t.nanos / second_nanos in
    four_digits t.year
    ++ b'-'
      ∷ (two_digits t.month
          ++ b'-'
            ∷ (two_digits t.day
                ++ b'T'
                  ∷ (two_digits (seconds / 3600)
                      ++ b':'
                        ∷ (two_digits (seconds / 60 % 60)
                            ++ b':' ∷ (two_digits (seconds % 60) ++ b'Z' ∷ [])))))

is_digit : ℕ → Bool
is_digit c = leb b'0' c && leb c b'9'

-- The last test of `time.Parse`: the month and the day exist.
check_date : ℕ → ℕ → ℕ → Option Time
check_date y m d =
    if leb 1 m && leb m 12 && (leb 1 d && leb d (days_in y m)) then some (date y m d) else none

-- `time.Parse("02/01/2006", s)`: two digits, two digits, four digits, and nothing behind them
unfoldable pub parse_date : Bytes → Option Time
unfolding is_digit check_date
parse_date (d ∷ e ∷ s ∷ m ∷ n ∷ t ∷ w ∷ x ∷ y ∷ z ∷ []) =
    if is_digit d
      && is_digit e
      && (s == b'/' && (is_digit m && is_digit n))
      && (t == b'/' && (is_digit w && is_digit x && (is_digit y && is_digit z)))
    then check_date ((w - b'0') * 1000 + (x - b'0') * 100 + (y - b'0') * 10 + (z - b'0'))
        ((m - b'0') * 10 + (n - b'0')) ((d - b'0') * 10 + (e - b'0'))
    else none
parse_date _ = none

pub days_in_bounds : (y m : ℕ) → (28 ≤ days_in y m) × (days_in y m ≤ 31)
unfolding days_in
days_in_bounds y m = ground arith

is_digit_lem : (d : ℕ) → d < 10 → is_digit (b'0' + d) ≡ true
unfolding is_digit
is_digit_lem d h = ground arith

check_date_lem : (t : Time) → IsValid t → check_date t.year t.month t.day ≡ some (midnight t)
unfolding check_date
check_date_lem t v = ground arith

value_two : (n : ℕ) → (b'0' + n / 10 - b'0') * 10 + (b'0' + n % 10 - b'0') ≡ n
value_two n = omega arith

value_four :
    (n : ℕ)
    → (b'0' + n / 1000 - b'0') * 1000
        + (b'0' + n / 100 % 10 - b'0') * 100
        + (b'0' + n / 10 % 10 - b'0') * 10
        + (b'0' + n % 10 - b'0')
      ≡ n
value_four n = omega arith

-- The print of a valid date is read back, without its time of day.
pub parse_date-format_date : (t : Time) → IsValid t → parse_date (format_date t) ≡ some (midnight t)
unfolding parse_date format_date
parse_date-format_date t v =
    let low = days_in_bounds t.year t.month in
    rw
      (
        is_digit_lem (t.day / 10) (omega arith),
        is_digit_lem (t.day % 10) (omega arith),
        is_digit_lem (t.month / 10) (omega arith),
        is_digit_lem (t.month % 10) (omega arith),
        is_digit_lem (t.year / 1000) (omega arith),
        is_digit_lem (t.year / 100 % 10) (omega arith),
        is_digit_lem (t.year / 10 % 10) (omega arith),
        is_digit_lem (t.year % 10) (omega arith),
      )
      (rw (value_two t.day, value_two t.month, value_four t.year) (check_date_lem t v))

a_date : parse_date (codes "29/02/2020") ≡ some (date 2020 2 29)
unfolding parse_date days_in
a_date = refl

no_date : parse_date (codes "29/02/2019") ≡ none
unfolding parse_date days_in
no_date = refl

a_stamp :
    format_rfc3339 (record { year = 2020; month = 3; day = 9; nanos = 3723000000005 })
    ≡ codes "2020-03-09T01:02:03Z"
unfolding format_rfc3339
a_stamp = refl
