-- ===== src/Calendar/Rfc3339.antt =====
-- `time.Parse(time.RFC3339, s)` of Go's package `time`, in UTC.
--
-- A text of twenty bytes with digits and separators in their places and `Z` behind them is read
-- here; what the package does with any other text, which may have a fraction or an offset, is the
-- parameter `others`.
use bondster_bco.Base.{
  ℕ, ◌+◌, ◌-◌, ◌*◌, ◌/◌, ◌%◌, ◌<◌, ◌≡◌, refl, Bool, true, ◌&&◌, Option, none, some, [], ◌∷◌, ◌>>=◌,
  arith, ltb, leb, ◌==◌, if◌then◌else◌,
}
use bondster_bco.Base.Text.{Bytes}
use bondster_bco.Calendar.{
  Time, second_nanos, days_in, days_in_bounds, IsValid, two_digits, four_digits, format_rfc3339,
  is_digit,
}

record Clock : Type 0 where
  century : ℕ
  year : ℕ
  month : ℕ
  day : ℕ
  hour : ℕ
  minute : ℕ
  second : ℕ

pair : ℕ → ℕ → Option ℕ
unfolding is_digit
pair a b = if is_digit a && is_digit b then some ((a - b'0') * 10 + (b - b'0')) else none

sign : ℕ → ℕ → Option {0} Unit
sign c d = if c == d then some tt else none

clock_of : Bytes → Option Clock
unfolding pair sign
clock_of (a ∷ b ∷ c ∷ d ∷ e ∷ f ∷ g ∷ h ∷ i ∷ j ∷ k ∷ l ∷ m ∷ n ∷ o ∷ p ∷ q ∷ r ∷ s ∷ z ∷ []) = do
  century ← pair a b
  year ← pair c d
  _ ← sign e b'-'
  month ← pair f g
  _ ← sign h b'-'
  day ← pair i j
  _ ← sign k b'T'
  hour ← pair l m
  _ ← sign n b':'
  minute ← pair o p
  _ ← sign q b':'
  second ← pair r s
  _ ← sign z b'Z'
  some (record {
    century = century;
    year = year;
    month = month;
    day = day;
    hour = hour;
    minute = minute;
    second = second;
  })
clock_of _ = none

in_range : Clock → Bool
in_range c =
    leb 1 c.month
    && leb c.month 12
    && (leb 1 c.day && leb c.day (days_in (c.century * 100 + c.year) c.month))
    && (ltb c.hour 24 && (ltb c.minute 60 && ltb c.second 60))

time_of : Clock → Time
time_of c = record {
  year = c.century * 100 + c.year;
  month = c.month;
  day = c.day;
  nanos = (c.hour * 3600 + c.minute * 60 + c.second) * second_nanos;
}

checked : Clock → Option Time
unfolding in_range time_of
checked c = if in_range c then some (time_of c) else none

unfoldable pub parse_rfc3339 : (Bytes → Option Time) → Bytes → Option Time
unfolding clock_of checked
parse_rfc3339 others s = elim (clock_of s) [ none ↦ others s | some c ↦ checked c ]

-- The time without its fraction of a second.
abbrev pub whole_second : Time → Time
whole_second t = record t { nanos = t.nanos / second_nanos * second_nanos }

-- Two digits of a number below one hundred.
pair_lem : (a b n : ℕ) → a ≡ b'0' + n / 10 → b ≡ b'0' + n % 10 → n < 100 → pair a b ≡ some n
unfolding pair is_digit
pair_lem a b n h k lt = ground arith

clock : Time → Clock
clock t = record {
  century = t.year / 100;
  year = t.year % 100;
  month = t.month;
  day = t.day;
  hour = t.nanos / second_nanos / 3600;
  minute = t.nanos / second_nanos / 60 % 60;
  second = t.nanos / second_nanos % 60;
}

clock_of-format_rfc3339 : (t : Time) → IsValid t → clock_of (format_rfc3339 t) ≡ some (clock t)
unfolding clock_of format_rfc3339 two_digits four_digits clock
clock_of-format_rfc3339 t v =
    let y = v.year_lt in
    let m = v.month_le in
    let d = days_in_bounds t.year t.month in
    let e = v.day_le in
    let n = v.nanos_lt in
    let q = t.nanos / second_nanos in
    rw
      (
        pair_lem (b'0' + t.year / 1000) (b'0' + t.year / 100 % 10) (t.year / 100) (omega arith)
            (omega arith) (omega arith),
        pair_lem (b'0' + t.year / 10 % 10) (b'0' + t.year % 10) (t.year % 100) (omega arith)
            (omega arith) (omega arith),
        pair_lem (b'0' + t.month / 10) (b'0' + t.month % 10) t.month refl refl (omega arith),
        pair_lem (b'0' + t.day / 10) (b'0' + t.day % 10) t.day refl refl (omega arith),
        pair_lem (b'0' + q / 3600 / 10) (b'0' + q / 3600 % 10) (q / 3600) refl refl (omega arith),
        pair_lem (b'0' + q / 60 % 60 / 10) (b'0' + q / 60 % 60 % 10) (q / 60 % 60) refl refl
            (omega arith),
        pair_lem (b'0' + q % 60 / 10) (b'0' + q % 60 % 10) (q % 60) refl refl (omega arith),
      )
      refl

whole_year : (y : ℕ) → y / 100 * 100 + y % 100 ≡ y
whole_year y = omega arith

whole_day : (q : ℕ) → q / 3600 * 3600 + q / 60 % 60 * 60 + q % 60 ≡ q
whole_day q = omega arith

in_range-clock : (t : Time) → IsValid t → in_range (clock t) ≡ true
unfolding in_range clock
in_range-clock t v =
    let hour : t.nanos / second_nanos / 3600 < 24 = let n = v.nanos_lt in omega arith in
    rw (whole_year t.year) (ground arith)

checked-clock : (t : Time) → IsValid t → checked (clock t) ≡ some (whole_second t)
unfolding checked clock time_of
checked-clock t v =
    rw (in_range-clock t v, whole_year t.year, whole_day (t.nanos / second_nanos)) refl

-- A valid time as it is printed is read back without its fraction of a second.
pub parse_rfc3339-format_rfc3339 :
    (others : Bytes → Option Time) (t : Time)
    → IsValid t
    → parse_rfc3339 others (format_rfc3339 t) ≡ some (whole_second t)
unfolding parse_rfc3339
parse_rfc3339-format_rfc3339 others t v =
    ground (arith, clock_of-format_rfc3339 t v, checked-clock t v)
