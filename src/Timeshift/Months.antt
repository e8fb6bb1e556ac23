-- ===== src/Timeshift/Months.antt =====
-- `SliceByMonths` against the list of the calendar months of the interval.
use bondster_bco.Base.{
  ℕ, zero, suc, ◌+◌, ◌-◌, ◌*◌, ◌≤◌, ◌<◌, ◌≡◌, refl, some, List, [], ◌∷◌, arith, ltb, ◌==◌, ◌&&◌,
  ◌∙◌, ap, lt→ltb, if◌then◌else◌, true, false,
}
use bondster_bco.Calendar.{
  Time, IsValid, date, before, month_index, days_in, days_in_bounds, add_month, next_day, prev_day,
}
use bondster_bco.Timeshift.{TimeRange, slice_loop, slice_by_months}

-- One calendar month, from its first midnight to the midnight of its last day.
abbrev pub month_slice : ℕ → ℕ → TimeRange
month_slice y m = record { start_time = date y m 1; end_time = date y m (days_in y m) }

-- The month behind month `m` of year `y`.
abbrev pub year_after : ℕ → ℕ → ℕ
year_after y m = if m == 12 then y + 1 else y

abbrev pub month_after : ℕ → ℕ
month_after m = if m == 12 then 1 else m + 1

-- `k` calendar months in a row.
unfoldable pub month_slices : ℕ → ℕ → ℕ → List TimeRange
month_slices y m zero = []
month_slices y m (suc k) = month_slice y m ∷ month_slices (year_after y m) (month_after m) k

-- How many months from month `m` of year `y` on begin before `end_date`.
abbrev pub months_until : ℕ → ℕ → Time → ℕ
months_until y m end_date =
    month_index end_date
    + (if end_date.day == 1 && end_date.nanos == 0 then 0 else 1)
    - (y * 12 + m)

-- The two `AddDate`s of a round reach the last day of the month, the third the next month.
last_day : (y m : ℕ) → 1 ≤ m → m ≤ 12 → prev_day (add_month (date y m 1)) ≡ date y m (days_in y m)
unfolding prev_day add_month
last_day y m h k = ground (arith, days_in_bounds y (m + 1), days_in_bounds (y + 1) (m + 1 - 12))

first_day :
    (y m : ℕ)
    → 1 ≤ m
    → m ≤ 12
    → next_day (date y m (days_in y m)) ≡ date (year_after y m) (month_after m) 1
unfolding next_day
first_day y m h k = ground arith

pub before_months :
    (y m : ℕ) (e : Time) → IsValid e → before (date y m 1) e ≡ ltb 0 (months_until y m e)
before_months y m e v = ground (arith, days_in_bounds e.year e.month)

months_until_suc :
    (y m : ℕ) (e : Time)
    → 1 ≤ m
    → m ≤ 12
    → months_until (year_after y m) (month_after m) e ≡ months_until y m e - 1
months_until_suc y m e h k = ground arith

slice_stop : (fuel : ℕ) (c e : Time) → before c e ≡ false → slice_loop (suc fuel) c e ≡ some []
unfolding slice_loop
slice_stop fuel c e h = rw (h, slice_loop)

slice_more :
    (fuel y m : ℕ) (e : Time) (rest : List TimeRange)
    → 1 ≤ m
    → m ≤ 12
    → before (date y m 1) e ≡ true
    → slice_loop fuel (date (year_after y m) (month_after m) 1) e ≡ some rest
    → slice_loop (suc fuel) (date y m 1) e ≡ some (month_slice y m ∷ rest)
unfolding slice_loop
slice_more fuel y m e rest h l b r =
    rw (b, slice_loop) (rw (last_day y m h l, first_day y m h l, r))

-- Enough fuel gives the calendar months in a row.
slice_loop-month_slices :
    (fuel y m k : ℕ) (e : Time)
    → IsValid e
    → 1 ≤ m
    → m ≤ 12
    → months_until y m e ≡ k
    → k < fuel
    → slice_loop fuel (date y m 1) e ≡ some (month_slices y m k)
unfolding month_slices
slice_loop-month_slices zero y m k e v h l eq lt = absurd (omega arith)
slice_loop-month_slices (suc fuel) y m zero e v h l eq lt =
    slice_stop fuel (date y m 1) e (before_months y m e v ∙ ap (ltb 0) eq)
slice_loop-month_slices (suc fuel) y m (suc k) e v h l eq lt =
    slice_more fuel y m e _ h l (before_months y m e v ∙ lt→ltb 0 _ (omega arith)) (
      slice_loop-month_slices fuel (year_after y m) (month_after m) k e v (ground arith)
        (ground arith) (months_until_suc y m e h l ∙ omega arith) (omega arith))

-- Between valid dates `SliceByMonths` ends, and gives the calendar months that begin before the
-- end date, in order and with none left out, from the month of the start date on.
pub slice_by_months-month_slices :
    (s e : Time)
    → IsValid s
    → IsValid e
    → slice_by_months s e ≡ some (month_slices s.year s.month (months_until s.year s.month e))
unfolding slice_by_months
slice_by_months-month_slices s e v w =
    slice_loop-month_slices (month_index e + 2) s.year s.month _ e w v.month_pos v.month_le refl
      (ground arith)
