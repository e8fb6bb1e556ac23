-- ===== src/Timeshift/Partition.antt =====
-- `PartitionInterval`: where its ranges begin and end.
use bondster_bco.Base.{true, ℕ, zero, suc, ◌<◌, ◌≡◌, refl, some, List, [], ◌∷◌, arith}
use bondster_bco.Calendar.{Time, IsValid, date, before, days_in, days_in_bounds}
use bondster_bco.Timeshift.{TimeRange, set_last_end, set_first_start, trim, partition_interval}
use bondster_bco.Timeshift.Months.{
  month_slices, months_until, year_after, month_after, before_months, slice_by_months-month_slices,
}

-- The ranges lead from `a`, in month `m` of year `y`, to `b`: each begins where the month does,
-- but for the first, and ends at the last midnight of the month, but for the last.
abbrev pub Leads : ℕ → ℕ → Time → List TimeRange → Time → Type 0
Leads y m a [] b = ⊥
Leads y m a (r ∷ []) b = (r.start_time ≡ a) × (r.end_time ≡ b)
Leads y m a (r ∷ q ∷ rest) b =
    (r.start_time ≡ a)
    × (r.end_time ≡ date y m (days_in y m))
    × Leads (year_after y m) (month_after m) (date (year_after y m) (month_after m) 1) (q ∷ rest) b

Leads-set_last_end :
    (y m k : ℕ) (e : Time) → Leads y m (date y m 1) (set_last_end e (month_slices y m (suc k))) e
unfolding set_last_end month_slices
Leads-set_last_end y m zero e = (refl, refl)
Leads-set_last_end y m (suc zero) e = (refl, refl, (refl, refl))
Leads-set_last_end y m (suc (suc k)) e =
    (refl, refl, Leads-set_last_end (year_after y m) (month_after m) (suc k) e)

Leads-set_first_start :
    (y m : ℕ) (a b s : Time) (ts : List TimeRange)
    → Leads y m a ts b
    → Leads y m s (set_first_start s ts) b
unfolding set_first_start
Leads-set_first_start y m a b s [] h = h
Leads-set_first_start y m a b s (r ∷ []) h = (refl, h.1)
Leads-set_first_start y m a b s (r ∷ q ∷ rest) h = (refl, h.1, h.2)

trim_lem :
    (s e : Time) (r : TimeRange) (rest : List TimeRange)
    → trim s e (r ∷ rest) ≡ set_first_start s (set_last_end e (r ∷ rest))
unfolding trim set_first_start set_last_end
trim_lem s e r [] = ground arith
trim_lem s e r (q ∷ rest) = ground arith

trim-Leads : (y m k : ℕ) (s e : Time) → 0 < k → Leads y m s (trim s e (month_slices y m k)) e
unfolding month_slices
trim-Leads y m zero s e h = elim h [ ]
trim-Leads y m (suc k) s e h =
    rw trim_lem (Leads-set_first_start y m (date y m 1) e s _ (Leads-set_last_end y m k e))

months_until_later :
    (s e : Time) → IsValid s → IsValid e → before s e ≡ true → 0 < months_until s.year s.month e
months_until_later s e v w h =
    ground
      (arith, days_in_bounds s.year s.month, v.day_pos, v.day_le, before_months s.year s.month e w)

-- The partition of an interval of valid dates, of which the first is before the second, is not
-- empty, and leads from the start date to the end date with no month left out.
pub partition_interval-Leads :
    (s e : Time)
    → IsValid s
    → IsValid e
    → before s e ≡ true
    → (ts : List TimeRange) × (partition_interval s e ≡ some ts) × Leads s.year s.month s ts e
unfolding partition_interval
partition_interval-Leads s e v w h = (
  trim s e (month_slices s.year s.month (months_until s.year s.month e)),
  rw (slice_by_months-month_slices s e v w),
  trim-Leads s.year s.month _ s e (months_until_later s e v w h),
)

months_until_own :
    (s e : Time)
    → s.year ≡ e.year
    → s.month ≡ e.month
    → IsValid e
    → before (date e.year e.month 1) e ≡ true
    → months_until s.year s.month e ≡ 1
months_until_own s e y m w h = ground (arith, w.day_pos)

-- Between valid dates of one month, where the end date is behind the first midnight of it, there is
-- one range, from the start date to the end date, also where the end date is the start date, or is
-- before it.
pub partition_interval_within :
    (s e : Time)
    → IsValid s
    → IsValid e
    → s.year ≡ e.year
    → s.month ≡ e.month
    → before (date e.year e.month 1) e ≡ true
    → partition_interval s e ≡ some (record { start_time = s; end_time = e } ∷ [])
unfolding partition_interval month_slices trim set_first_start set_last_end
partition_interval_within s e v w y m h =
    rw (slice_by_months-month_slices s e v w, months_until_own s e y m w h) refl
