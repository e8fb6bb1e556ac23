-- ===== src/Timeshift.antt =====
-- services/bondster-bco-import/support/timeshift/utils.go
pub mod Months
pub mod Partition
use bondster_bco.Base.{
  ℕ, zero, suc, ◌+◌, ◌*◌, Bool, ◌&&◌, true, false, Option, none, some, List, [], ◌∷◌, ◌==◌, ◌>>=◌,
  length, if◌then◌else◌,
}
use bondster_bco.Calendar.{Time, date, before, month_index, stamp, add_month, next_day, prev_day}

pub record TimeRange : Type 0 where
  pub start_time : Time
  pub end_time : Time

-- The loop of `SliceByMonths`; `none` means that the fuel ran out.
pub slice_loop : ℕ → Time → Time → Option (List TimeRange)
slice_loop zero current end_date = none
slice_loop (suc fuel) current end_date = elim (before current end_date) [
  | false ↦ some []
  | true ↦
      let last = prev_day (add_month current) in
      let slice : TimeRange = record {
        start_time = date current.year current.month 1;
        end_time = date last.year last.month last.day;
      } in
      slice_loop fuel (next_day last) end_date >>= λ dates. some (slice ∷ dates)
]

-- One round for each month up to that of the end date, and one more to see the end.
unfoldable pub slice_by_months : Time → Time → Option (List TimeRange)
unfolding slice_loop
slice_by_months start_date end_date =
    slice_loop (month_index end_date + 2) (date start_date.year start_date.month 1) end_date

-- `timeline[len(timeline)-1].EndTime = t`
pub set_last_end : Time → List TimeRange → List TimeRange
set_last_end t [] = []
set_last_end t (r ∷ []) = record r { end_time = t } ∷ []
set_last_end t (r ∷ q ∷ rest) = r ∷ set_last_end t (q ∷ rest)

-- `timeline[0].StartTime = t`
pub set_first_start : Time → List TimeRange → List TimeRange
set_first_start t [] = []
set_first_start t (r ∷ rest) = record r { start_time = t } ∷ rest

same_ends : List TimeRange → Bool
same_ends [] = false
same_ends (r ∷ rest) = stamp r.start_time == stamp r.end_time

-- The body of `PartitionInterval` behind the call of `SliceByMonths`.
pub trim : Time → Time → List TimeRange → List TimeRange
unfolding set_last_end set_first_start same_ends
trim start_date end_date timeline =
    if length timeline == 0
    then timeline
    else (let t = set_first_start start_date (set_last_end end_date timeline) in
        if length t == 0 && same_ends t then [] else t)

unfoldable pub partition_interval : Time → Time → Option (List TimeRange)
unfolding slice_by_months trim
partition_interval start_date end_date =
    slice_by_months start_date end_date >>= λ timeline. some (trim start_date end_date timeline)
