-- ===== src/Workflow/Download/Latest.antt =====
-- The time that a batch reports.
use bondster_bco.Base.{
  ◌≤◌, ◌≡◌, refl, ◌⊎◌, inl, inr, List, [], ◌∷◌, arith, All, if_cases, if◌then◌else◌,
}
use bondster_bco.Base.Text.{Bytes}
use bondster_bco.Calendar.{Time, start_time, stamp, after}
use bondster_bco.Storage.{Storage}
use bondster_bco.Bondster.{Statement}
use bondster_bco.Workflow.{Services, Codec}
use bondster_bco.Workflow.Download.{latest}

-- The time is the value date of one of the statements.
abbrev pub DateOf : Time → List Statement → Type 0
DateOf t [] = ⊥
DateOf t (st ∷ sts) = (t ≡ st.value_date) ⊎ DateOf t sts

module _ (s : Storage) (v : Services) (codec : Codec) (currency : Bytes) where
  abbrev latest_of : Time → List Statement → Time
  latest_of = latest s v codec currency

  latest_ge : (t : Time) (sts : List Statement) → stamp t ≤ stamp (latest_of t sts)
  unfolding latest
  latest_ge t [] = omega arith
  latest_ge t (st ∷ sts) = ground (arith, latest_ge st.value_date sts, latest_ge t sts)

  latest_bound :
      (t : Time) (sts : List Statement)
      → All (λ st. stamp st.value_date ≤ stamp (latest_of t sts)) sts
  unfolding latest
  latest_bound t [] = tt
  latest_bound t (st ∷ sts) = (
    ground (arith, latest_ge st.value_date sts, latest_ge t sts),
    latest_bound (if after st.value_date t then st.value_date else t) sts,
  )

  latest-DateOf :
      (t : Time) (sts : List Statement) → (latest_of t sts ≡ t) ⊎ DateOf (latest_of t sts) sts
  unfolding latest
  latest-DateOf t [] = inl refl
  latest-DateOf t (st ∷ sts) =
      if_cases
        (λ u.
          (latest_of u sts ≡ t)
          ⊎ ((latest_of u sts ≡ st.value_date) ⊎ DateOf (latest_of u sts) sts))
        (after st.value_date t) st.value_date t (λ _. inr (latest-DateOf st.value_date sts))
        (λ _. elim (latest-DateOf t sts) [ inl e ↦ inl e | inr h ↦ inr (inr h) ])

  -- The time that a batch reports is not before the start of 2017 nor before the value date of any
  -- of its statements, and it is that start or one of these dates.
  pub latest_lem :
      (sts : List Statement)
      → (stamp start_time ≤ stamp (latest s v codec currency start_time sts))
        × All (λ st. stamp st.value_date ≤ stamp (latest s v codec currency start_time sts)) sts
        × ((latest s v codec currency start_time sts ≡ start_time)
            ⊎ DateOf (latest s v codec currency start_time sts) sts)
  latest_lem sts =
      (latest_ge start_time sts, latest_bound start_time sts, latest-DateOf start_time sts)
