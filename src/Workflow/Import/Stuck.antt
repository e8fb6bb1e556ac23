-- ===== src/Workflow/Import/Stuck.antt =====
-- What later runs of the workflow do for a token that knows both currencies.
use bondster_bco.Base.{ℕ, zero, suc, ◌≡◌, ap, ◌∙◌, Option, some, List, [], ◌∷◌}
use bondster_bco.Base.Text.{Bytes, codes}
use bondster_bco.Calendar.{Time}
use bondster_bco.Token.{get_last_synced_time, get_currencies}
use bondster_bco.Storage.{Storage}
use bondster_bco.Workflow.{Services, Codec, World, Quiet, Quiet-refl, Quiet-then}
use bondster_bco.Workflow.Accounts.{import_accounts_from_statements}
use bondster_bco.Workflow.Accounts.Quiet.{import_accounts_from_statements-Quiet}
use bondster_bco.Workflow.Booking.{import_transactions_from_statements}
use bondster_bco.Workflow.Booking.Quiet.{import_transactions_from_statements-Quiet}
use bondster_bco.Workflow.Import.{
  accounts_each, transactions_each, create_accounts, create_transactions,
  download_statements_synced, run_workflow,
}

module _ (s : Storage) (v : Services) (codec : Codec) (parse_rfc3339 : Bytes → Option Time)
    (tenant : Bytes) where
  accounts_each-Quiet :
      (cs : List Bytes) (w : World s v)
      → Quiet s v w (accounts_each s v codec parse_rfc3339 tenant cs w)
  unfolding accounts_each
  accounts_each-Quiet [] w = Quiet-refl s v w
  accounts_each-Quiet (c ∷ cs) w =
      let u = import_accounts_from_statements s v codec tenant c w in
      Quiet-then s v w u _ (import_accounts_from_statements-Quiet s v codec tenant c w)
        (accounts_each-Quiet cs u)

  transactions_each-Quiet :
      (cs : List Bytes) (w : World s v)
      → Quiet s v w (transactions_each s v codec parse_rfc3339 tenant cs w)
  unfolding transactions_each
  transactions_each-Quiet [] w = Quiet-refl s v w
  transactions_each-Quiet (c ∷ cs) w =
      let u = import_transactions_from_statements s v codec tenant c w in
      Quiet-then s v w u _ (import_transactions_from_statements-Quiet s v codec tenant c w)
        (transactions_each-Quiet cs u)

  later_stages-Quiet :
      (w : World s v)
      → Quiet s v w (
          create_transactions s v codec parse_rfc3339 tenant
            (create_accounts s v codec parse_rfc3339 tenant w))
  unfolding create_accounts create_transactions
  later_stages-Quiet w =
      let u = create_accounts s v codec parse_rfc3339 tenant w in
      Quiet-then s v w u _ (accounts_each-Quiet (get_currencies (some w.token)) w)
        (transactions_each-Quiet (get_currencies (some u.token)) u)

  -- The workflow, run again and again.
  abbrev pub runs : ℕ → World s v → World s v
  runs zero w = w
  runs (suc n) w = runs n (run_workflow s v codec parse_rfc3339 tenant w)

  -- Both currencies have a sync time.
  abbrev pub KnowsBoth : World s v → Type 0
  KnowsBoth w =
      ((czk : Time) × (get_last_synced_time (some w.token) (codes "CZK") ≡ some czk))
      × ((eur : Time) × (get_last_synced_time (some w.token) (codes "EUR") ≡ some eur))

  run_workflow-Quiet :
      (w : World s v) → KnowsBoth w → Quiet s v w (run_workflow s v codec parse_rfc3339 tenant w)
  unfolding run_workflow
  run_workflow-Quiet w ((czk, h), (eur, k)) =
      rw (download_statements_synced s v codec parse_rfc3339 tenant w h k) (later_stages-Quiet w)

  KnowsBoth-Quiet : (w u : World s v) → Quiet s v w u → KnowsBoth w → KnowsBoth u
  KnowsBoth-Quiet w u q ((czk, h), (eur, k)) = (
    (czk, ap (λ t. get_last_synced_time (some t) (codes "CZK")) q.token_same ∙ h),
    (eur, ap (λ t. get_last_synced_time (some t) (codes "EUR")) q.token_same ∙ k),
  )

  -- Once the token has a sync time for both CZK and EUR no run of the workflow, however many follow
  -- and whatever the services answer, downloads a statement or changes the token.
  pub runs-Quiet : (n : ℕ) (w : World s v) → KnowsBoth w → Quiet s v w (runs n w)
  runs-Quiet zero w h = Quiet-refl s v w
  runs-Quiet (suc n) w h =
      let u = run_workflow s v codec parse_rfc3339 tenant w in
      let q = run_workflow-Quiet w h in
      Quiet-then s v w u (runs n u) q (runs-Quiet n u (KnowsBoth-Quiet w u q h))
