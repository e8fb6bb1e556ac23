-- ===== src/Daemons/Program/Notices.antt =====
-- What `Program.Start` tells systemd (boot/run.go of both services, with support/host/health.go).
use bondster_bco.Base.{append-nil, ℕ, ◌≡◌, refl, ap, ◌∙◌, Bool, Option, List, [], ◌∷◌, ◌++◌}
use bondster_bco.Base.Text.{Bytes}
use bondster_bco.Host.{Datagram, notify_service_ready, notify_service_stopping}
use bondster_bco.Daemons.{Kind}
use bondster_bco.Daemons.Program.{
  Phase, serving, shutting_down, ended, Program, new_program, Runs, member, pool_closes, pool_ends,
  asks, leaves, Occurs, interrupt, happens, Execution, launched, runs, occurs,
}

module _ (dials : Bytes → Bool) (writes : Bytes → Bytes → Bool) (socket : Bytes) where
  abbrev Notices : Type 0
  Notices = List (Option Datagram)

  abbrev pub ready : Option Datagram
  ready = notify_service_ready dials writes socket

  abbrev pub stopping : Option Datagram
  stopping = notify_service_stopping dials writes socket

  -- The call behind the `select`, whichever of its channels ended it.
  unfoldable pub runs_notice : {p q : Program} → Runs p q → Notices
  runs_notice (member m) = []
  runs_notice (pool_closes r e) = []
  runs_notice (pool_ends e o k) = stopping ∷ []
  runs_notice (asks e m) = []
  runs_notice (leaves e o k) = []

  unfoldable pub occurs_notice : {p q : Program} → Occurs p q → Notices
  occurs_notice (interrupt e) = stopping ∷ []
  occurs_notice (happens m) = []

  -- The notices of a run, in their order; the first is given before the `select`.
  unfoldable pub notices : {p : Program} {n m : ℕ} {q : Program} → Execution p n m q → Notices
  notices launched = ready ∷ []
  notices (runs x r) = notices x ++ runs_notice r
  notices (occurs x r) = notices x ++ occurs_notice r

  -- What has been told where a run has come to.
  abbrev pub told : Phase → Notices
  told serving = ready ∷ []
  told shutting_down = ready ∷ stopping ∷ []
  told ended = ready ∷ stopping ∷ []

  then_told : {p q : Program} (r : Runs p q) → told p.phase ++ runs_notice r ≡ told q.phase
  unfolding runs_notice
  then_told {p} (member m) = append-nil (told p.phase)
  then_told {p} (pool_closes r e) = append-nil (told p.phase)
  then_told (pool_ends e o k) = rw e refl
  then_told {p} (asks e m) = append-nil (told p.phase)
  then_told (leaves e o k) = rw e refl

  then_told_more : {p q : Program} (r : Occurs p q) → told p.phase ++ occurs_notice r ≡ told q.phase
  unfolding occurs_notice
  then_told_more (interrupt e) = rw e refl
  then_told_more {p} (happens m) = append-nil (told p.phase)

  -- However the goroutines of a program and the outside take turns, systemd is told that the
  -- service is ready first, that it is stopping as soon as the program shuts down, each once, and
  -- nothing else.
  pub notices-told :
      (ks : List Kind) {n m : ℕ} {q : Program} (x : Execution (new_program ks) n m q)
      → notices x ≡ told q.phase
  unfolding notices new_program
  notices-told ks launched = refl
  notices-told ks (runs x r) = ap (λ t. t ++ runs_notice r) (notices-told ks x) ∙ then_told r
  notices-told ks (occurs x r) =
      ap (λ t. t ++ occurs_notice r) (notices-told ks x) ∙ then_told_more r
