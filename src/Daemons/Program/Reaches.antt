-- ===== src/Daemons/Program/Reaches.antt =====
-- That a program that is told to stop ends (support/concurrent/pool.go and boot/run.go of both
-- services).
use bondster_bco.Base.{
  ◌*◌, ◌<◌, length, ℕ, zero, suc, ◌+◌, ◌≤◌, ◌≡◌, refl, ◌≢◌, ◌⊎◌, inl, inr, Bool, true, List, All,
  arith,
}
use bondster_bco.Daemons.{
  Kind, Daemon, enter, cancel, close, Step, setup_fails, loop_starts, work_starts, select_,
  take_tick, take_context, take_done, loop_again, work_ends, stopped, waited, watched, stop,
}
use bondster_bco.Daemons.Kept.{Step-context}
use bondster_bco.Daemons.Program.{
  Phase, serving, shutting_down, ended, Program, new_program, Member, Asks, Runs, member,
  pool_closes, pool_ends, asks, leaves, Execution, launched, runs,
}
use bondster_bco.Daemons.Program.Stops.{
  Settled, ProgramMoves, program_left, Runs-left, context-Told, shut_down, Told-moves,
  Execution-left, new_program-left,
}

Step-Settled :
    {c : Bool} {s : Daemon} {d : Bool} {t : Daemon} → Step c s d t → Settled s → Settled t
Step-Settled (setup_fails e) h = h
Step-Settled (loop_starts k e) h = h
Step-Settled (work_starts k e) h = h
Step-Settled (select_ e w) h = h
Step-Settled (take_tick e w) h = h
Step-Settled (take_context e w) h = h
Step-Settled (take_done e w) h = h
Step-Settled (loop_again k e) h = h
Step-Settled (work_ends k e) h = h
Step-Settled (stopped e w) h = h
Step-Settled (waited e w o) h = h
Step-Settled (watched w e) h = h
Step-Settled (stop (enter called e)) h = h
Step-Settled (stop (cancel e)) h = h
Step-Settled (stop (close e)) h = h

Member-Settled :
    {c d : Bool} {ds es : List Daemon} → Member c d ds es → All Settled ds → All Settled es
Member-Settled (Member.first p) h = (Step-Settled p h.0, h.1)
Member-Settled (Member.later p) h = (h.0, Member-Settled p h.1)

Asks-Settled : {ds es : List Daemon} → Asks ds es → All Settled ds → All Settled es
Asks-Settled (Asks.first e) h = h
Asks-Settled (Asks.later p) h = (h.0, Asks-Settled p h.1)

Runs-Settled : {p q : Program} → Runs p q → All Settled p.daemons → All Settled q.daemons
Runs-Settled (member m) h = Member-Settled m h
Runs-Settled (pool_closes r e) h = h
Runs-Settled (pool_ends e o k) h = h
Runs-Settled (asks e m) h = Asks-Settled m h
Runs-Settled (leaves e o k) h = h

Member-context : {c d : Bool} {ds es : List Daemon} → Member c d ds es → c ≡ true → d ≡ true
Member-context (Member.first p) h = Step-context p h
Member-context (Member.later p) h = Member-context p h

-- The program is told to stop, or is over.
abbrev Told : Program → Type 0
Told p = (p.context_done ≡ true) ⊎ ((p.phase ≡ shutting_down) ⊎ (p.phase ≡ ended))

Runs-Told : {p q : Program} → Runs p q → Told p → Told q
Runs-Told (member m) (inl c) = inl (Member-context m c)
Runs-Told (member m) (inr e) = inr e
Runs-Told (pool_closes r k) h = h
Runs-Told (pool_ends e o k) h = inr (inl refl)
Runs-Told (asks e m) h = h
Runs-Told (leaves e o k) h = inr (inr refl)

-- A run in the order of its steps.
first_then : {p q r : Program} {n : ℕ} → Runs p q → Execution q n 0 r → Execution p (suc n) 0 r
first_then move launched = runs launched move
first_then move (runs x m) = runs (first_then move x) m

moves : (p : Program) → Told p → p.phase ≢ ended → All Settled p.daemons → ProgramMoves p
moves p (inl c) ne h = Told-moves p ne (context-Told p.context_done p.daemons c) h
moves p (inr (inl e)) ne h = shut_down p e h
moves p (inr (inr e)) ne h = absurd (ne e)

is_ended : (f : Phase) → (f ≡ ended) ⊎ (f ≢ ended)
is_ended ended = inl refl
is_ended serving = inr (λ h. cc)
is_ended shutting_down = inr (λ h. cc)

asked-Told : (p : Program) → (p.context_done ≡ true) ⊎ (p.phase ≡ shutting_down) → Told p
asked-Told p (inl c) = inl c
asked-Told p (inr e) = inr (inl e)

-- The rest of the run, after one step.
step_reaches :
    (n : ℕ) (p : Program)
    → ((q : Program)
        → program_left q ≤ n
        → Told q
        → All Settled q.daemons
        → (m : ℕ) × (r : Program) × Execution q m 0 r × (r.phase ≡ ended))
    → program_left p ≤ suc n
    → Told p
    → All Settled p.daemons
    → ProgramMoves p
    → (m : ℕ) × (r : Program) × Execution p m 0 r × (r.phase ≡ ended)
step_reaches n p rest le told h (q, move) =
    let (m, r, x, e) =
      rest q (omega (arith, le, Runs-left move)) (Runs-Told move told) (Runs-Settled move h) in
    (suc m, r, first_then move x, e)

reaches :
    (fuel : ℕ) (p : Program)
    → program_left p ≤ fuel
    → Told p
    → All Settled p.daemons
    → (n : ℕ) × (q : Program) × Execution p n 0 q × (q.phase ≡ ended)
reaches zero p le told h = elim (is_ended p.phase) [
  | inl e ↦ (0, p, launched, e)
  | inr ne ↦ let (q, move) = moves p told ne h in absurd (omega (arith, le, Runs-left move))
]
reaches (suc n) p le told h = elim (is_ended p.phase) [
  | inl e ↦ (0, p, launched, e)
  | inr ne ↦ step_reaches n p (reaches n) le told h (moves p told ne h)
]

-- A program of so many daemons that is shutting down, or whose context is done, and whose workers
-- have closed their own channels, has always a step to take before it ends; before it ends its
-- steps, in whatever order its goroutines take them, are fewer than nine for each daemon, three for
-- each thing that happened from outside (a tick, a call or a signal), and three; and steps of
-- its own, with nothing further from outside, bring it to its end.
pub program_stops :
    (ks : List Kind) {n m : ℕ} {q : Program}
    → Execution (new_program ks) n m q
    → (q.context_done ≡ true) ⊎ (q.phase ≡ shutting_down)
    → q.phase ≢ ended
    → All Settled q.daemons
    → (n < 9 * length ks + 3 * m + 3)
      × (((r : Program) × Runs q r)
          × ((k : ℕ) × (r : Program) × Execution q k 0 r × (r.phase ≡ ended)))
program_stops ks {n} {m} {q} x told ne w =
    let (r, move) : ProgramMoves q = moves q (asked-Told q told) ne w in
    (
      omega (arith, Execution-left x, Runs-left move, new_program-left ks),
      ((r, move), reaches (program_left q) q (omega arith) (asked-Told q told) w),
    )
