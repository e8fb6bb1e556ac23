-- ===== src/Daemons/Program/Stops.antt =====
-- The steps that are left to a program (support/concurrent/pool.go and boot/run.go of both
-- services).
use bondster_bco.Base.{
  ℕ, suc, ◌+◌, ◌*◌, ◌≤◌, ◌≡◌, refl, ◌≢◌, ◌⊎◌, inl, inr, Bool, true, false, ◌||◌, List, [], ◌∷◌,
  ◌++◌, length, All, arith, Bool-cases,
}
use bondster_bco.Daemons.{Kind, Daemon, new_daemon}
use bondster_bco.Daemons.Shutdown.{steps_left, Step-steps_left, Event-steps_left, Moves, progress}
use bondster_bco.Daemons.Program.{
  Phase, serving, shutting_down, ended, Program, register, register_all, new_program, Member, Asks,
  Happens, Returned, Done, Runs, member, pool_closes, pool_ends, asks, leaves, Occurs, interrupt,
  happens, Execution, launched, runs, occurs,
}

unfoldable all_left : List Daemon → ℕ
all_left [] = 0
all_left (s ∷ ds) = steps_left s + all_left ds

abbrev pool_left : Bool → ℕ
pool_left true = 0
pool_left false = 1

abbrev phase_left : Phase → ℕ
phase_left serving = 2
phase_left shutting_down = 1
phase_left ended = 0

-- The most steps that the program can take if nothing happens from outside.
pub program_left : Program → ℕ
program_left p = all_left p.daemons + pool_left p.pool_done + phase_left p.phase

Member-left :
    {c d : Bool} {ds es : List Daemon} → Member c d ds es → suc (all_left es) ≤ all_left ds
unfolding all_left
Member-left (Member.first p) = omega (arith, Step-steps_left p)
Member-left (Member.later p) = omega (arith, Member-left p)

Asks-left : {ds es : List Daemon} → Asks ds es → suc (all_left es) ≤ all_left ds
unfolding all_left steps_left
Asks-left (Asks.first e) = ground arith
Asks-left (Asks.later p) = omega (arith, Asks-left p)

Happens-left : {ds es : List Daemon} → Happens ds es → all_left es ≤ all_left ds + 3
unfolding all_left
Happens-left (Happens.first p) = omega (arith, Event-steps_left p)
Happens-left (Happens.later p) = omega (arith, Happens-left p)

pub Runs-left : {p q : Program} → Runs p q → suc (program_left q) ≤ program_left p
unfolding program_left
Runs-left (member m) = omega (arith, Member-left m)
Runs-left (pool_closes r e) = ground arith
Runs-left (pool_ends e r o) = ground arith
Runs-left (asks e m) = omega (arith, Asks-left m)
Runs-left (leaves e r o) = ground arith

Occurs-left : {p q : Program} → Occurs p q → program_left q ≤ program_left p + 3
unfolding program_left
Occurs-left (interrupt e) = ground arith
Occurs-left (happens m) = omega (arith, Happens-left m)

pub Execution-left :
    {p : Program} {n m : ℕ} {q : Program}
    → Execution p n m q
    → n + program_left q ≤ program_left p + 3 * m
Execution-left launched = omega arith
Execution-left (runs x r) = omega (arith, Execution-left x, Runs-left r)
Execution-left (occurs x r) = omega (arith, Execution-left x, Occurs-left r)

abbrev pub Told : Bool → Daemon → Type 0
Told c s = (c || s.stop_called) ≡ true

abbrev pub Settled : Daemon → Type 0
Settled s = s.worker_done ≡ true

abbrev MembersMove : Bool → List Daemon → Type 0
MembersMove c ds = (d : Bool) × (es : List Daemon) × Member c d ds es

moved : {c : Bool} {s : Daemon} (ds : List Daemon) → Moves c s → MembersMove c (s ∷ ds)
moved ds (d, t, p) = (d, t ∷ ds, Member.first p)

moved_later : {c : Bool} (s : Daemon) {ds : List Daemon} → MembersMove c ds → MembersMove c (s ∷ ds)
moved_later s (d, es, p) = (d, s ∷ es, Member.later p)

-- Of daemons that are all told to stop one can take a step, or all are over.
members :
    (c : Bool) (ds : List Daemon)
    → All (Told c) ds
    → All Settled ds
    → MembersMove c ds ⊎ (All Returned ds × All Done ds)
members c [] h w = inr (tt, tt)
members c (s ∷ ds) (hs, h) (ws, w) = elim (progress c s hs ws) [
  | inl m ↦ inl (moved ds m)
  | inr (r, o) ↦ elim (members c ds h w) [
    | inl m ↦ inl (moved_later s m)
    | inr (rs, os) ↦ inr ((r, rs), ((ws, o), os))
  ]
]

-- One daemon can still be asked to stop, or all were.
to_ask : (ds : List Daemon) → ((es : List Daemon) × Asks ds es) ⊎ All (λ s. s.stop_called ≡ true) ds
to_ask [] = inr tt
to_ask (s ∷ ds) = elim (Bool-cases s.stop_called) [
  | inr e ↦ inl (_, Asks.first e)
  | inl e ↦ elim (to_ask ds) [ inl (es, a) ↦ inl (s ∷ es, Asks.later a) | inr h ↦ inr (e, h) ]
]

pub context-Told : (c : Bool) (ds : List Daemon) → c ≡ true → All (Told c) ds
context-Told c [] h = tt
context-Told c (s ∷ ds) h = (rw h refl, context-Told c ds h)

call-Told : (c : Bool) (ds : List Daemon) → All (λ s. s.stop_called ≡ true) ds → All (Told c) ds
call-Told c [] h = tt
call-Told c (s ∷ ds) (e, h) = (ground (arith, Bool-cases c), call-Told c ds h)

abbrev pub ProgramMoves : Program → Type 0
ProgramMoves p = (q : Program) × Runs p q

over :
    (p : Program) (at : Phase) (closed : Bool)
    → p.phase ≡ at
    → p.pool_done ≡ closed
    → at ≢ ended
    → All Returned p.daemons
    → All Done p.daemons
    → ProgramMoves p
over p at false e k ne r o = (_, pool_closes r k)
over p serving true e k ne r o = (_, pool_ends e o k)
over p shutting_down true e k ne r o = (_, leaves e o k)
over p ended true e k ne r o = absurd (ne refl)

pub Told-moves :
    (p : Program)
    → p.phase ≢ ended
    → All (Told p.context_done) p.daemons
    → All Settled p.daemons
    → ProgramMoves p
Told-moves p ne h w = elim (members p.context_done p.daemons h w) [
  | inl (d, es, m) ↦ (_, member m)
  | inr (r, o) ↦ over p p.phase p.pool_done refl refl ne r o
]

pub shut_down : (p : Program) → p.phase ≡ shutting_down → All Settled p.daemons → ProgramMoves p
shut_down p e w = elim (to_ask p.daemons) [
  | inl (es, a) ↦ (_, asks e a)
  | inr h ↦ Told-moves p (λ k. cc) (call-Told p.context_done p.daemons h) w
]

new_daemon-steps_left : (k : Kind) → steps_left (new_daemon k) ≡ 9
unfolding steps_left new_daemon
new_daemon-steps_left k = refl

all_left-append :
    (s : Daemon) (ds : List Daemon) → all_left (ds ++ s ∷ []) ≡ all_left ds + steps_left s
unfolding all_left
all_left-append s [] = omega arith
all_left-append s (t ∷ ds) = omega (arith, all_left-append s ds)

register_all-left :
    (ks : List Kind) (ds : List Daemon)
    → all_left (register_all ks ds) ≡ 9 * length ks + all_left ds
unfolding register_all register
register_all-left [] ds = omega arith
register_all-left (k ∷ ks) ds = omega (
  arith,
  register_all-left ks (ds ++ new_daemon k ∷ []),
  all_left-append (new_daemon k) ds,
  new_daemon-steps_left k,
)

pub new_program-left : (ks : List Kind) → program_left (new_program ks) ≡ 9 * length ks + 3
unfolding program_left new_program all_left
new_program-left ks = omega (arith, register_all-left ks [])
