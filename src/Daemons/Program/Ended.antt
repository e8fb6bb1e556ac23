-- ===== src/Daemons/Program/Ended.antt =====
-- What holds where the program has ended (support/concurrent/pool.go and boot/run.go of both
-- services).
use bondster_bco.Base.{ℕ, ◌≡◌, refl, Bool, true, false, List, [], ◌∷◌, ◌++◌, All, arith}
use bondster_bco.Daemons.{Kind, returned, finished, Daemon, new_daemon, Step, Event, asked}
use bondster_bco.Daemons.Kept.{
  Step-returned, Step-finished, Step-context, Event-returned, Event-finished,
}
use bondster_bco.Daemons.Channels.{Steady, new_daemon-Steady, Step-Steady, Event-Steady}
use bondster_bco.Daemons.Program.{
  Phase, serving, shutting_down, ended, Program, register, register_all, new_program, Member, Asks,
  Happens, Returned, Done, Runs, member, pool_closes, pool_ends, asks, leaves, Occurs, interrupt,
  happens, Execution, launched, runs, occurs,
}

-- A daemon of a program with this context, channel of the pool, and phase.
record Good (c b : Bool) (f : Phase) (s : Daemon) : Type 0 where
  steady : Steady c s
  back : b ≡ true → s.start ≡ returned
  over : f ≡ ended → s.once ≡ finished

Step-Good :
    {c b : Bool} {f : Phase} {s : Daemon} {d : Bool} {t : Daemon}
    → Good c b f s
    → Step c s d t
    → Good d b f t
Step-Good g p = record {
  steady = Step-Steady g.steady p;
  back = λ h. Step-returned p (g.back h);
  over = λ h. Step-finished p (g.over h);
}

Event-Good : {c b : Bool} {f : Phase} {s t : Daemon} → Good c b f s → Event s t → Good c b f t
Event-Good g p = record {
  steady = Event-Steady g.steady p;
  back = λ h. Event-returned p (g.back h);
  over = λ h. Event-finished p (g.over h);
}

-- What another daemon does to the context.
later-Good :
    (c d b : Bool) (f : Phase) (s : Daemon) → (c ≡ true → d ≡ true) → Good c b f s → Good d b f s
later-Good c d b f s up g = record {
  steady = record {
    cancels = g.steady.cancels;
    closes = g.steady.closes;
    works = g.steady.works;
    loops = g.steady.loops;
    cancelled = λ h. up (g.steady.cancelled h);
    still = g.steady.still;
  };
  back = g.back;
  over = g.over;
}

All-later-Good :
    (c d b : Bool) (f : Phase) (ds : List Daemon)
    → (c ≡ true → d ≡ true)
    → All (Good c b f) ds
    → All (Good d b f) ds
All-later-Good c d b f [] up g = tt
All-later-Good c d b f (s ∷ ds) up (gs, g) =
    (later-Good c d b f s up gs, All-later-Good c d b f ds up g)

Member-context : {c d : Bool} {ds es : List Daemon} → Member c d ds es → c ≡ true → d ≡ true
Member-context (Member.first p) h = Step-context p h
Member-context (Member.later p) h = Member-context p h

Member-Good :
    {c d : Bool} {ds es : List Daemon} (b : Bool) (f : Phase)
    → Member c d ds es
    → All (Good c b f) ds
    → All (Good d b f) es
Member-Good {c} {d} b f (Member.first {s} {t} {ds} p) g =
    (Step-Good g.0 p, All-later-Good c d b f ds (Step-context p) g.1)
Member-Good {c} {d} b f (Member.later {s} p) g =
    (later-Good c d b f s (Member-context p) g.0, Member-Good b f p g.1)

Asks-Good :
    {ds es : List Daemon} (c b : Bool) (f : Phase)
    → Asks ds es
    → All (Good c b f) ds
    → All (Good c b f) es
Asks-Good c b f (Asks.first e) g = (Event-Good g.0 (asked e), g.1)
Asks-Good c b f (Asks.later p) g = (g.0, Asks-Good c b f p g.1)

Happens-Good :
    {ds es : List Daemon} (c b : Bool) (f : Phase)
    → Happens ds es
    → All (Good c b f) ds
    → All (Good c b f) es
Happens-Good c b f (Happens.first p) g = (Event-Good g.0 p, g.1)
Happens-Good c b f (Happens.later p) g = (g.0, Happens-Good c b f p g.1)

-- A change of the pool's channel and of the phase.
changed-Good :
    (c b b' : Bool) (f f' : Phase) (ds : List Daemon)
    → All (Good c b f) ds
    → (b' ≡ true → All Returned ds)
    → (f' ≡ ended → All Done ds)
    → All (Good c b' f') ds
changed-Good c b b' f f' [] g r o = tt
changed-Good c b b' f f' (s ∷ ds) g r o = (
  record { steady = g.0.steady; back = λ h. (r h).0; over = λ h. (o h).0.1 },
  changed-Good c b b' f f' ds g.1 (λ h. (r h).1) (λ h. (o h).1),
)

Good-back :
    (c b : Bool) (f : Phase) (ds : List Daemon) → All (Good c b f) ds → b ≡ true → All Returned ds
Good-back c b f [] g h = tt
Good-back c b f (s ∷ ds) g h = (g.0.back h, Good-back c b f ds g.1 h)

record Sound (p : Program) : Type 0 where
  good : All (Good p.context_done p.pool_done p.phase) p.daemons
  closed : p.phase ≡ ended → p.pool_done ≡ true

Runs-Sound : {p q : Program} → Runs p q → Sound p → Sound q
Runs-Sound {p} (member m) s = record {
  good = Member-Good p.pool_done p.phase m s.good;
  closed = s.closed;
}
Runs-Sound {p} (pool_closes r e) s = record {
  good =
      changed-Good p.context_done p.pool_done true p.phase p.phase p.daemons s.good (λ _. r)
        (λ h. let k = s.closed h in cc);
  closed = λ _. refl;
}
Runs-Sound {p} (pool_ends e o k) s = record {
  good =
      changed-Good p.context_done p.pool_done p.pool_done p.phase shutting_down p.daemons s.good
        (Good-back p.context_done p.pool_done p.phase p.daemons s.good) (λ h. cc);
  closed = λ h. cc;
}
Runs-Sound {p} (asks e m) s = record {
  good = Asks-Good p.context_done p.pool_done p.phase m s.good;
  closed = s.closed;
}
Runs-Sound {p} (leaves e o k) s = record {
  good =
      changed-Good p.context_done p.pool_done p.pool_done p.phase ended p.daemons s.good
        (Good-back p.context_done p.pool_done p.phase p.daemons s.good) (λ _. o);
  closed = λ _. k;
}

Occurs-Sound : {p q : Program} → Occurs p q → Sound p → Sound q
Occurs-Sound {p} (interrupt e) s = record {
  good =
      changed-Good p.context_done p.pool_done p.pool_done p.phase shutting_down p.daemons s.good
        (Good-back p.context_done p.pool_done p.phase p.daemons s.good) (λ h. cc);
  closed = λ h. cc;
}
Occurs-Sound {p} (happens m) s = record {
  good = Happens-Good p.context_done p.pool_done p.phase m s.good;
  closed = s.closed;
}

new_daemon-Good : (k : Kind) → Good false false serving (new_daemon k)
new_daemon-Good k = record { steady = new_daemon-Steady false k; back = λ h. cc; over = λ h. cc }

registered-Good :
    (d : Daemon) (ds : List Daemon)
    → Good false false serving d
    → All (Good false false serving) ds
    → All (Good false false serving) (ds ++ d ∷ [])
registered-Good d [] g gs = (g, tt)
registered-Good d (s ∷ ds) g gs = (gs.0, registered-Good d ds g gs.1)

register_all-Good :
    (ks : List Kind) (ds : List Daemon)
    → All (Good false false serving) ds
    → All (Good false false serving) (register_all ks ds)
unfolding register_all register
register_all-Good [] ds g = g
register_all-Good (k ∷ ks) ds g =
    register_all-Good ks (ds ++ new_daemon k ∷ [])
      (registered-Good (new_daemon k) ds (new_daemon-Good k) g)

new_program-Sound : (ks : List Kind) → Sound (new_program ks)
unfolding new_program
new_program-Sound ks = record { good = register_all-Good ks [] tt; closed = λ h. cc }

Execution-Sound : {p : Program} {n m : ℕ} {q : Program} → Sound p → Execution p n m q → Sound q
Execution-Sound s launched = s
Execution-Sound s (runs x r) = Runs-Sound r (Execution-Sound s x)
Execution-Sound s (occurs x r) = Occurs-Sound r (Execution-Sound s x)

-- A daemon that is over: `Start` has returned, and its worker was cancelled and its channel closed
-- exactly once.
pub record Over (s : Daemon) : Type 0 where
  pub back : s.start ≡ returned
  pub cancels : s.cancels ≡ 1
  pub closes : s.closes ≡ 1

Good-Over :
    (c b : Bool) (f : Phase) (ds : List Daemon)
    → b ≡ true
    → f ≡ ended
    → All (Good c b f) ds
    → All Over ds
Good-Over c b f [] h e g = tt
Good-Over c b f (s ∷ ds) h e g =
    let o = g.0.over e in
    let x = g.0.steady.cancels in
    let y = g.0.steady.closes in
    (
      record { back = g.0.back h; cancels = ground arith; closes = ground arith },
      Good-Over c b f ds h e g.1,
    )

-- Where a program that was started with any daemons has ended, whatever its goroutines and the
-- outside did: every `Start` has returned, every worker was cancelled exactly once, and the channel
-- of every daemon was closed exactly once.
pub ended-Over :
    (ks : List Kind) {n m : ℕ} {q : Program}
    → Execution (new_program ks) n m q
    → q.phase ≡ ended
    → All Over q.daemons
ended-Over ks {n} {m} {q} x e =
    let s = Execution-Sound (new_program-Sound ks) x in
    Good-Over q.context_done q.pool_done q.phase q.daemons (s.closed e) e s.good
