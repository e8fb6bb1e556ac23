-- ===== src/Daemons/Shutdown.antt =====
-- That `Start` returns once a daemon is told to stop (support/concurrent/oneshot.go and scheduled.go).
use bondster_bco.Base.{
  ℕ, suc, ◌+◌, ◌*◌, ◌≤◌, ◌≡◌, refl, ◌⊎◌, inl, inr, Bool, true, false, ◌||◌, arith,
}
use bondster_bco.Daemons.{
  Kind, one_shot, scheduled, Start, unstarted, looping, selecting, working, stopping, waiting,
  returned, Once, idle, entered, cancelled, finished, Daemon, StopStep, enter, cancel, close, Step,
  setup_fails, loop_starts, work_starts, select_, take_tick, take_context, take_done, loop_again,
  work_ends, stopped, waited, watched, stop, Event, ticks, worker_ends, asked, Run, here, step,
  event, context,
}

abbrev start_left : Start → ℕ
start_left unstarted = 5
start_left looping = 3
start_left selecting = 2
start_left working = 4
start_left stopping = 1
start_left waiting = 1
start_left returned = 0

abbrev once_left : Once → ℕ
once_left idle = 3
once_left entered = 2
once_left cancelled = 1
once_left finished = 0

abbrev tick_left : Bool → ℕ
tick_left true = 3
tick_left false = 0

abbrev call_left : Bool → ℕ
call_left true = 0
call_left false = 1

-- The most steps that a daemon can take if no tick arrives.
unfoldable pub steps_left : Daemon → ℕ
steps_left s = start_left s.start + once_left s.once + tick_left s.tick + call_left s.stop_called

pub StopStep-steps_left : {s t : Daemon} → StopStep s t → suc (steps_left t) ≤ steps_left s
unfolding steps_left
StopStep-steps_left (enter called e) = ground arith
StopStep-steps_left (cancel e) = ground arith
StopStep-steps_left (close e) = ground arith

pub Step-steps_left : {c d : Bool} {s t : Daemon} → Step c s d t → suc (steps_left t) ≤ steps_left s
unfolding steps_left
Step-steps_left (setup_fails e) = ground arith
Step-steps_left (loop_starts k e) = ground arith
Step-steps_left (work_starts k e) = ground arith
Step-steps_left (select_ e w) = ground arith
Step-steps_left (take_tick e w) = ground arith
Step-steps_left (take_context e w) = ground arith
Step-steps_left (take_done e w) = ground arith
Step-steps_left (loop_again k e) = ground arith
Step-steps_left (work_ends k e) = ground arith
Step-steps_left (stopped e w) = ground arith
Step-steps_left (waited e w o) = ground arith
Step-steps_left (watched w e) = ground arith
Step-steps_left (stop p) = StopStep-steps_left p

pub Event-steps_left : {s t : Daemon} → Event s t → steps_left t ≤ steps_left s + 3
unfolding steps_left
Event-steps_left (ticks on e) = ground arith
Event-steps_left (worker_ends e) = ground arith
Event-steps_left (asked e) = ground arith

-- However a daemon, the clock and other goroutines take turns, the number of the steps that it takes
-- is bounded by what it had left and three steps for each event.
pub Run-steps_left :
    {c : Bool} {s : Daemon} {n m : ℕ} {d : Bool} {t : Daemon}
    → Run c s n m d t
    → n + steps_left t ≤ steps_left s + 3 * m
Run-steps_left here = omega arith
Run-steps_left (step r p) = omega (arith, Run-steps_left r, Step-steps_left p)
Run-steps_left (event r p) = omega (arith, Run-steps_left r, Event-steps_left p)
Run-steps_left (context r) = omega (arith, Run-steps_left r)

-- A step that is possible.
abbrev pub Moves : Bool → Daemon → Type 0
Moves c s = (d : Bool) × (t : Daemon) × Step c s d t

-- The next step of `Stop`, or that it is over.
stopping_on :
    (c : Bool) (s : Daemon) (o : Once)
    → s.once ≡ o
    → s.stop_called ≡ true
    → Moves c s ⊎ (s.once ≡ finished)
stopping_on c s idle e h = inl (c, _, stop (enter h e))
stopping_on c s entered e h = inl (c, _, stop (cancel e))
stopping_on c s cancelled e h = inl (c, _, stop (close e))
stopping_on c s finished e h = inr e

-- `Stop` is called if the context is done, and then goes on to its end.
stop_on :
    (c : Bool) (s : Daemon) (called : Bool)
    → s.stop_called ≡ called
    → (c || called) ≡ true
    → Moves c s ⊎ (s.once ≡ finished)
stop_on c s true e h = stopping_on c s s.once refl e
stop_on true s false e h = inl (true, _, watched refl e)
stop_on false s false e h = cc

-- Behind the end of `Stop`, the step that waits for it.
after_stop :
    {c : Bool} {s : Daemon}
    → Moves c s ⊎ (s.once ≡ finished)
    → (s.once ≡ finished → Moves c s)
    → Moves c s
after_stop (inl m) f = m
after_stop (inr e) f = f e

start_on : (c : Bool) (s : Daemon) (k : Kind) → s.kind ≡ k → s.start ≡ unstarted → Moves c s
start_on c s one_shot k e = (c, _, work_starts k e)
start_on c s scheduled k e = (c, _, loop_starts k e)

work_on : (c : Bool) (s : Daemon) (k : Kind) → s.kind ≡ k → s.start ≡ working → Moves c s
work_on c s one_shot k e = (c, _, work_ends k e)
work_on c s scheduled k e = (c, _, loop_again k e)

go_on :
    (c : Bool) (s : Daemon) (at : Start)
    → s.start ≡ at
    → (c || s.stop_called) ≡ true
    → s.worker_done ≡ true
    → Moves c s ⊎ ((s.start ≡ returned) × (s.once ≡ finished))
go_on c s unstarted e h w = inl (start_on c s s.kind refl e)
go_on c s looping e h w = inl (c, _, select_ e w)
go_on c s selecting e h w =
    inl (after_stop (stop_on c s s.stop_called refl h) (λ o. (true, _, take_done e o)))
go_on c s working e h w = inl (work_on c s s.kind refl e)
go_on c s stopping e h w =
    inl (after_stop (stop_on c s s.stop_called refl h) (λ o. (true, _, stopped e o)))
go_on c s waiting e h w =
    inl (after_stop (stop_on c s s.stop_called refl h) (λ o. (true, _, waited e w o)))
go_on c s returned e h w = elim (stop_on c s s.stop_called refl h) [
  | inl m ↦ inl m
  | inr o ↦ inr (e, o)
]

-- A daemon that is told to stop, whose worker's channel is closed, has a step to take, or `Start`
-- has returned and `done` is closed.
pub progress :
    (c : Bool) (s : Daemon)
    → (c || s.stop_called) ≡ true
    → s.worker_done ≡ true
    → Moves c s ⊎ ((s.start ≡ returned) × (s.once ≡ finished))
progress c s h w = go_on c s s.start refl h w
