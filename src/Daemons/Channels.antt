-- ===== src/Daemons/Channels.antt =====
-- What happens once: the channels and the worker of a daemon
-- (support/concurrent/oneshot.go and scheduled.go).
use bondster_bco.Base.{ℕ, ◌+◌, ◌≤◌, ◌≡◌, refl, ap, ◌∙◌, ◌≢◌, Bool, true, false, arith}
use bondster_bco.Daemons.{
  Kind, one_shot, scheduled, Start, unstarted, looping, selecting, returned, Once, idle, entered,
  cancelled, finished, Daemon, new_daemon, StopStep, enter, cancel, close, Step, setup_fails,
  loop_starts, work_starts, select_, take_tick, take_context, take_done, loop_again, work_ends,
  stopped, waited, watched, stop, Event, ticks, worker_ends, asked, Run, here, step, event, context,
}

-- How often the worker was cancelled and the channel closed, by how far `Stop` is.
abbrev pub cancelled_at : Once → ℕ
cancelled_at idle = 0
cancelled_at entered = 0
cancelled_at cancelled = 1
cancelled_at finished = 1

abbrev pub closed_at : Once → ℕ
closed_at finished = 1
closed_at _ = 0

abbrev pub worked_at : Start → ℕ
worked_at unstarted = 0
worked_at _ = 1

abbrev pub returned_at : Start → Bool
returned_at returned = true
returned_at _ = false

abbrev pub loops_at : Start → Bool
loops_at looping = true
loops_at selecting = true
loops_at _ = false

pub record Steady (c : Bool) (s : Daemon) : Type 0 where
  pub cancels : s.cancels ≡ cancelled_at s.once
  pub closes : s.closes ≡ closed_at s.once
  pub works : s.kind ≡ one_shot → s.works ≤ worked_at s.start
  pub loops : loops_at s.start ≡ true → s.kind ≡ scheduled
  pub cancelled : returned_at s.start ≡ true → c ≡ true
  pub still : s.once ≢ idle → s.ticking ≡ false

pub new_daemon-Steady : (c : Bool) (k : Kind) → Steady c (new_daemon k)
unfolding new_daemon
new_daemon-Steady c k = record {
  cancels = refl;
  closes = refl;
  works = λ _. omega arith;
  loops = λ h. cc;
  cancelled = λ h. cc;
  still = λ h. absurd (h refl);
}

pub StopStep-Steady : {c : Bool} {s t : Daemon} → Steady c s → StopStep s t → Steady c t
StopStep-Steady h (enter called e) = ground arith
StopStep-Steady h (cancel e) = ground arith
StopStep-Steady h (close e) = ground arith

pub Step-Steady :
    {c : Bool} {s : Daemon} {d : Bool} {t : Daemon} → Steady c s → Step c s d t → Steady d t
Step-Steady h (setup_fails e) = ground arith
Step-Steady h (loop_starts k e) = ground arith
Step-Steady h (work_starts k e) = ground arith
Step-Steady h (select_ e w) = ground arith
Step-Steady h (take_tick e w) = ground arith
Step-Steady h (take_context e w) = ground arith
Step-Steady h (take_done e w) = ground arith
Step-Steady h (loop_again k e) = ground arith
Step-Steady h (work_ends k e) = ground arith
Step-Steady h (stopped e w) = ground arith
Step-Steady h (waited e w o) = ground arith
Step-Steady h (watched w e) = ground arith
Step-Steady h (stop p) = StopStep-Steady h p

pub Event-Steady : {c : Bool} {s t : Daemon} → Steady c s → Event s t → Steady c t
Event-Steady h (ticks on e) = ground arith
Event-Steady h (worker_ends e) = ground arith
Event-Steady h (asked e) = ground arith

context-Steady : {c : Bool} {s : Daemon} → Steady c s → Steady true s
context-Steady h = record {
  cancels = h.cancels;
  closes = h.closes;
  works = h.works;
  loops = h.loops;
  cancelled = λ _. refl;
  still = h.still;
}

pub Run-Steady :
    {c : Bool} {s : Daemon} {n m : ℕ} {d : Bool} {t : Daemon}
    → Steady c s
    → Run c s n m d t
    → Steady d t
Run-Steady h here = h
Run-Steady h (step r p) = Step-Steady (Run-Steady h r) p
Run-Steady h (event r p) = Event-Steady (Run-Steady h r) p
Run-Steady h (context r) = context-Steady (Run-Steady h r)

Step-kind : {c : Bool} {s : Daemon} {d : Bool} {t : Daemon} → Step c s d t → t.kind ≡ s.kind
Step-kind (setup_fails e) = refl
Step-kind (loop_starts k e) = refl
Step-kind (work_starts k e) = refl
Step-kind (select_ e w) = refl
Step-kind (take_tick e w) = refl
Step-kind (take_context e w) = refl
Step-kind (take_done e w) = refl
Step-kind (loop_again k e) = refl
Step-kind (work_ends k e) = refl
Step-kind (stopped e w) = refl
Step-kind (waited e w o) = refl
Step-kind (watched w e) = refl
Step-kind (stop (enter called e)) = refl
Step-kind (stop (cancel e)) = refl
Step-kind (stop (close e)) = refl

Event-kind : {s t : Daemon} → Event s t → t.kind ≡ s.kind
Event-kind (ticks on e) = refl
Event-kind (worker_ends e) = refl
Event-kind (asked e) = refl

Run-kind :
    {c : Bool} {s : Daemon} {n m : ℕ} {d : Bool} {t : Daemon} → Run c s n m d t → t.kind ≡ s.kind
Run-kind here = refl
Run-kind (step r p) = Step-kind p ∙ Run-kind r
Run-kind (event r p) = Event-kind p ∙ Run-kind r
Run-kind (context r) = Run-kind r

new_daemon-kind : (k : Kind) → (new_daemon k).kind ≡ k
unfolding new_daemon
new_daemon-kind k = refl

works_le : {n : ℕ} (at : Start) → n ≤ worked_at at → n ≤ 1
works_le at h = ground arith

-- Once `Start` has returned, the context that all daemons share is cancelled.
pub returned_context :
    {c : Bool} (k : Kind) {n m : ℕ} {d : Bool} {t : Daemon}
    → Run c (new_daemon k) n m d t
    → t.start ≡ returned
    → d ≡ true
returned_context {c} k r e = (Run-Steady (new_daemon-Steady c k) r).cancelled (ap returned_at e)

-- The work of a one-shot daemon is started at most once.
pub one_shot_once :
    {c : Bool} {n m : ℕ} {d : Bool} {t : Daemon} → Run c (new_daemon one_shot) n m d t → t.works ≤ 1
one_shot_once {c} {n} {m} {d} {t} r =
    let h = Run-Steady (new_daemon-Steady c one_shot) r in
    works_le t.start (h.works (Run-kind r ∙ new_daemon-kind one_shot))

-- However the goroutines around a new daemon, the clock and the context take turns, `done` is closed
-- at most once, and only after the worker was cancelled, which happens at most once too.
pub new_daemon-Once :
    {c : Bool} (k : Kind) {n m : ℕ} {d : Bool} {t : Daemon}
    → Run c (new_daemon k) n m d t
    → (t.closes ≤ t.cancels) × (t.cancels ≤ 1)
new_daemon-Once {c} k r =
    let h = Run-Steady (new_daemon-Steady c k) r in (ground arith, ground arith)

tick_at : Bool → ℕ
tick_at true = 1
tick_at false = 0

-- A scheduled daemon behind the end of `Stop`, for which so many calls of `Work` are left.
record Over (b : ℕ) (s : Daemon) : Type 0 where
  over : s.once ≡ finished
  still : s.ticking ≡ false
  kind : s.kind ≡ scheduled
  bound : s.works + tick_at s.tick ≤ b

Step-Over :
    {b : ℕ} {c : Bool} {s : Daemon} {d : Bool} {t : Daemon} → Over b s → Step c s d t → Over b t
unfolding tick_at
Step-Over h (setup_fails e) = ground arith
Step-Over h (loop_starts k e) = ground arith
Step-Over h (work_starts k e) = ground arith
Step-Over h (select_ e w) = ground arith
Step-Over h (take_tick e w) = ground arith
Step-Over h (take_context e w) = ground arith
Step-Over h (take_done e w) = ground arith
Step-Over h (loop_again k e) = ground arith
Step-Over h (work_ends k e) = ground arith
Step-Over h (stopped e w) = ground arith
Step-Over h (waited e w o) = ground arith
Step-Over h (watched w e) = ground arith
Step-Over h (stop (enter called e)) = ground arith
Step-Over h (stop (cancel e)) = ground arith
Step-Over h (stop (close e)) = ground arith

Event-Over : {b : ℕ} {s t : Daemon} → Over b s → Event s t → Over b t
unfolding tick_at
Event-Over h (ticks on e) = ground arith
Event-Over h (worker_ends e) = ground arith
Event-Over h (asked e) = ground arith

Run-Over :
    {b : ℕ} {c : Bool} {s : Daemon} {n m : ℕ} {d : Bool} {t : Daemon}
    → Over b s
    → Run c s n m d t
    → Over b t
Run-Over h here = h
Run-Over h (step r p) = Step-Over (Run-Over h r) p
Run-Over h (event r p) = Event-Over (Run-Over h r) p
Run-Over h (context r) = Run-Over h r

-- Of a scheduled daemon that a run has brought to where `done` is closed, `Work` is called at most
-- once more from there on, whatever happens.
pub works_once_more :
    {c : Bool} {n m i j : ℕ} {d e : Bool} {s t : Daemon}
    → Run c (new_daemon scheduled) n m d s
    → s.closes ≡ 1
    → Run d s i j e t
    → t.works ≤ s.works + 1
unfolding tick_at
works_once_more {c} {n} {m} {i} {j} {d} {e} {s} {t} r h q =
    let steady = Run-Steady (new_daemon-Steady c scheduled) r in
    let closed : s.once ≡ finished = ground arith in
    let over : Over (s.works + tick_at s.tick) s = record {
      over = closed;
      still = steady.still (λ z. cc);
      kind = Run-kind r ∙ new_daemon-kind scheduled;
      bound = omega arith;
    } in
    let o = Run-Over over q in ground arith
