-- ===== src/Daemons/Kept.antt =====
-- What no step takes back (support/concurrent/oneshot.go and scheduled.go).
use bondster_bco.Base.{◌≡◌, refl, Bool, true}
use bondster_bco.Daemons.{
  returned, finished, Daemon, enter, cancel, close, Step, setup_fails, loop_starts, work_starts,
  select_, take_tick, take_context, take_done, loop_again, work_ends, stopped, waited, watched,
  stop, Event, ticks, worker_ends, asked,
}

pub Step-returned :
    {c : Bool} {s : Daemon} {d : Bool} {t : Daemon}
    → Step c s d t
    → s.start ≡ returned
    → t.start ≡ returned
Step-returned (setup_fails e) h = refl
Step-returned (loop_starts k e) h = cc
Step-returned (work_starts k e) h = cc
Step-returned (select_ e w) h = cc
Step-returned (take_tick e w) h = cc
Step-returned (take_context e w) h = cc
Step-returned (take_done e w) h = refl
Step-returned (loop_again k e) h = cc
Step-returned (work_ends k e) h = cc
Step-returned (stopped e w) h = refl
Step-returned (waited e w o) h = refl
Step-returned (watched w e) h = h
Step-returned (stop (enter called e)) h = h
Step-returned (stop (cancel e)) h = h
Step-returned (stop (close e)) h = h

pub Step-finished :
    {c : Bool} {s : Daemon} {d : Bool} {t : Daemon}
    → Step c s d t
    → s.once ≡ finished
    → t.once ≡ finished
Step-finished (setup_fails e) h = h
Step-finished (loop_starts k e) h = h
Step-finished (work_starts k e) h = h
Step-finished (select_ e w) h = h
Step-finished (take_tick e w) h = h
Step-finished (take_context e w) h = h
Step-finished (take_done e w) h = h
Step-finished (loop_again k e) h = h
Step-finished (work_ends k e) h = h
Step-finished (stopped e w) h = h
Step-finished (waited e w o) h = h
Step-finished (watched w e) h = h
Step-finished (stop (enter called e)) h = cc
Step-finished (stop (cancel e)) h = cc
Step-finished (stop (close e)) h = refl

-- The context is never taken back.
pub Step-context :
    {c : Bool} {s : Daemon} {d : Bool} {t : Daemon} → Step c s d t → c ≡ true → d ≡ true
Step-context (setup_fails e) h = refl
Step-context (loop_starts k e) h = h
Step-context (work_starts k e) h = h
Step-context (select_ e w) h = h
Step-context (take_tick e w) h = h
Step-context (take_context e w) h = h
Step-context (take_done e w) h = refl
Step-context (loop_again k e) h = h
Step-context (work_ends k e) h = h
Step-context (stopped e w) h = refl
Step-context (waited e w o) h = refl
Step-context (watched w e) h = h
Step-context (stop p) h = h

pub Event-returned : {s t : Daemon} → Event s t → s.start ≡ returned → t.start ≡ returned
Event-returned (ticks on e) h = h
Event-returned (worker_ends e) h = h
Event-returned (asked e) h = h

pub Event-finished : {s t : Daemon} → Event s t → s.once ≡ finished → t.once ≡ finished
Event-finished (ticks on e) h = h
Event-finished (worker_ends e) h = h
Event-finished (asked e) h = h
