-- ===== src/Tests/Daemons.antt =====
-- Runs of daemons and programs.
use bondster_bco.Base.{ℕ, ◌≡◌, ◌+◌, ◌*◌, ◌≤◌, ◌<◌, refl, inr, true, false, [], ◌∷◌, All}
use bondster_bco.Daemons.{
  one_shot, scheduled, selecting, working, returned, idle, finished, Daemon, new_daemon, enter,
  cancel, close, loop_starts, work_starts, select_, take_tick, work_ends, waited, stop, ticks,
  worker_ends, asked, Run, here, step, event,
}
use bondster_bco.Daemons.Channels.{new_daemon-Once, works_once_more}
use bondster_bco.Daemons.Program.{
  shutting_down, ended, Program, register_all, new_program, Member, Asks, Happens, Runs, member,
  pool_closes, asks, leaves, interrupt, happens, Execution, launched, runs, occurs,
}
use bondster_bco.Daemons.Program.Reaches.{program_stops}
use bondster_bco.Daemons.Program.Ended.{Over, ended-Over}

-- A scheduled daemon whose `Stop` has run while a tick waited.
abbrev late : Daemon
late = record {
  kind = scheduled;
  start = selecting;
  once = finished;
  stop_called = true;
  worker_done = true;
  ticking = false;
  tick = true;
  works = 0;
  cancels = 1;
  closes = 1;
}

late_run : Run false (new_daemon scheduled) 5 3 false late
unfolding new_daemon
late_run =
    step
      (step
        (step
          (event
            (event
              (step (event (step here (loop_starts refl refl)) (worker_ends refl))
                (select_ refl refl))
              (ticks refl refl))
            (asked refl))
          (stop (enter refl refl)))
        (stop (cancel refl)))
      (stop (close refl))

new_daemon-Once_example : (late.closes ≤ late.cancels) × (late.cancels ≤ 1)
new_daemon-Once_example = new_daemon-Once scheduled late_run

-- It works once more.
late_work : Run false late 1 0 false (record late { start = working; tick = false; works = 1 })
late_work = step here (take_tick refl refl)

works_once_more_example : ◌≤◌ 1 (late.works + 1)
works_once_more_example = works_once_more late_run refl late_work

abbrev interrupted : Program
interrupted = record {
  phase = shutting_down;
  context_done = false;
  daemons =
      record {
        kind = one_shot;
        start = working;
        once = idle;
        stop_called = false;
        worker_done = true;
        ticking = false;
        tick = false;
        works = 1;
        cancels = 0;
        closes = 0;
      }
      ∷ [];
  pool_done = false;
}

interrupted_run : Execution (new_program (one_shot ∷ [])) 1 2 interrupted
unfolding new_program register_all new_daemon
interrupted_run =
    occurs
      (occurs (runs launched (member (Member.first (work_starts refl refl))))
        (happens (Happens.first (worker_ends refl))))
      (interrupt refl)

program_stops_example :
    (1 < 9 * 1 + 3 * 2 + 3)
    × (((r : Program) × Runs interrupted r)
        × ((k : ℕ) × (r : Program) × Execution interrupted k 0 r × (r.phase ≡ ended)))
program_stops_example =
    program_stops (one_shot ∷ []) interrupted_run (inr refl) (λ h. cc) (refl, tt)

abbrev over_daemon : Daemon
over_daemon = record {
  kind = one_shot;
  start = returned;
  once = finished;
  stop_called = true;
  worker_done = true;
  ticking = false;
  tick = false;
  works = 1;
  cancels = 1;
  closes = 1;
}

abbrev ended_program : Program
ended_program = record {
  phase = ended;
  context_done = true;
  daemons = over_daemon ∷ [];
  pool_done = true;
}

ended_run : Execution (new_program (one_shot ∷ [])) 9 2 ended_program
unfolding new_program register_all new_daemon
ended_run =
    runs
      (runs
        (runs
          (runs
            (runs
              (runs
                (runs (runs interrupted_run (member (Member.first (work_ends refl refl))))
                  (asks refl (Asks.first refl)))
                (member (Member.first (stop (enter refl refl)))))
              (member (Member.first (stop (cancel refl)))))
            (member (Member.first (stop (close refl)))))
          (member (Member.first (waited refl refl refl))))
        (pool_closes (refl, tt) refl))
      (leaves refl ((refl, refl), tt) refl)

ended-Over_example : All Over (over_daemon ∷ [])
ended-Over_example = ended-Over (one_shot ∷ []) ended_run refl
