-- ===== src/Daemons.antt =====
-- support/concurrent/oneshot.go and scheduled.go of both services: one daemon with the goroutines
-- around it, as a step relation.
--
-- A state is that of the goroutine of `Start`, of the `sync.Once` in `Stop`, which any goroutine may
-- enter, and of the channels. The parent's context, which daemons share, stands beside it.
pub mod Shutdown
pub mod Channels
pub mod Kept
pub mod Program
use bondster_bco.Base.{ℕ, zero, suc, ◌+◌, ◌≡◌, Bool, true, false}

pub data Kind : Type 0 where
  one_shot : Kind
  scheduled : Kind

-- Where the goroutine of `Start` stands. A scheduled daemon is `looping` while it waits for the
-- channel of its worker before the `select`, and `stopping` in its own call of `Stop`; a one-shot
-- daemon is `waiting` behind its work.
pub data Start : Type 0 where
  unstarted : Start
  looping : Start
  selecting : Start
  working : Start
  stopping : Start
  waiting : Start
  returned : Start

-- How far the function under `cancelOnce` is: the ticker is stopped, then the worker is cancelled,
-- then `done` is closed.
pub data Once : Type 0 where
  idle : Once
  entered : Once
  cancelled : Once
  finished : Once

pub record Daemon : Type 0 where
  pub kind : Kind
  pub start : Start
  pub once : Once
  -- whether a call of `Stop` was made, and whether the worker's own channel is closed
  pub stop_called : Bool
  pub worker_done : Bool
  -- the ticker, and whether a tick waits in its channel
  pub ticking : Bool
  pub tick : Bool
  -- how often `Work`, `Cancel` and `close(done)` were called
  pub works : ℕ
  pub cancels : ℕ
  pub closes : ℕ

is_scheduled : Kind → Bool
is_scheduled one_shot = false
is_scheduled scheduled = true

-- `NewOneShotDaemon` and `NewScheduledDaemon`
unfoldable pub new_daemon : Kind → Daemon
unfolding is_scheduled
new_daemon k = record {
  kind = k;
  start = unstarted;
  once = idle;
  stop_called = false;
  worker_done = false;
  ticking = is_scheduled k;
  tick = false;
  works = 0;
  cancels = 0;
  closes = 0;
}

-- `Stop`: the function that runs once.
pub data StopStep (s : Daemon) : Daemon → Type 0 where
  enter :
      s.stop_called ≡ true
      → s.once ≡ idle
      → StopStep s (record s { once = entered; ticking = false })
  cancel : s.once ≡ entered → StopStep s (record s { once = cancelled; cancels = suc s.cancels })
  close : s.once ≡ cancelled → StopStep s (record s { once = finished; closes = suc s.closes })

-- A step of the program, from and to a state of the context and of the daemon. `Start` cancels the
-- context when it returns, and a goroutine calls `Stop` when the context is done.
pub data Step (c : Bool) (s : Daemon) : Bool → Daemon → Type 0 where
  setup_fails : s.start ≡ unstarted → Step c s true (record s { start = returned })
  loop_starts : s.kind ≡ scheduled → s.start ≡ unstarted → Step c s c (record s { start = looping })
  work_starts :
      s.kind ≡ one_shot
      → s.start ≡ unstarted
      → Step c s c (record s { start = working; works = suc s.works })
  select_ : s.start ≡ looping → s.worker_done ≡ true → Step c s c (record s { start = selecting })
  take_tick :
      s.start ≡ selecting
      → s.tick ≡ true
      → Step c s c (record s { start = working; tick = false; works = suc s.works })
  take_context :
      s.start ≡ selecting
      → c ≡ true
      → Step c s c (record s { start = stopping; stop_called = true })
  take_done :
      s.start ≡ selecting → s.once ≡ finished → Step c s true (record s { start = returned })
  loop_again : s.kind ≡ scheduled → s.start ≡ working → Step c s c (record s { start = looping })
  work_ends : s.kind ≡ one_shot → s.start ≡ working → Step c s c (record s { start = waiting })
  stopped : s.start ≡ stopping → s.once ≡ finished → Step c s true (record s { start = returned })
  waited :
      s.start ≡ waiting
      → s.worker_done ≡ true
      → s.once ≡ finished
      → Step c s true (record s { start = returned })
  watched : c ≡ true → s.stop_called ≡ false → Step c s c (record s { stop_called = true })
  stop : {t : Daemon} → StopStep s t → Step c s c t

-- What happens without the daemon: a tick of the clock, the worker's own channel being closed, or a
-- call of `Stop` by another goroutine.
pub data Event (s : Daemon) : Daemon → Type 0 where
  ticks : s.ticking ≡ true → s.tick ≡ false → Event s (record s { tick = true })
  worker_ends : s.worker_done ≡ false → Event s (record s { worker_done = true })
  asked : s.stop_called ≡ false → Event s (record s { stop_called = true })

-- A run, with the number of its steps and that of its events; the context may be cancelled at any
-- time, which counts as an event.
pub data Run (c : Bool) (s : Daemon) : ℕ → ℕ → Bool → Daemon → Type 0 where
  here : Run c s 0 0 c s
  step :
      {n m : ℕ} {d e : Bool} {t u : Daemon} → Run c s n m d t → Step d t e u → Run c s (suc n) m e u
  event : {n m : ℕ} {d : Bool} {t u : Daemon} → Run c s n m d t → Event t u → Run c s n (suc m) d u
  context : {n m : ℕ} {d : Bool} {t : Daemon} → Run c s n m d t → Run c s n (suc m) true t
