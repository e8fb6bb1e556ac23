-- ===== src/Daemons/Program.antt =====
-- support/concurrent/pool.go with boot/init.go and boot/run.go of both services: the pool of a
-- program's daemons, from the start of the program to its end.
pub mod Stops
pub mod Ended
pub mod Reaches
pub mod Notices
use bondster_bco.Base.{ℕ, zero, suc, ◌≡◌, Bool, true, false, List, [], ◌∷◌, ◌++◌, All}
use bondster_bco.Daemons.{
  Kind, one_shot, scheduled, returned, finished, Daemon, new_daemon, Step, Event,
}

-- Where `Program.Start` stands: in its `select`, behind it, or at its end.
pub data Phase : Type 0 where
  serving : Phase
  shutting_down : Phase
  ended : Phase

-- `pool_done` tells whether the pool's channel is closed.
pub record Program : Type 0 where
  pub phase : Phase
  pub context_done : Bool
  pub daemons : List Daemon
  pub pool_done : Bool

-- `DaemonPool.Register`
unfoldable pub register : Daemon → List Daemon → List Daemon
register d ds = ds ++ d ∷ []

unfoldable pub register_all : List Kind → List Daemon → List Daemon
unfolding register
register_all [] ds = ds
register_all (k ∷ ks) ds = register_all ks (register (new_daemon k) ds)

unfoldable pub new_program : List Kind → Program
unfolding register_all
new_program ks = record {
  phase = serving;
  context_done = false;
  daemons = register_all ks [];
  pool_done = false;
}

-- `Program.Setup` of the import service: the actors, the metrics and the import.
abbrev pub import_daemons : List Kind
import_daemons = one_shot ∷ scheduled ∷ scheduled ∷ []

-- `Program.Setup` of the REST service: the actors, the monitors of disk and memory, and the server.
abbrev pub rest_daemons : List Kind
rest_daemons = one_shot ∷ scheduled ∷ scheduled ∷ one_shot ∷ []

-- One daemon of the pool takes a step.
pub data Member (c : Bool) (d : Bool) : List Daemon → List Daemon → Type 0 where
  first : {s t : Daemon} {ds : List Daemon} → Step c s d t → Member c d (s ∷ ds) (t ∷ ds)
  later : {s : Daemon} {ds es : List Daemon} → Member c d ds es → Member c d (s ∷ ds) (s ∷ es)

-- One daemon is asked to stop by the goroutine that `DaemonPool.Stop` starts for it.
pub data Asks : List Daemon → List Daemon → Type 0 where
  first :
      {s : Daemon} {ds : List Daemon}
      → s.stop_called ≡ false
      → Asks (s ∷ ds) (record s { stop_called = true } ∷ ds)
  later : {s : Daemon} {ds es : List Daemon} → Asks ds es → Asks (s ∷ ds) (s ∷ es)

-- What happens to one daemon from outside.
pub data Happens : List Daemon → List Daemon → Type 0 where
  first : {s t : Daemon} {ds : List Daemon} → Event s t → Happens (s ∷ ds) (t ∷ ds)
  later : {s : Daemon} {ds es : List Daemon} → Happens ds es → Happens (s ∷ ds) (s ∷ es)

abbrev pub Returned : Daemon → Type 0
Returned s = s.start ≡ returned

-- What `Daemon.Done` waits for.
abbrev pub Done : Daemon → Type 0
Done s = (s.worker_done ≡ true) × (s.once ≡ finished)

-- A step of the program: of a daemon, of `DaemonPool.Start`, which closes the pool's channel behind
-- the last `Start`, or of `Program.Start`, whose `select` ends when the pool is done, which asks every
-- daemon to stop, and which then waits for the pool.
pub data Runs (p : Program) : Program → Type 0 where
  member :
      {d : Bool} {ds : List Daemon}
      → Member p.context_done d p.daemons ds
      → Runs p (record p { context_done = d; daemons = ds })
  pool_closes :
      All Returned p.daemons → p.pool_done ≡ false → Runs p (record p { pool_done = true })
  pool_ends :
      p.phase ≡ serving
      → All Done p.daemons
      → p.pool_done ≡ true
      → Runs p (record p { phase = shutting_down })
  asks :
      {ds : List Daemon}
      → p.phase ≡ shutting_down
      → Asks p.daemons ds
      → Runs p (record p { daemons = ds })
  leaves :
      p.phase ≡ shutting_down
      → All Done p.daemons
      → p.pool_done ≡ true
      → Runs p (record p { phase = ended })

-- What happens from outside: a signal, or an event at a daemon.
pub data Occurs (p : Program) : Program → Type 0 where
  interrupt : p.phase ≡ serving → Occurs p (record p { phase = shutting_down })
  happens : {ds : List Daemon} → Happens p.daemons ds → Occurs p (record p { daemons = ds })

-- A run, with the number of its steps and that of what happened from outside.
pub data Execution (p : Program) : ℕ → ℕ → Program → Type 0 where
  launched : Execution p 0 0 p
  runs : {n m : ℕ} {q r : Program} → Execution p n m q → Runs q r → Execution p (suc n) m r
  occurs : {n m : ℕ} {q r : Program} → Execution p n m q → Occurs q r → Execution p n (suc m) r
