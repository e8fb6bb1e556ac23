-- ===== src/Workflow/Booking/Goroutine/Places.antt =====
-- What holds of the places that a goroutine comes to.
use bondster_bco.Base.{ℕ, ◌≡◌, refl, Bool, true, false, Option, none, some, List, All}
use bondster_bco.Base.Text.{Bytes, Lacks}
use bondster_bco.Bondster.{Statement}
use bondster_bco.Workflow.Booking.Goroutine.{
  Place, starting, rounds, reading, sending, counting, marking, over, listed, tested, decoded,
  answered,
}
use bondster_bco.Workflow.Booking.Goroutine.View.{is_starting}

-- The names ahead have no slash.
abbrev pub Proper : Place → Type 0
Proper starting = Unit
Proper (rounds ids) = All (Lacks b'/') ids
Proper (reading id ids) = Lacks b'/' id × All (Lacks b'/') ids
Proper (sending id st ids) = Lacks b'/' id × All (Lacks b'/') ids
Proper (counting id ids) = Lacks b'/' id × All (Lacks b'/') ids
Proper (marking id ids) = Lacks b'/' id × All (Lacks b'/') ids
Proper over = Unit

-- What is added to a counter of the metrics.
abbrev pub added : Place → ℕ
added (counting id ids) = 1
added _ = 0

pub tested-Proper :
    (id : Bytes) (ids : List Bytes) (o : Option Bool)
    → Lacks b'/' id × All (Lacks b'/') ids
    → Proper (tested id ids o)
unfolding tested
tested-Proper id ids none h = h.1
tested-Proper id ids (some true) h = h.1
tested-Proper id ids (some false) h = h

pub decoded-Proper :
    (id : Bytes) (ids : List Bytes) (o : Option Statement)
    → Lacks b'/' id × All (Lacks b'/') ids
    → Proper (decoded id ids o)
unfolding decoded
decoded-Proper id ids none h = h.1
decoded-Proper id ids (some st) h = h

pub answered-Proper :
    (id : Bytes) (ids : List Bytes) (b : Bool)
    → Lacks b'/' id × All (Lacks b'/') ids
    → Proper (answered id ids b)
unfolding answered
answered-Proper id ids true h = h
answered-Proper id ids false h = h.1

pub listed-begun : (o : Option (List Bytes)) → is_starting (listed o) ≡ false
unfolding listed is_starting
listed-begun none = refl
listed-begun (some ids) = refl

pub tested-begun :
    (id : Bytes) (ids : List Bytes) (o : Option Bool) → is_starting (tested id ids o) ≡ false
unfolding tested is_starting
tested-begun id ids none = refl
tested-begun id ids (some true) = refl
tested-begun id ids (some false) = refl

pub decoded-begun :
    (id : Bytes) (ids : List Bytes) (o : Option Statement) → is_starting (decoded id ids o) ≡ false
unfolding decoded is_starting
decoded-begun id ids none = refl
decoded-begun id ids (some st) = refl

pub answered-begun :
    (id : Bytes) (ids : List Bytes) (b : Bool) → is_starting (answered id ids b) ≡ false
unfolding answered is_starting
answered-begun id ids true = refl
answered-begun id ids false = refl
