-- ===== src/Workflow/Booking/Goroutine/View.antt =====
-- What one goroutine of `CreateTransactions` reads of the world, and its steps on that alone.
use bondster_bco.Base.{Bool, true, false, none, [], ◌∷◌}
use bondster_bco.Base.Text.{Bytes, codes}
use bondster_bco.Entities.{Transaction}
use bondster_bco.Storage.{Storage}
use bondster_bco.Workflow.{Services, Codec, World}
use bondster_bco.Workflow.Requests.{transaction_request}
use bondster_bco.Workflow.Parallel.Views.{View, seen_of, mark}
use bondster_bco.Workflow.Booking.{read_data}
use bondster_bco.Workflow.Booking.Goroutine.{
  Place, starting, rounds, reading, sending, counting, marking, over, listed, tested, decoded,
  answered,
}

unfoldable pub is_starting : Place → Bool
is_starting starting = true
is_starting _ = false

module _ (s : Storage) (v : Services) (codec : Codec) (tenant : Bytes) where
  unfoldable pub view : Bytes → Place → World s v → View
  view c p w = seen_of s (codes "ack_transfer") w.token.id c (is_starting p) w.plaintext

  -- The same step on the view alone, where the ledger's verdict hangs on the request alone.
  module _ (verdict : Transaction → Bool) where
    unfoldable pub local : Bytes → Place → View → Place × View
    unfolding listed tested decoded answered mark
    local c starting x = (listed x.names, record x { names = none })
    local c (rounds []) x = (over, x)
    local c (rounds (id ∷ ids)) x = (tested id ids (x.acked id), x)
    local c (reading id ids) x = (decoded id ids (read_data s v codec tenant c (x.text id)), x)
    local c (sending id st ids) x =
        (answered id ids (verdict (transaction_request codec tenant st)), x)
    local c (counting id ids) x = (marking id ids, x)
    local c (marking id ids) x = (rounds ids, record x { acked = mark id x.acked })
    local c over x = (over, x)
