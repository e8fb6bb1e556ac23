-- ===== src/Workflow/Import/Refused.antt =====
-- `CreateTransactions` where the ledger refuses what is pending, as it does a transaction that it
-- already has.
use bondster_bco.Base.{ℕ, zero, suc, Option, some, List, [], ◌∷◌, ◌++◌}
use bondster_bco.Base.Text.{Bytes}
use bondster_bco.Calendar.{Time}
use bondster_bco.Entities.{Transaction}
use bondster_bco.Token.{get_currencies}
use bondster_bco.Storage.{Storage}
use bondster_bco.Workflow.{Services, Codec, World, statements_path}
use bondster_bco.Workflow.Booking.Refused.{requests_listed, ask_each, Declined, asked}
use bondster_bco.Workflow.Import.{create_transactions}

module _ (s : Storage) (v : Services) (codec : Codec) (parse_rfc3339 : Bytes → Option Time)
    (tenant : Bytes) where
  abbrev pub Refuses : Transaction → Type 0
  Refuses = Declined s v codec tenant

  abbrev with_asked : World s v → List Transaction → World s v
  with_asked = asked s v codec tenant

  -- The requests that are pending among the statements of some currencies.
  unfoldable pub pending_requests : s.Disk → Bytes → List Bytes → List Transaction
  pending_requests d token_id [] = []
  pending_requests d token_id (c ∷ cs) =
      requests_listed s v codec tenant d token_id c
        (s.list_directory d (statements_path token_id c))
      ++ pending_requests d token_id cs

  unfoldable pub ask_again : ℕ → List Transaction → v.Net → v.Net
  ask_again zero rs net = net
  ask_again (suc n) rs net = ask_again n rs (ask_each s v codec tenant rs net)

  -- The stage of later synchronizations, and of later ones still.
  unfoldable pub stages : ℕ → World s v → World s v
  stages zero w = w
  stages (suc n) w = stages n (create_transactions s v codec parse_rfc3339 tenant w)

  abbrev pub requests_of : World s v → List Transaction
  requests_of w = pending_requests w.plaintext w.token.id (get_currencies (some w.token))
