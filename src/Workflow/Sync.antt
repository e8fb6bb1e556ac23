-- ===== src/Workflow/Sync.antt =====
-- `downloadStatementsForCurrency`: discovery of new identifiers, then the download in batches.
pub mod Monotone
use bondster_bco.Base.{ℕ, Bool, true, false, Option, none, some, List, [], ◌∷◌, if◌then◌else◌}
use bondster_bco.Base.Text.{Bytes}
use bondster_bco.Calendar.{Time, before}
use bondster_bco.Timeshift.{TimeRange, partition_interval}
use bondster_bco.Token.{Token, get_last_synced_time, set_last_synced_time}
use bondster_bco.Storage.{Storage}
use bondster_bco.Persistence.{update_token}
use bondster_bco.Workflow.{Services, Codec, World, statement_path}
use bondster_bco.Workflow.Batches.{yield_unsynchronized_statement_ids}
use bondster_bco.Workflow.Download.{download_statements}

-- The token behind the pointer, which the method of a token that is there keeps.
unfoldable pub the_token : Token → Option Token × Bool → Token
the_token t (none, done) = t
the_token t (some t', done) = t'

module _ (s : Storage) (v : Services) (codec : Codec) (parse_rfc3339 : Bytes → Option Time)
    (currency : Bytes) where
  -- `false` is a return from the whole function.
  make_known : World s v → Bytes → Option Bool → World s v × Bool
  make_known w id none = (w, false)
  make_known w id (some true) = (w, true)
  make_known w id (some false) =
      let (d, done) = s.mkdir w.plaintext (statement_path w.token.id currency id) in
      (record w { plaintext = d }, done)

  unfoldable pub discover_ids : List Bytes → World s v → World s v × Bool
  unfolding make_known
  discover_ids [] w = (w, true)
  discover_ids (id ∷ ids) w =
      let (w', go_on) =
        make_known w id (s.exists w.plaintext (statement_path w.token.id currency id)) in
      let rest = discover_ids ids w' in if go_on then rest else (w', false)

  discover_listed : World s v → Option (List Bytes) → World s v × Bool
  unfolding discover_ids
  discover_listed w none = (w, false)
  discover_listed w (some ids) = discover_ids ids w

  unfoldable pub discover_intervals : List TimeRange → World s v → World s v × Bool
  unfolding discover_listed
  discover_intervals [] w = (w, true)
  discover_intervals (r ∷ rs) w =
      let (net', ids) = v.get_statement_ids_in_interval w.net currency r in
      let (w', go_on) = discover_listed (record w { net = net' }) ids in
      let rest = discover_intervals rs w' in if go_on then rest else (w', false)

  -- `token.SetLastSyncedTime` and `persistence.UpdateToken`, whose failure is only logged.
  unfoldable pub store_time : Time → World s v → World s v
  unfolding the_token
  store_time t w =
      let token' = the_token w.token (set_last_synced_time (some w.token) currency t) in
      record w {
        token = token';
        encrypted = (update_token s parse_rfc3339 w.encrypted (some token')).0;
      }

  -- The loop over the batches, with `lastTime`.
  unfoldable pub download_batches : List (List Bytes) → Time → World s v → World s v
  unfolding store_time
  download_batches [] last_time w = w
  download_batches (ids ∷ rest) last_time w =
      let (w', new_time) = download_statements s v codec currency ids w in
      let unchanged = download_batches rest last_time w' in
      let advanced = download_batches rest new_time (store_time new_time w') in
      if before new_time last_time then unchanged else advanced

  downloads : Time → World s v → Bool → World s v
  unfolding download_batches
  downloads last_time w false = w
  downloads last_time w true =
      download_batches (yield_unsynchronized_statement_ids s 100 w.token.id currency w.plaintext)
        last_time w

  -- Where the fuel of the partition ran out there is no range.
  intervals : Option (List TimeRange) → List TimeRange
  intervals none = []
  intervals (some rs) = rs

  synchronize : World s v → Option Time → World s v
  unfolding downloads discover_intervals intervals partition_interval
  synchronize w none = w
  synchronize w (some last_time) =
      let (w', discovered) =
        discover_intervals (intervals (partition_interval last_time (v.now w.net))) w in
      downloads last_time w' discovered

  unfoldable pub download_statements_for_currency : World s v → World s v
  unfolding synchronize
  download_statements_for_currency w = synchronize w (get_last_synced_time (some w.token) currency)
