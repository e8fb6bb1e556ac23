-- ===== src/Workflow/Download.antt =====
-- `downloadStatements`, for one batch of identifiers.
pub mod Latest
use bondster_bco.Base.{
  ℕ, ◌+◌, Bool, true, false, Option, none, some, List, [], ◌∷◌, length, if◌then◌else◌,
}
use bondster_bco.Base.Text.{Bytes}
use bondster_bco.Calendar.{Time, start_time, after}
use bondster_bco.Storage.{Storage}
use bondster_bco.Bondster.{Statement}
use bondster_bco.Workflow.{Services, Codec, World, data_path}

module _ (s : Storage) (v : Services) (codec : Codec) (currency : Bytes) where
  -- A statement that cannot be encoded or written is passed over.
  write_data : s.Disk → Bytes → Bytes → Option Bytes → s.Disk
  write_data d token_id id none = d
  write_data d token_id id (some text) =
      (s.write_file_exclusive d (data_path token_id currency id) text).0

  unfoldable pub write_each : s.Disk → Bytes → List Statement → s.Disk
  unfolding write_data
  write_each d token_id [] = d
  write_each d token_id (st ∷ sts) =
      write_each (write_data d token_id st.id_transfer (codec.marshal st)) token_id sts

  unfoldable pub latest : Time → List Statement → Time
  latest t [] = t
  latest t (st ∷ sts) = latest (if after st.value_date t then st.value_date else t) sts

  downloaded : World s v → Option (List Statement) → World s v × Time
  unfolding write_each latest
  downloaded w none = (w, start_time)
  downloaded w (some sts) = (
    record w {
      plaintext = write_each w.plaintext w.token.id sts;
      downloaded_statements = w.downloaded_statements + length sts;
    },
    latest start_time sts,
  )

  unfoldable pub download_statements : List Bytes → World s v → World s v × Time
  unfolding downloaded
  download_statements [] w = (w, start_time)
  download_statements (id ∷ ids) w =
      let (net', sts) = v.get_statements w.net currency (id ∷ ids) in
      downloaded (record w { net = net' }) sts
