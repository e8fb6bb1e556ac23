-- ===== src/Workflow/Batches.antt =====
-- `yieldUnsynchronizedStatementIds`: what its channel carries, in order. The producer runs ahead
-- of the consumer by one chunk; the directory's identifiers are distinct, so that what is
-- downloaded for one chunk does not bear on the others.
pub mod Chunks
use bondster_bco.Base.{
  ℕ, Bool, true, false, Option, none, some, List, [], ◌∷◌, ◌++◌, ◌==◌, length, if◌then◌else◌,
}
use bondster_bco.Base.Text.{Bytes}
use bondster_bco.Storage.{Storage}
use bondster_bco.Workflow.{statements_path, data_path}

module _ (s : Storage) (batch_size : ℕ) (token_id currency : Bytes) where
  -- The file of a statement is known to be missing.
  lacks_data : Option Bool → Bool
  lacks_data (some false) = true
  lacks_data _ = false

  unfoldable pub is_unsynchronized : s.Disk → Bytes → Bool
  unfolding lacks_data
  is_unsynchronized d id = lacks_data (s.exists d (data_path token_id currency id))

  -- The loop, with its buffer; the last buffer is sent too, even if it is empty.
  unfoldable pub chunk_each : s.Disk → List Bytes → List Bytes → List (List Bytes)
  chunk_each d [] buffer = buffer ∷ []
  chunk_each d (id ∷ ids) buffer =
      let skip = chunk_each d ids buffer in
      let grow = chunk_each d ids (buffer ++ id ∷ []) in
      let send = buffer ∷ chunk_each d ids (id ∷ []) in
      if is_unsynchronized d id then (if length buffer == batch_size then send else grow) else skip

  listed : s.Disk → Option (List Bytes) → List (List Bytes)
  unfolding chunk_each
  listed d none = []
  listed d (some ids) = chunk_each d ids []

  unfoldable pub yield_unsynchronized_statement_ids : s.Disk → List (List Bytes)
  unfolding listed
  yield_unsynchronized_statement_ids d =
      listed d (s.list_directory d (statements_path token_id currency))
