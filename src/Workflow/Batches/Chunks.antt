-- ===== src/Workflow/Batches/Chunks.antt =====
-- The chunks against the identifiers whose data is missing.
use mathlib.Core.List.{flatten}
use bondster_bco.Base.{
  ℕ, ◌≤◌, ◌<◌, ◌≡◌, refl, Bool, List, [], ◌∷◌, ◌++◌, append_assoc, arith, ◌==◌, length,
  length-append, if_cases, ==_iff, if◌then◌else◌,
}
use bondster_bco.Base.Text.{Bytes}
use bondster_bco.Storage.{Storage}
use bondster_bco.Workflow.Batches.{is_unsynchronized, chunk_each}

-- All chunks but the last are of the batch size, and the last is no longer.
abbrev pub Batched : ℕ → List (List Bytes) → Type 0
Batched n [] = Unit
Batched n (c ∷ []) = length c ≤ n
Batched n (c ∷ d ∷ rest) = (length c ≡ n) × Batched n (d ∷ rest)

module _ (s : Storage) (batch_size : ℕ) (token_id currency : Bytes) where
  abbrev missing : s.Disk → Bytes → Bool
  missing = is_unsynchronized s batch_size token_id currency

  unfoldable pub unsynchronized : s.Disk → List Bytes → List Bytes
  unsynchronized d [] = []
  unsynchronized d (id ∷ ids) =
      let rest = unsynchronized d ids in if missing d id then id ∷ rest else rest

  abbrev chunks : s.Disk → List Bytes → List Bytes → List (List Bytes)
  chunks = chunk_each s batch_size token_id currency

  chunks_flat :
      (d : s.Disk) (ids buffer : List Bytes)
      → flatten (chunks d ids buffer) ≡ buffer ++ unsynchronized d ids
  unfolding chunk_each unsynchronized flatten
  chunks_flat d [] buffer = refl
  chunks_flat d (id ∷ ids) buffer = ground (
    arith,
    chunks_flat d ids buffer,
    chunks_flat d ids (buffer ++ id ∷ []),
    chunks_flat d ids (id ∷ []),
    append_assoc buffer (id ∷ []) (unsynchronized d ids),
  )

  chunks_cons :
      (d : s.Disk) (ids buffer : List Bytes)
      → (c : List Bytes) × (rest : List (List Bytes)) × (chunks d ids buffer ≡ c ∷ rest)
  unfolding chunk_each
  chunks_cons d [] buffer = (buffer, [], refl)
  chunks_cons d (id ∷ ids) buffer =
      if_cases (λ l. (c : List Bytes) × (rest : List (List Bytes)) × (l ≡ c ∷ rest)) (missing d id)
        _ _
        (λ _.
          if_cases (λ l. (c : List Bytes) × (rest : List (List Bytes)) × (l ≡ c ∷ rest))
            (length buffer == batch_size) _ _ (λ _. (buffer, chunks d ids (id ∷ []), refl))
            (λ _. chunks_cons d ids (buffer ++ id ∷ [])))
        (λ _. chunks_cons d ids buffer)

  Batched-cons :
      (n : ℕ) (c : List Bytes) (cs : List (List Bytes))
      → ((d : List Bytes) × (rest : List (List Bytes)) × (cs ≡ d ∷ rest))
      → length c ≡ n
      → Batched n cs
      → Batched n (c ∷ cs)
  Batched-cons n c [] (d, rest, e) l h = cc
  Batched-cons n c (d ∷ rest) e l h = (l, h)

  chunks-Batched :
      (d : s.Disk) (ids buffer : List Bytes)
      → 0 < batch_size
      → length buffer ≤ batch_size
      → Batched batch_size (chunks d ids buffer)
  unfolding chunk_each
  chunks-Batched d [] buffer pos h = h
  chunks-Batched d (id ∷ ids) buffer pos h =
      if_cases (Batched batch_size) (missing d id) _ _
        (λ _.
          if_cases (Batched batch_size) (length buffer == batch_size) _ _
            (λ full.
              Batched-cons batch_size buffer (chunks d ids (id ∷ [])) (chunks_cons d ids (id ∷ []))
                ((==_iff (length buffer) batch_size).0 full)
                (chunks-Batched d ids (id ∷ []) pos (omega arith)))
            (λ short.
              chunks-Batched d ids (buffer ++ id ∷ []) pos
                (ground (arith, length-append buffer (id ∷ [])))))
        (λ _. chunks-Batched d ids buffer pos h)

  -- For a batch size above zero, the chunks together are the identifiers whose data is missing,
  -- in order; all chunks but the last are full, and none is larger than the batch size.
  pub chunk_each-Batched :
      (d : s.Disk) (ids : List Bytes)
      → 0 < batch_size
      → (flatten (chunk_each s batch_size token_id currency d ids []) ≡ unsynchronized d ids)
        × Batched batch_size (chunk_each s batch_size token_id currency d ids [])
  chunk_each-Batched d ids pos = (chunks_flat d ids [], chunks-Batched d ids [] pos (omega arith))
