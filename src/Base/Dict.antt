-- ===== src/Base/Dict.antt =====
-- A Go map with string keys, as an association list in the order of its iteration.
use mathlib.Core.Path.{◌≡◌, refl}
use mathlib.Core.Logic.{◌≢◌}
use mathlib.Core.Option.{Option, none, some}
use mathlib.Core.List.{List, [], ◌∷◌, ◌++◌}
use native.Mathlib.Omega.{arith}
use bondster_bco.Base.Tests.{if◌then◌else◌}
use bondster_bco.Base.Text.{Bytes, str_eq, str_eq_refl, eq_of_str_eq, str_eq_ne}

abbrev pub Dict {ℓ} : Type ℓ → Type ℓ
Dict V = List (Bytes × V)

module _ {ℓ} {V : Type ℓ} where
  unfoldable pub lookup : Bytes → Dict V → Option V
  lookup k [] = none
  lookup k ((j, v) ∷ m) = if str_eq j k then some v else lookup k m

  unfoldable pub insert : Bytes → V → Dict V → Dict V
  insert k v [] = (k, v) ∷ []
  insert k v ((j, w) ∷ m) = if str_eq j k then (k, v) ∷ m else (j, w) ∷ insert k v m

  unfoldable pub keys : Dict V → List Bytes
  keys [] = []
  keys ((k, v) ∷ m) = k ∷ keys m

  -- No entry has the key `k`.
  abbrev pub Without : Bytes → Dict V → Type 0
  Without k [] = Unit
  Without k ((j, v) ∷ m) = (j ≢ k) × Without k m

  abbrev pub Distinct : Dict V → Type 0
  Distinct [] = Unit
  Distinct ((k, v) ∷ m) = Without k m × Distinct m

  pub lookup-insert :
      (k j : Bytes) (v : V) (m : Dict V)
      → lookup j (insert k v m) ≡ (if str_eq k j then some v else lookup j m)
  unfolding lookup insert
  lookup-insert k j v [] = refl
  lookup-insert k j v ((i, w) ∷ m) = ground (
    arith,
    eq_of_str_eq k j,
    eq_of_str_eq i k,
    eq_of_str_eq i j,
    str_eq_refl k,
    str_eq_refl j,
    lookup-insert k j v m,
  )

  -- A new key is added behind the others.
  pub insert-Without :
      (k : Bytes) (v : V) (m : Dict V) → Without k m → insert k v m ≡ m ++ (k, v) ∷ []
  unfolding insert
  insert-Without k v [] h = refl
  insert-Without k v ((j, w) ∷ m) h = ground (arith, str_eq_ne j k h.0, insert-Without k v m h.1)

  insert-keeps-Without :
      (i k : Bytes) (v : V) (m : Dict V) → k ≢ i → Without i m → Without i (insert k v m)
  unfolding insert
  insert-keeps-Without i k v [] ne h = (ne, tt)
  insert-keeps-Without i k v ((j, w) ∷ m) ne h = ground (arith, insert-keeps-Without i k v m ne h.1)

  -- A write keeps the keys distinct.
  pub insert-Distinct : (k : Bytes) (v : V) (m : Dict V) → Distinct m → Distinct (insert k v m)
  unfolding insert
  insert-Distinct k v [] h = (tt, tt)
  insert-Distinct k v ((j, w) ∷ m) h = ground (
    arith,
    eq_of_str_eq j k,
    str_eq_refl j,
    insert-keeps-Without j k v m,
    insert-Distinct k v m h.1,
  )
