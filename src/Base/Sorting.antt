-- ===== src/Base/Sorting.antt =====
-- The order of Go's strings, and `sort.Slice` by it.
use Prim.Native.Nat.{ℕ, ◌+◌}
use mathlib.Core.Path.{◌≡◌, refl, ap, ◌∙◌}
use mathlib.Core.Bool.{Bool, true, false}
use mathlib.Core.List.{List, [], ◌∷◌}
use native.Mathlib.Omega.{arith}
use bondster_bco.Base.Tests.{ltb, ◌==◌, if◌then◌else◌, if_cases}
use bondster_bco.Base.Lists.{All}
use bondster_bco.Base.Text.{Bytes, str_eq, eq_of_str_eq}

unfoldable pub str_lt : Bytes → Bytes → Bool
str_lt s [] = false
str_lt [] (b ∷ t) = true
str_lt (a ∷ s) (b ∷ t) = let rest = str_lt s t in if a == b then rest else ltb a b

pub str_lt_trans : (a b c : Bytes) → str_lt a b ≡ true → str_lt b c ≡ true → str_lt a c ≡ true
unfolding str_lt
str_lt_trans a b [] h k = ground arith
str_lt_trans [] b (z ∷ c) h k = refl
str_lt_trans (x ∷ a) [] (z ∷ c) h k = ground arith
str_lt_trans (x ∷ a) (y ∷ b) (z ∷ c) h k = ground (arith, str_lt_trans a b c)

-- Two strings neither of which comes before the other are equal.
pub str_lt_total : (a b : Bytes) → str_lt a b ≡ false → str_lt b a ≡ false → str_eq a b ≡ true
unfolding str_lt
str_lt_total [] [] h k = refl
str_lt_total [] (y ∷ b) h k = ground arith
str_lt_total (x ∷ a) [] h k = ground arith
str_lt_total (x ∷ a) (y ∷ b) h k = ground (arith, str_lt_total a b)

-- A string put before the first that comes after it.
place : Bytes → List Bytes → List Bytes
unfolding str_lt
place k [] = k ∷ []
place k (j ∷ js) = let rest = place k js in if str_lt k j then k ∷ j ∷ js else j ∷ rest

-- The strings in their order, each as often as it is there.
unfoldable pub sorted : List Bytes → List Bytes
unfolding place
sorted [] = []
sorted (k ∷ ks) = place k (sorted ks)

-- No string comes after a later one.
abbrev pub Sorted : List Bytes → Type 0
Sorted [] = Unit
Sorted (k ∷ ks) = All (λ j. str_lt j k ≡ false) ks × Sorted ks

-- How often a string is in a list.
abbrev pub count_of : Bytes → List Bytes → ℕ
count_of x [] = 0
count_of x (y ∷ ys) = (if str_eq y x then 1 else 0) + count_of x ys

count_of-place : (x k : Bytes) (js : List Bytes) → count_of x (place k js) ≡ count_of x (k ∷ js)
unfolding place
count_of-place x k [] = refl
count_of-place x k (j ∷ js) = ground (arith, count_of-place x k js)

-- A string that comes before another does not come after it.
str_lt_asym : (a b : Bytes) → str_lt a b ≡ true → str_lt b a ≡ false
unfolding str_lt
str_lt_asym a [] h = cc
str_lt_asym [] (y ∷ b) h = refl
str_lt_asym (x ∷ a) (y ∷ b) h = ground (arith, str_lt_asym a b)

-- What comes before none of a list comes before nothing after its head either.
not_before_trans : (a b c : Bytes) → str_lt b a ≡ false → str_lt c b ≡ false → str_lt c a ≡ false
unfolding str_lt
not_before_trans a b c h k = ground (arith, str_lt_trans c a b, str_lt_total a b, eq_of_str_eq a b)

abbrev pub NotBefore : Bytes → List Bytes → Type 0
NotBefore x = All (λ j. str_lt j x ≡ false)

NotBefore-trans :
    (x k : Bytes) (js : List Bytes) → str_lt k x ≡ false → NotBefore k js → NotBefore x js
NotBefore-trans x k [] h a = tt
NotBefore-trans x k (j ∷ js) h a = (not_before_trans x k j h a.0, NotBefore-trans x k js h a.1)

NotBefore-place :
    (x k : Bytes) (js : List Bytes) → str_lt k x ≡ false → NotBefore x js → NotBefore x (place k js)
unfolding place
NotBefore-place x k [] h a = (h, tt)
NotBefore-place x k (j ∷ js) h a =
    if_cases (NotBefore x) (str_lt k j) (k ∷ j ∷ js) (j ∷ place k js) (λ _. (h, a))
      (λ _. (a.0, NotBefore-place x k js h a.1))

place-Sorted : (k : Bytes) (js : List Bytes) → Sorted js → Sorted (place k js)
unfolding place
place-Sorted k [] a = (tt, tt)
place-Sorted k (j ∷ js) a =
    if_cases Sorted (str_lt k j) (k ∷ j ∷ js) (j ∷ place k js)
      (λ e. let n = str_lt_asym k j e in ((n, NotBefore-trans k j js n a.0), a))
      (λ e. (NotBefore-place j k js e a.0, place-Sorted k js a.1))

pub sorted-Sorted : (ks : List Bytes) → Sorted (sorted ks)
unfolding sorted
sorted-Sorted [] = tt
sorted-Sorted (k ∷ ks) = place-Sorted k (sorted ks) (sorted-Sorted ks)

pub count_of-sorted : (x : Bytes) (ks : List Bytes) → count_of x (sorted ks) ≡ count_of x ks
unfolding sorted
count_of-sorted x [] = refl
count_of-sorted x (k ∷ ks) =
    count_of-place x k (sorted ks)
    ∙ ap (λ n. (if str_eq k x then 1 else 0) + n) (count_of-sorted x ks)
