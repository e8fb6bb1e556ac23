-- ===== src/Base/Decimal.antt =====
-- Decimal text of natural numbers, as package `strconv` prints and reads it.
use Prim.Native.Nat.{ℕ, zero, suc, ◌+◌, ◌-◌, ◌*◌, ◌/◌, ◌%◌, ◌^◌, ◌<◌}
use mathlib.Core.Path.{◌≡◌, refl, ap, ◌∙◌}
use mathlib.Core.Bool.{Bool, ◌&&◌}
use mathlib.Core.Option.{Option, none, some}
use mathlib.Core.List.{[], ◌∷◌, ◌++◌}
use native.Mathlib.Omega.{arith}
use bondster_bco.Base.Tests.{ltb, leb, if◌then◌else◌, if_cases, ltb→le}
use bondster_bco.Base.Text.{Bytes}

-- The digits, on fuel.
digits_of : ℕ → ℕ → Bytes
digits_of zero n = []
digits_of (suc fuel) n =
    let rest = digits_of fuel (n / 10) in
    if ltb n 10 then (n + b'0') ∷ [] else rest ++ (n % 10 + b'0') ∷ []

-- `strconv.FormatUint(n, 10)`
unfoldable pub format_uint : ℕ → Bytes
unfolding digits_of
format_uint n = digits_of (suc n) n

unfoldable pub is_digit : ℕ → Bool
is_digit c = leb b'0' c && leb c b'9'

-- What the digits amount to behind those that were read; `none` is another character.
unfoldable pub read_digits : Bytes → ℕ → Option ℕ
unfolding is_digit
read_digits [] n = some n
read_digits (c ∷ s) n =
    let rest = read_digits s (n * 10 + (c - b'0')) in if is_digit c then rest else none

below : ℕ → Option ℕ → Option ℕ
below limit none = none
below limit (some n) = if ltb n limit then some n else none

-- `strconv.ParseUint(s, 10, 64)`
unfoldable pub parse_uint : Bytes → Option ℕ
unfolding read_digits below
parse_uint [] = none
parse_uint (c ∷ s) = below (2 ^ 64) (read_digits (c ∷ s) 0)

read_last :
    (s : Bytes) (n m d : ℕ)
    → read_digits s n ≡ some m
    → d < 10
    → read_digits (s ++ (d + b'0') ∷ []) n ≡ some (m * 10 + d)
unfolding read_digits is_digit
read_last [] n m d h lt = ground arith
read_last (c ∷ s) n m d h lt = ground (arith, read_last s (n * 10 + (c - b'0')) m d)

append_pair : (s : Bytes) (d : ℕ) → (c : ℕ) × (r : Bytes) × (s ++ d ∷ [] ≡ c ∷ r)
append_pair [] d = (d, [], refl)
append_pair (c ∷ s) d = (c, s ++ d ∷ [], refl)

-- Where the last digit is put behind digits of `n / 10`, the text is of `n`.
read_more :
    (n : ℕ) (s : Bytes)
    → read_digits s 0 ≡ some (n / 10)
    → read_digits (s ++ (n % 10 + b'0') ∷ []) 0 ≡ some n
read_more n s h = read_last s 0 (n / 10) (n % 10) h (omega arith) ∙ ap some (omega arith)

read_digits-digits_of : (fuel n : ℕ) → n < fuel → read_digits (digits_of fuel n) 0 ≡ some n
unfolding digits_of
read_digits-digits_of zero n h = absurd (omega arith)
read_digits-digits_of (suc fuel) n h =
    if_cases (λ s. read_digits s 0 ≡ some n) (ltb n 10) ((n + b'0') ∷ [])
      (digits_of fuel (n / 10) ++ (n % 10 + b'0') ∷ [])
      (λ e. unfold read_digits is_digit in ground arith)
      (λ e.
        read_more n _ (read_digits-digits_of fuel (n / 10) (let l = ltb→le n 10 e in omega arith)))

digits_of_pair : (fuel n : ℕ) → (c : ℕ) × (s : Bytes) × (digits_of (suc fuel) n ≡ c ∷ s)
unfolding digits_of
digits_of_pair fuel n =
    if_cases (λ x. (c : ℕ) × (s : Bytes) × (x ≡ c ∷ s)) (ltb n 10) ((n + b'0') ∷ [])
      (digits_of fuel (n / 10) ++ (n % 10 + b'0') ∷ []) (λ e. (_, _, refl))
      (λ e. append_pair (digits_of fuel (n / 10)) (n % 10 + b'0'))

parse_uint_lem :
    (t : Bytes) (n c : ℕ) (s : Bytes)
    → t ≡ c ∷ s
    → read_digits t 0 ≡ some n
    → n < 2 ^ 64
    → parse_uint t ≡ some n
unfolding parse_uint
parse_uint_lem [] n c s e h lt = cc
parse_uint_lem (x ∷ t) n c s e h lt = rw h (ground arith)

-- A number of 64 bits is read back as it was printed.
pub parse_uint-format_uint : (n : ℕ) → n < 2 ^ 64 → parse_uint (format_uint n) ≡ some n
unfolding format_uint
parse_uint-format_uint n h =
    let (c, s, e) = digits_of_pair n n in
    parse_uint_lem _ n c s e (read_digits-digits_of (suc n) n (omega arith)) h
