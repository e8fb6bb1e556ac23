-- ===== src/Utils/Identifiers.antt =====
-- What the identifiers are made of.
use Prim.Native.Nat.{bit_xor}
use bondster_bco.Base.{
  Bool-cases, inl, inr, ℕ, zero, suc, ◌+◌, ◌*◌, ◌/◌, ◌%◌, ◌^◌, ◌<◌, ◌≡◌, refl, Bool, true, false,
  ◌&&◌, not, Option, none, some, List, [], ◌∷◌, ◌++◌, map, ◌==◌, length, arith, All,
}
use bondster_bco.Base.Text.{Bytes, split, split_append, split-Lacks, Lacks}
use bondster_bco.Base.Decimal.{parse_uint, is_digit, parse_uint-format_uint}
use bondster_bco.Base.Hex.{hex_digit, hex_pair, decode_string}
use bondster_bco.Utils.{
  at, hex_lo, hex_hi, numbers, hex_digits, uuid, mix, scan_all, checksum, device_number,
  rand_device,
}

-- Whether each entry of a table of this size passes.
passes : (ℕ → Bool) → ℕ → Bool
passes entry zero = true
passes entry (suc last) = let before = passes entry last in entry last && before

passes_at : (entry : ℕ → Bool) (size i : ℕ) → i < size → passes entry size ≡ true → entry i ≡ true
unfolding passes
passes_at entry zero i lt h = absurd (omega arith)
passes_at entry (suc last) i lt h = elim (Bool-cases (i == last)) [
  | inl e ↦ let q : i ≡ last = ground arith in rw q (ground arith)
  | inr e ↦ passes_at entry last i (ground arith) (ground arith)
]

holds : Option ℕ → ℕ → Bool
holds none n = false
holds (some m) n = m == n

holds_eq : (o : Option ℕ) (n : ℕ) → holds o n ≡ true → o ≡ some n
unfolding holds
holds_eq none n h = cc
holds_eq (some m) n h = ground arith

-- The high digit of a byte: its value, and that it is no dash.
high_table :
    passes (λ b. holds (hex_digit (at hex_hi b)) (b / 16) && not (at hex_hi b == b'-')) 256 ≡ true
unfolding passes holds hex_digit at
high_table = refl

low_table : passes (λ b. holds (hex_digit (at hex_lo b)) b && not (at hex_lo b == b'-')) 16 ≡ true
unfolding passes holds hex_digit at
low_table = refl

digit_table : passes (λ b. is_digit (at numbers b)) 16 ≡ true
unfolding passes is_digit at
digit_table = refl

both : (o : Option ℕ) (n : ℕ) (b : Bool) → holds o n && not b ≡ true → (o ≡ some n) × (b ≡ false)
both o n true h = ground arith
both o n false h = (holds_eq o n (ground arith), refl)

high_digit :
    (b : ℕ) → b < 256 → (hex_digit (at hex_hi b) ≡ some (b / 16)) × ((at hex_hi b == b'-') ≡ false)
high_digit b h = both _ _ _ (
    passes_at (λ b. holds (hex_digit (at hex_hi b)) (b / 16) && not (at hex_hi b == b'-')) 256 b h
      high_table)

low_digit : (b : ℕ) → b < 16 → (hex_digit (at hex_lo b) ≡ some b) × ((at hex_lo b == b'-') ≡ false)
low_digit b h = both _ _ _ (
    passes_at (λ b. holds (hex_digit (at hex_lo b)) b && not (at hex_lo b == b'-')) 16 b h
      low_table)

mod_lt : (b m : ℕ) → b < m → b % m ≡ b
mod_lt b m h = grind arith

abbrev pub IsByte : ℕ → Type 0
IsByte b = b < 256

byte_halves : (b : ℕ) → b / 16 * 16 + b % 16 ≡ b
byte_halves b = omega arith

pub decode_string-hex_digits :
    (bs : List ℕ) → All IsByte bs → decode_string (hex_digits bs) ≡ some bs
unfolding hex_digits decode_string hex_pair
decode_string-hex_digits [] h = refl
decode_string-hex_digits (b ∷ bs) (hb, h) =
    let (hi, _) = high_digit b hb in
    let (lo, _) = low_digit (b % 16) (omega arith) in
    rw (mod_lt b 256 hb, hi, lo, decode_string-hex_digits bs h, byte_halves b) refl

hex_digits-Lacks : (bs : List ℕ) → Lacks b'-' (hex_digits bs)
unfolding hex_digits
hex_digits-Lacks [] = tt
hex_digits-Lacks (b ∷ bs) =
    let (_, hi) = high_digit (b % 256) (omega arith) in
    let (_, lo) = low_digit (b % 16) (omega arith) in
    (ground arith, (ground arith, hex_digits-Lacks bs))

-- What holds of each value of a function holds of a list of them.
All-values : (P : ℕ → Type 0) (f : ℕ → ℕ) → ((i : ℕ) → P (f i)) → (is : List ℕ) → All P (map f is)
All-values P f h [] = tt
All-values P f h (i ∷ is) = (h i, All-values P f h is)

group :
    (bs : List ℕ) (s : Bytes) (rest : List (Option Bytes))
    → All IsByte bs
    → map decode_string (split b'-' s) ≡ rest
    → map decode_string (split b'-' (hex_digits bs ++ b'-' ∷ s)) ≡ some bs ∷ rest
group bs s rest h e =
    rw (split_append b'-' (hex_digits bs) s (hex_digits-Lacks bs), decode_string-hex_digits bs h, e)
      refl

last_group :
    (bs : List ℕ) → All IsByte bs → map decode_string (split b'-' (hex_digits bs)) ≡ some bs ∷ []
last_group bs h =
    rw (split-Lacks b'-' (hex_digits bs) (hex_digits-Lacks bs), decode_string-hex_digits bs h) refl

-- The text of an identifier is five groups of hexadecimal digits with dashes between them, which
-- read back as the random bytes 0 to 3, 4 and 5, 6 and 7, 8 and 9, and 10 to 15: nothing of the
-- random bytes is lost, so that no two choices of them give the same identifier.
pub uuid_lem :
    (r : ℕ → ℕ)
    → ((i : ℕ) → r i < 256)
    → map decode_string (split b'-' (uuid r))
      ≡ some (r 0 ∷ r 1 ∷ r 2 ∷ r 3 ∷ [])
        ∷ some (r 4 ∷ r 5 ∷ [])
        ∷ some (r 6 ∷ r 7 ∷ [])
        ∷ some (r 8 ∷ r 9 ∷ [])
        ∷ some (r 10 ∷ r 11 ∷ r 12 ∷ r 13 ∷ r 14 ∷ r 15 ∷ [])
        ∷ []
unfolding uuid
uuid_lem r h =
    let bytes = All-values IsByte r h in
    group (r 0 ∷ r 1 ∷ r 2 ∷ r 3 ∷ []) _ _ (bytes (0 ∷ 1 ∷ 2 ∷ 3 ∷ [])) (
      group (r 4 ∷ r 5 ∷ []) _ _ (bytes (4 ∷ 5 ∷ [])) (
        group (r 6 ∷ r 7 ∷ []) _ _ (bytes (6 ∷ 7 ∷ [])) (
          group (r 8 ∷ r 9 ∷ []) _ _ (bytes (8 ∷ 9 ∷ [])) (
            last_group (r 10 ∷ r 11 ∷ r 12 ∷ r 13 ∷ r 14 ∷ r 15 ∷ [])
              (bytes (10 ∷ 11 ∷ 12 ∷ 13 ∷ 14 ∷ 15 ∷ []))))))

-- A number that a digit of the table stands for, whatever the random byte.
number-IsDigit : (b : ℕ) → is_digit (at numbers (b % 16)) ≡ true
number-IsDigit b = passes_at (λ b. is_digit (at numbers b)) 16 (b % 16) (omega arith) digit_table

-- A round of the 32-bit FNV-1a hash, as its description has it.
unfoldable pub fnv1a : Bytes → ℕ → ℕ
fnv1a [] v = v
fnv1a (c ∷ s) v = fnv1a s (bit_xor v c * 16777619 % 2 ^ 32)

mix_lem : (v c : ℕ) → c < 256 → mix v c ≡ bit_xor v c * 16777619 % 2 ^ 32
unfolding mix
mix_lem v c h = rw (mod_lt c 256 h) (omega arith)

scan_all_lem : (s : Bytes) (v : ℕ) → All IsByte s → scan_all s v ≡ fnv1a s v
unfolding scan_all fnv1a
scan_all_lem [] v h = refl
scan_all_lem (c ∷ s) v (hc, h) = rw (mix_lem v c hc) (scan_all_lem s _ h)

fnv1a_lt : (s : Bytes) (v : ℕ) → v < 2 ^ 32 → fnv1a s v < 2 ^ 32
unfolding fnv1a
fnv1a_lt [] v h = h
fnv1a_lt (c ∷ s) v h = fnv1a_lt s _ (omega arith)

checksum_lem :
    (c : ℕ) (s : Bytes)
    → All IsByte (c ∷ s)
    → parse_uint (checksum (c ∷ s)) ≡ some (fnv1a (c ∷ s) 2166136261)
unfolding checksum
checksum_lem c s h =
    let lt = fnv1a_lt (c ∷ s) 2166136261 (omega arith) in
    rw (scan_all_lem (c ∷ s) 2166136261 h) (parse_uint-format_uint _ (omega (arith, lt)))

digit-IsByte : (c : ℕ) → is_digit c ≡ true → c < 256
unfolding is_digit
digit-IsByte c h = ground arith

abbrev IsDigit : ℕ → Type 0
IsDigit c = is_digit c ≡ true

digits-IsByte : (s : Bytes) → All IsDigit s → All IsByte s
digits-IsByte [] h = tt
digits-IsByte (c ∷ s) (hc, h) = (digit-IsByte c hc, digits-IsByte s h)

-- Whatever the random bytes are, the fingerprint of a device is ten decimal digits, a dot, and the
-- decimal text of the 32-bit FNV-1a hash of those ten digits.
pub rand_device_lem :
    (r : ℕ → ℕ)
    → (d c : Bytes) × (rand_device r ≡ d ++ b'.' ∷ c)
      × (length d ≡ 10)
      × All IsDigit d
      × (parse_uint c ≡ some (fnv1a d 2166136261))
unfolding rand_device device_number
rand_device_lem r =
    let digits : All IsDigit (device_number r) =
      All-values IsDigit (λ i. at numbers (r i % 16)) (λ i. number-IsDigit (r i))
        (0 ∷ 1 ∷ 2 ∷ 3 ∷ 4 ∷ 5 ∷ 6 ∷ 7 ∷ 8 ∷ 9 ∷ []) in
    (
      device_number r,
      checksum (device_number r),
      refl,
      refl,
      digits,
      checksum_lem _ _ (digits-IsByte (device_number r) digits),
    )
