-- ===== src/Utils.antt =====
-- services/bondster-bco-import/utils: identifiers from random bytes, which are an argument.
pub mod Identifiers
use Prim.Native.Nat.{bit_xor}
use bondster_bco.Base.{ℕ, zero, suc, ◌+◌, ◌*◌, ◌%◌, ◌^◌, List, [], ◌∷◌, ◌++◌}
use bondster_bco.Base.Text.{Bytes, codes}
use bondster_bco.Base.Decimal.{format_uint}

-- `table[i]`, at an index in the table.
unfoldable pub at : Bytes → ℕ → ℕ
at [] i = 0
at (c ∷ s) zero = c
at (c ∷ s) (suc i) = at s i

abbrev pub hex_lo : Bytes
hex_lo = codes "0123456789abcdef"

abbrev pub hex_hi : Bytes
hex_hi =
    codes
      "0000000000000000111111111111111122222222222222223333333333333333444444444444444455555555555555556666666666666666777777777777777788888888888888889999999999999999aaaaaaaaaaaaaaaabbbbbbbbbbbbbbbbccccccccccccccccddddddddddddddddeeeeeeeeeeeeeeeeffffffffffffffff"

abbrev pub numbers : Bytes
numbers = codes "0123456789532108"

-- The two digits of each byte.
unfoldable pub hex_digits : List ℕ → Bytes
unfolding at
hex_digits [] = []
hex_digits (b ∷ bs) = at hex_hi (b % 256) ∷ at hex_lo (b % 16) ∷ hex_digits bs

-- `UUID`, from the array of 16 random bytes.
unfoldable pub uuid : (ℕ → ℕ) → Bytes
unfolding hex_digits
uuid r =
    hex_digits (r 0 ∷ r 1 ∷ r 2 ∷ r 3 ∷ [])
    ++ b'-'
      ∷ (hex_digits (r 4 ∷ r 5 ∷ [])
          ++ b'-'
            ∷ (hex_digits (r 6 ∷ r 7 ∷ [])
                ++ b'-'
                  ∷ (hex_digits (r 8 ∷ r 9 ∷ [])
                      ++ b'-' ∷ hex_digits (r 10 ∷ r 11 ∷ r 12 ∷ r 13 ∷ r 14 ∷ r 15 ∷ []))))

-- `v << k` of a uint32
abbrev shl : ℕ → ℕ → ℕ
shl v k = v * 2 ^ k % 2 ^ 32

-- One round of the loop in `checksum`.
unfoldable pub mix : ℕ → ℕ → ℕ
mix v c =
    let x = bit_xor v (c % 256) in (x + (shl x 1 + shl x 4 + shl x 7 + shl x 8 + shl x 24)) % 2 ^ 32

unfoldable pub scan_all : Bytes → ℕ → ℕ
unfolding mix
scan_all [] v = v
scan_all (c ∷ s) v = scan_all s (mix v c)

-- `checksum`
unfoldable pub checksum : Bytes → Bytes
unfolding scan_all format_uint
checksum [] = codes "0000000000"
checksum (c ∷ s) = format_uint (scan_all (c ∷ s) 0x811c9dc5)

-- `RandDevice`, of whose 16 random bytes the first ten are used.
unfoldable pub device_number : (ℕ → ℕ) → Bytes
unfolding at
device_number r =
    at numbers (r 0 % 16)
    ∷ at numbers (r 1 % 16)
    ∷ at numbers (r 2 % 16)
    ∷ at numbers (r 3 % 16)
    ∷ at numbers (r 4 % 16)
    ∷ at numbers (r 5 % 16)
    ∷ at numbers (r 6 % 16)
    ∷ at numbers (r 7 % 16)
    ∷ at numbers (r 8 % 16)
    ∷ at numbers (r 9 % 16)
    ∷ []

unfoldable pub rand_device : (ℕ → ℕ) → Bytes
unfolding device_number checksum
rand_device r = device_number r ++ b'.' ∷ checksum (device_number r)
