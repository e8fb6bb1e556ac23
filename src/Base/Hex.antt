-- ===== src/Base/Hex.antt =====
-- Hexadecimal text, as package `encoding/hex` and the URLs of package `net/url` read it.
use Prim.Native.Nat.{ℕ, ◌+◌, ◌-◌, ◌*◌}
use mathlib.Core.Bool.{◌&&◌}
use mathlib.Core.Option.{Option, none, some}
use mathlib.Core.List.{[], ◌∷◌}
use bondster_bco.Base.Tests.{leb, if◌then◌else◌, ◌>>=◌}
use bondster_bco.Base.Text.{Bytes}

-- A digit of either case.
unfoldable pub hex_digit : ℕ → Option ℕ
hex_digit c =
    if leb b'0' c && leb c b'9'
    then some (c - b'0')
    else if leb b'a' c && leb c b'f'
    then some (c - b'a' + 10)
    else if leb b'A' c && leb c b'F'
    then some (c - b'A' + 10)
    else none

unfoldable pub hex_pair : Option ℕ → Option ℕ → Option Bytes → Option Bytes
hex_pair a b rest = do x ← a; y ← b; s ← rest; some ((x * 16 + y) ∷ s)

-- `hex.DecodeString`, whose result is not used beside an error.
unfoldable pub decode_string : Bytes → Option Bytes
unfolding hex_digit hex_pair
decode_string [] = some []
decode_string (c ∷ []) = none
decode_string (c ∷ d ∷ s) = hex_pair (hex_digit c) (hex_digit d) (decode_string s)
