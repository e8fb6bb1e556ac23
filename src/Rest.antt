-- ===== src/Rest.antt =====
-- services/bondster-bco-rest: the REST service in front of the import services, its handlers
-- without the web framework. What a handler does with a request is its result here.
pub mod Relay
pub mod Tokens
pub mod Tenants
pub mod Units
pub mod Monitors
pub mod EndToEnd
pub mod Routes
pub mod Server
use bondster_bco.Base.{
  ℕ, ◌+◌, ◌-◌, ◌*◌, Bool, true, false, ◌&&◌, ◌||◌, Option, none, some, List, [], ◌∷◌, ◌++◌, leb,
  ◌==◌, ◌>>=◌, if◌then◌else◌,
}
use bondster_bco.Base.Text.{Bytes}
use bondster_bco.Base.Hex.{hex_digit, hex_pair}

-- The status and the body that a handler writes, or the error that it returns.
pub data Written : Type 0 where
  status : ℕ → Bytes → Written
  error : Written

plain : ℕ → Option Bytes → Option Bytes
plain c rest = do s ← rest; some (c ∷ s)

-- `url.PathUnescape`
unfoldable pub path_unescape : Bytes → Option Bytes
unfolding hex_digit hex_pair plain
path_unescape [] = some []
path_unescape (c ∷ []) = if c == b'%' then none else some (c ∷ [])
path_unescape (c ∷ d ∷ []) =
    let rest = path_unescape (d ∷ []) in if c == b'%' then none else plain c rest
path_unescape (c ∷ d ∷ e ∷ s) =
    let rest = path_unescape (d ∷ e ∷ s) in
    let after = path_unescape s in
    if c == b'%' then hex_pair (hex_digit d) (hex_digit e) after else plain c rest

-- The spaces of ASCII; `strings.TrimSpace` knows others outside of it.
is_space : ℕ → Bool
is_space c = c == 32 || (leb 9 c && leb c 13)

trim_left : Bytes → Bytes
unfolding is_space
trim_left [] = []
trim_left (c ∷ s) = let rest = trim_left s in if is_space c then rest else c ∷ s

-- A byte before what is left of the rest: a space is dropped where nothing is left after it.
before_trimmed : ℕ → Bytes → Bytes
unfolding is_space
before_trimmed c [] = if is_space c then [] else c ∷ []
before_trimmed c (d ∷ s) = c ∷ d ∷ s

trim_right : Bytes → Bytes
unfolding before_trimmed
trim_right [] = []
trim_right (c ∷ s) = before_trimmed c (trim_right s)

unfoldable pub trim_space : Bytes → Bytes
unfolding trim_left trim_right
trim_space s = trim_right (trim_left s)

-- A path parameter, unescaped and trimmed.
unfoldable pub path_parameter : Bytes → Option Bytes
unfolding path_unescape trim_space
path_parameter raw = do s ← path_unescape raw; some (trim_space s)

non_empty : Bytes → Option Bytes
non_empty [] = none
non_empty (c ∷ s) = some (c ∷ s)

-- The tenant that a handler goes on with.
unfoldable pub tenant_parameter : Bytes → Option Bytes
unfolding path_parameter non_empty
tenant_parameter raw = do s ← path_parameter raw; non_empty s
