-- ===== src/Actor/Parse.antt =====
-- `parseMessage` of services/bondster-bco-import/actor/common.go.
--
-- The loop keeps `msg[start:i]` as `current` and the filled part of the array as a list. What Go
-- does with an index out of range, a panic, is a result of its own.
pub mod Words
use bondster_bco.Base.{
  ◌≡◌, refl, ℕ, zero, suc, Bool, true, false, ◌&&◌, not, List, [], ◌∷◌, ◌++◌, ◌==◌, ltb, length,
  if◌then◌else◌,
}
use bondster_bco.Base.Text.{Bytes, str_eq}
use bondster_bco.Messages.{
  Message, create_token, delete_token, synchronize_token, req_create_token, req_delete_token,
  req_synchronize_token,
}

pub data Parsed : Type 0 where
  message : Message → Parsed
  too_large invalid unknown panic : Parsed

-- Where the loop stands: the parts so far, `msg[start:i]`, and what is left to read.
pub record Scan : Type 0 where
  pub parts : List Bytes
  pub current : Bytes
  pub unread : Bytes

is_empty : Bytes → Bool
is_empty [] = true
is_empty (c ∷ s) = false

-- `for i < end && idx < 3`
unfoldable pub scan : Bytes → Bytes → List Bytes → Scan
unfolding is_empty
scan current [] parts = record { parts = parts; current = current; unread = [] }
scan current (c ∷ s) parts =
    let found = scan [] s (parts ++ current ∷ []) in
    let skipped = scan [] s parts in
    let next = scan (current ++ c ∷ []) s parts in
    if not (ltb (length parts) 3)
    then record { parts = parts; current = current; unread = c ∷ s }
    else if c == b' '
    then (if is_empty current then skipped else found)
    else next

-- `parts[i]`, in an array of three empty strings at first.
pub part : List Bytes → ℕ → Bytes
part [] i = []
part (p ∷ ps) zero = p
part (p ∷ ps) (suc i) = part ps i

-- The `switch`.
unfoldable pub dispatch : Bytes → List Bytes → Parsed
unfolding part
dispatch name parts =
    if str_eq (part parts 0) req_synchronize_token
    then message synchronize_token
    else if str_eq (part parts 0) req_create_token
    then (if length parts == 3
        then message (create_token name (part parts 1) (part parts 2))
        else invalid)
    else if str_eq (part parts 0) req_delete_token
    then message (delete_token name)
    else unknown

-- The test `i != end`, which comes before the `switch`.
unfoldable pub finish : Bytes → List Bytes → Bytes → Parsed
unfolding dispatch
finish name parts [] = dispatch name parts
finish name parts (c ∷ s) = too_large

-- `if idx < 3 && msg[start] != ' ' && len(msg[start:]) > 0`: with fewer than three parts the whole
-- message is read, so `msg[start:]` is `current`, and `msg[start]` panics where that is empty.
unfoldable pub last_part : Bytes → List Bytes → Bytes → Bytes → Parsed
unfolding finish
last_part name parts [] unread = if ltb (length parts) 3 then panic else finish name parts unread
last_part name parts (c ∷ current) unread =
    if ltb (length parts) 3 && not (c == b' ')
    then finish name (parts ++ (c ∷ current) ∷ []) unread
    else finish name parts unread

unfoldable pub parse_message : Bytes → Bytes → Parsed
unfolding scan last_part
parse_message msg name = let s = scan [] msg [] in last_part name s.parts s.current s.unread

-- The request to synchronize has no arguments.
pub parse_message-req_synchronize_token :
    (name : Bytes) → parse_message req_synchronize_token name ≡ message synchronize_token
unfolding parse_message
parse_message-req_synchronize_token name = refl
