-- ===== src/Actor/Parse/Words.antt =====
-- What `parseMessage` makes of messages that are words with spaces between them.
use bondster_bco.Base.{
  ℕ, ◌≡◌, ◌≢◌, refl, sym, ap, ◌∙◌, List, [], ◌∷◌, ◌++◌, append_assoc, append-nil, arith, ◌<◌,
  length, All, All-append,
}
use bondster_bco.Base.Text.{Bytes, Lacks}
use bondster_bco.Messages.{create_token, create_token_message, req_create_token}
use bondster_bco.Actor.Parse.{
  Scan, message, too_large, panic, scan, dispatch, finish, last_part, parse_message,
}

-- A word: at least one byte, and no space.
abbrev pub IsWord : Bytes → Type 0
IsWord [] = ⊥
IsWord (c ∷ w) = Lacks b' ' (c ∷ w)

IsWord-Lacks : (w : Bytes) → IsWord w → Lacks b' ' w
IsWord-Lacks [] h = absurd h
IsWord-Lacks (c ∷ w) h = h

abbrev Room : List Bytes → Type 0
Room parts = length parts < 3

scan-Lacks :
    (w s current : Bytes) (parts : List Bytes)
    → Lacks b' ' w
    → Room parts
    → scan current (w ++ s) parts ≡ scan (current ++ w) s parts
unfolding scan
scan-Lacks [] s current parts h r = rw append-nil
scan-Lacks (c ∷ w) s current parts h r =
    ground (arith, scan-Lacks w s (current ++ c ∷ []) parts h.1 r, append_assoc current (c ∷ []) w)

scan_word :
    (w s : Bytes) (parts : List Bytes)
    → IsWord w
    → Room parts
    → scan [] (w ++ b' ' ∷ s) parts ≡ scan [] s (parts ++ w ∷ [])
unfolding scan
scan_word [] s parts h r = absurd h
scan_word (c ∷ w) s parts h r = scan-Lacks (c ∷ w) (b' ' ∷ s) [] parts h r ∙ ground arith

scan_last :
    (w : Bytes) (parts : List Bytes)
    → IsWord w
    → Room parts
    → scan [] w parts ≡ record { parts = parts; current = w; unread = [] }
unfolding scan
scan_last w parts h r =
    ap (λ x. scan [] x parts) (sym (append-nil w)) ∙ scan-Lacks w [] [] parts (IsWord-Lacks w h) r

last_part_word :
    (name w : Bytes) (parts : List Bytes)
    → IsWord w
    → Room parts
    → last_part name parts w [] ≡ dispatch name (parts ++ w ∷ [])
unfolding last_part
last_part_word name [] parts h r = absurd h
last_part_word name (c ∷ w) parts h r = ground arith

parse_message_lem :
    (msg name : Bytes) (s : Scan)
    → scan [] msg [] ≡ s
    → parse_message msg name ≡ last_part name s.parts s.current s.unread
unfolding parse_message
parse_message_lem msg name s h = ap (λ t. last_part name t.parts t.current t.unread) h

scan_request :
    (u s : Bytes)
    → IsWord u
    → scan [] (req_create_token ++ b' ' ∷ (u ++ b' ' ∷ s)) []
      ≡ scan [] s (req_create_token ∷ u ∷ [])
scan_request u s h =
    scan_word req_create_token (u ++ b' ' ∷ s) [] (omega arith) (omega arith)
    ∙ scan_word u s (req_create_token ∷ []) h (omega arith)

scan_full :
    (a b c s : Bytes) (x : ℕ)
    → scan [] (x ∷ s) (a ∷ b ∷ c ∷ [])
      ≡ record { parts = a ∷ b ∷ c ∷ []; current = []; unread = x ∷ s }
unfolding scan
scan_full a b c s x = refl

-- The service reads a creation request as it was meant, if neither credential is empty or holds a
-- space.
pub parse_message-create_token_message :
    (name username password : Bytes)
    → IsWord username
    → IsWord password
    → parse_message (create_token_message username password) name
      ≡ message (create_token name username password)
unfolding parse_message create_token_message
parse_message-create_token_message name u p hu hp =
    parse_message_lem (req_create_token ++ b' ' ∷ (u ++ b' ' ∷ p)) name _
      (scan_request u p hu ∙ scan_last p (req_create_token ∷ u ∷ []) hp (omega arith))
    ∙ last_part_word name p (req_create_token ∷ u ∷ []) hp (omega arith)
    ∙ unfold dispatch in refl

-- A creation request whose user name is two words with a space between them, and whose password
-- is a word, is refused as too large.
pub parse_message_spaced_username :
    (name first second password : Bytes)
    → IsWord first
    → IsWord second
    → IsWord password
    → parse_message (create_token_message (first ++ b' ' ∷ second) password) name ≡ too_large
unfolding parse_message create_token_message
parse_message_spaced_username name u v [] hu hv hp = absurd hp
parse_message_spaced_username name u v (c ∷ p) hu hv hp =
    parse_message_lem (req_create_token ++ b' ' ∷ (u ++ b' ' ∷ v ++ b' ' ∷ c ∷ p)) name _ (
      ap (λ x. scan [] (req_create_token ++ b' ' ∷ x) []) (append_assoc u (b' ' ∷ v) (b' ' ∷ c ∷ p))
      ∙ scan_request u (v ++ b' ' ∷ c ∷ p) hu
      ∙ scan_word v (c ∷ p) (req_create_token ∷ u ∷ []) hv (omega arith)
      ∙ scan_full req_create_token u v p c)

-- One word with a space behind it, such as `"ST "`, is answered with an index out of range.
pub parse_message_trailing_space :
    (name w : Bytes) → IsWord w → parse_message (w ++ b' ' ∷ []) name ≡ panic
unfolding parse_message
parse_message_trailing_space name w h =
    parse_message_lem (w ++ b' ' ∷ []) name _ (scan_word w [] [] h (omega arith))

-- The empty message too.
pub parse_message_empty : (name : Bytes) → parse_message [] name ≡ panic
unfolding parse_message
parse_message_empty name = refl

record IsScanned (s : Scan) : Type 0 where
  words : All IsWord s.parts
  open_word : Lacks b' ' s.current

scan-IsScanned :
    (s current : Bytes) (parts : List Bytes)
    → All IsWord parts
    → Lacks b' ' current
    → IsScanned (scan current s parts)
unfolding scan
scan-IsScanned [] current parts ps h = record { words = ps; open_word = h }
scan-IsScanned (c ∷ s) [] parts ps h =
    ground (arith, scan-IsScanned s [] parts ps tt, scan-IsScanned s (c ∷ []) parts ps)
scan-IsScanned (c ∷ s) (d ∷ current) parts ps h = ground (
  arith,
  scan-IsScanned s [] (parts ++ (d ∷ current) ∷ []) (All-append IsWord parts _ ps (h, tt)) tt,
  scan-IsScanned s (d ∷ current ++ c ∷ []) parts ps,
  All-append (λ x. x ≢ b' ') (d ∷ current) (c ∷ []) h,
)

dispatch_sound :
    (name : Bytes) (parts : List Bytes) (id u p : Bytes)
    → All IsWord parts
    → dispatch name parts ≡ message (create_token id u p)
    → (id ≡ name) × IsWord u × IsWord p
unfolding dispatch
dispatch_sound name (a ∷ b ∷ c ∷ []) id u p ws h = ground arith
dispatch_sound name [] id u p ws h = ground arith
dispatch_sound name (a ∷ []) id u p ws h = ground arith
dispatch_sound name (a ∷ b ∷ []) id u p ws h = ground arith
dispatch_sound name (a ∷ b ∷ c ∷ d ∷ rest) id u p ws h = ground arith

finish_sound :
    (name : Bytes) (parts : List Bytes) (unread : Bytes) (id u p : Bytes)
    → All IsWord parts
    → finish name parts unread ≡ message (create_token id u p)
    → (id ≡ name) × IsWord u × IsWord p
unfolding finish
finish_sound name parts [] id u p ws h = dispatch_sound name parts id u p ws h
finish_sound name parts (c ∷ s) id u p ws h = cc

last_part_sound :
    (name : Bytes) (parts : List Bytes) (current unread : Bytes) {id u p : Bytes}
    → All IsWord parts
    → Lacks b' ' current
    → last_part name parts current unread ≡ message (create_token id u p)
    → (id ≡ name) × IsWord u × IsWord p
unfolding last_part
last_part_sound name parts [] unread {id} {u} {p} ws h e =
    ground (arith, finish_sound name parts unread id u p ws)
last_part_sound name parts (c ∷ current) unread {id} {u} {p} ws h e = ground (
  arith,
  finish_sound name parts unread id u p ws,
  finish_sound name (parts ++ (c ∷ current) ∷ []) unread id u p
      (All-append IsWord parts ((c ∷ current) ∷ []) ws (h, tt)),
)

-- A creation request that the service accepts carries the name that it was sent to, and two
-- credentials that are not empty and hold no space.
pub parse_message_sound :
    (msg name : Bytes) {id username password : Bytes}
    → parse_message msg name ≡ message (create_token id username password)
    → (id ≡ name) × IsWord username × IsWord password
unfolding parse_message
parse_message_sound msg name h =
    let scanned = scan-IsScanned msg [] [] tt tt in
    last_part_sound name (scan [] msg []).parts (scan [] msg []).current (scan [] msg []).unread
      scanned.words scanned.open_word h
