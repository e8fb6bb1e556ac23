-- ===== src/Rest/Relay.antt =====
-- services/bondster-bco-rest/actor: what is sent to an import service, and what its replies are
-- read as.
pub mod Delivery
use bondster_bco.Base.{
  ◌≡◌, ◌≢◌, sym, ap, ◌∙◌, arith, Option-cases, inl, inr, refl, Option, none, some, [], ◌∷◌, ◌++◌,
  ◌==◌, if◌then◌else◌,
}
use bondster_bco.Base.Text.{Bytes, codes, str_eq}
use bondster_bco.Messages.{
  Coordinates, create_token_message, delete_token_message, synchronize_token_message,
  resp_create_token, resp_delete_token, resp_synchronize_token, resp_token_does_not_exist,
  fatal_error,
}

-- What a relay is told, `unreadable` where a message does not parse, and `ReplyTimeout`.
pub data Reply : Type 0 where
  fatal token_created token_deleted synchronize_accepted token_missing unreadable reply_timeout :
      Reply

-- `msg[0:i]`
first_word : Bytes → Bytes
first_word [] = []
first_word (c ∷ s) = let rest = first_word s in if c == b' ' then [] else c ∷ rest

-- `parseMessage`
unfoldable pub parse_reply : Bytes → Option Reply
unfolding first_word
parse_reply msg =
    let word = first_word msg in
    if str_eq word fatal_error
    then some fatal
    else if str_eq word resp_create_token
    then some token_created
    else if str_eq word resp_delete_token
    then some token_deleted
    else if str_eq word resp_synchronize_token
    then some synchronize_accepted
    else if str_eq word resp_token_does_not_exist
    then some token_missing
    else none

-- One call of `SendMessage`.
pub record Sent : Type 0 where
  pub text : Bytes
  pub to : Coordinates
  pub from : Coordinates

abbrev pub to_import : Bytes → Bytes → Bytes → Bytes → Sent
to_import text tenant id relay = record {
  text = text;
  to = record { region = codes "BondsterImport/" ++ tenant; name = id };
  from = record { region = codes "BondsterRest"; name = relay };
}

-- The result of waiting for the relay's first message, which is nothing where none comes in time.
unfoldable pub awaited : Option Bytes → Reply
awaited none = reply_timeout
awaited (some text) = elim (parse_reply text) [ none ↦ unreadable | some r ↦ r ]

-- The other side, with the relay's name and the clock: the first reply in time to a message sent.
module _ (exchange : Sent → Option Bytes) (relay : Bytes) where
  unfoldable pub create_token : Bytes → Bytes → Bytes → Bytes → Reply
  unfolding awaited
  create_token tenant id username password =
      awaited (exchange (to_import (create_token_message username password) tenant id relay))

  unfoldable pub synchronize_token : Bytes → Bytes → Reply
  unfolding awaited
  synchronize_token tenant id =
      awaited (exchange (to_import synchronize_token_message tenant id relay))

  unfoldable pub delete_token : Bytes → Bytes → Reply
  unfolding awaited
  delete_token tenant id = awaited (exchange (to_import delete_token_message tenant id relay))

-- The codes that an actor replies with, as they are read.
pub record Codes : Type 0 where
  pub fatal_code : parse_reply fatal_error ≡ some fatal
  pub created_code : parse_reply resp_create_token ≡ some token_created
  pub deleted_code : parse_reply resp_delete_token ≡ some token_deleted
  pub accepted_code : parse_reply resp_synchronize_token ≡ some synchronize_accepted
  pub missing_code : parse_reply resp_token_does_not_exist ≡ some token_missing

pub parse_reply-Codes : Codes
unfolding parse_reply first_word
parse_reply-Codes = record {
  fatal_code = refl;
  created_code = refl;
  deleted_code = refl;
  accepted_code = refl;
  missing_code = refl;
}

pub awaited_text :
    (o : Option Bytes) (r : Reply)
    → r ≢ reply_timeout
    → r ≢ unreadable
    → awaited o ≡ r
    → (text : Bytes) × (o ≡ some text) × (parse_reply text ≡ some r)
unfolding awaited
awaited_text none r h k e = absurd (h (sym e))
awaited_text (some text) r h k e = elim (Option-cases (parse_reply text)) [
  | inl q ↦
      absurd
        (k (sym (ap (λ (x : Option Reply). elim x [ none ↦ unreadable | some y ↦ y ]) (sym q) ∙ e)))
  | inr (y, q) ↦ (text, refl, ground arith)
]
