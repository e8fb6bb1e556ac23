-- ===== src/Messages.antt =====
-- services/bondster-bco-import/actor/messages.go, services/bondster-bco-import/actor/model.go, and
-- the messages that services/bondster-bco-rest/actor/messages.go builds: the protocol between the
-- two services. The second file declares the same codes.
use bondster_bco.Base.{◌∷◌, ◌++◌}
use bondster_bco.Base.Text.{Bytes, codes}

abbrev pub req_synchronize_token : Bytes
req_synchronize_token = codes "ST"

abbrev pub resp_synchronize_token : Bytes
resp_synchronize_token = codes "TS"

abbrev pub req_create_token : Bytes
req_create_token = codes "NT"

abbrev pub resp_create_token : Bytes
resp_create_token = codes "TN"

abbrev pub req_delete_token : Bytes
req_delete_token = codes "DT"

abbrev pub resp_delete_token : Bytes
resp_delete_token = codes "TD"

abbrev pub resp_token_does_not_exist : Bytes
resp_token_does_not_exist = codes "EM"

abbrev pub fatal_error : Bytes
fatal_error = codes "EE"

-- What an actor of the import service is told. `other` is any value of another type.
pub data Message : Type 0 where
  create_token : Bytes → Bytes → Bytes → Message
  delete_token : Bytes → Message
  synchronize_token synchronization_done other : Message

-- `CreateTokenMessage`, by the two fields of the token that it reads.
unfoldable pub create_token_message : Bytes → Bytes → Bytes
create_token_message username password = req_create_token ++ b' ' ∷ (username ++ b' ' ∷ password)

abbrev pub synchronize_token_message : Bytes
synchronize_token_message = req_synchronize_token

abbrev pub delete_token_message : Bytes
delete_token_message = req_delete_token

-- `system.Coordinates` of the actor system.
pub record Coordinates : Type 0 where
  pub region : Bytes
  pub name : Bytes
