-- ===== src/Persistence/Restored.antt =====
-- What is restored of a token that is written and read
-- (services/bondster-bco-import/persistence/token.go and model/token.go, and
-- services/bondster-bco-rest/persistence/token.go and model/model.go).
use bondster_bco.Base.{◌≡◌, ◌≢◌, refl, ap, ◌∙◌, true, Option, some, [], ◌++◌, append_assoc}
use bondster_bco.Base.Text.{Bytes, codes, Lacks}
use bondster_bco.Calendar.{Time, IsValid, format_rfc3339}
use bondster_bco.Calendar.Rfc3339.{parse_rfc3339, parse_rfc3339-format_rfc3339, whole_second}
use bondster_bco.Token.{Token, serialize, deserialize}
use bondster_bco.Token.RoundTrip.{IsStorable, midnights, deserialize-serialize}
use bondster_bco.Storage.{Storage, StorageLaws}
use bondster_bco.Persistence.{create_token, load_token, value_path}
use bondster_bco.Persistence.Laws.{load_token-create_token, create_token_stored}
use bondster_bco.Rest.Tokens.{import_path, hydrate_token}
use bondster_bco.Rest.Tokens.Stored.{rest_deserialize-serialize, hydrate_token_lem}

same_path :
    (tenant id : Bytes)
    → import_path tenant ++ (codes "/" ++ (id ++ codes "/value"))
      ≡ codes "t_" ++ (tenant ++ (codes "/import/bondster/" ++ value_path id))
same_path tenant id = simp append_assoc refl

module _ (others : Bytes → Option Time) where
  -- The text of a storable token that was created at a valid time, read into any entity, gives that
  -- entity the token's user name and password, its creation time without the fraction of a second,
  -- and its sync times at midnight.
  pub deserialize-serialize_restores :
      (t blank : Token) (text : Bytes)
      → IsStorable t
      → IsValid t.created_at
      → serialize (some t) ≡ some text
      → deserialize (parse_rfc3339 others) (some blank) text ≡ (
        some (record t {
          id = blank.id;
          created_at = whole_second t.created_at;
          last_synced = midnights t.last_synced;
        }),
        true,
      )
  deserialize-serialize_restores t blank text s v e =
      deserialize-serialize (parse_rfc3339 others) t blank text s e
        (parse_rfc3339-format_rfc3339 others t.created_at v)

  module _ (s : Storage) (laws : StorageLaws s) where
    -- In a storage that keeps the laws, a token that was created at a valid time is loaded with the
    -- credentials it was created with, neither of which holds a newline, its creation time without
    -- the fraction of a second, and no currency synchronised.
    pub load_token-create_token_restores :
        (now : Time) (d : s.Disk) (id username password : Bytes)
        → IsValid now
        → Lacks b'\n' username
        → Lacks b'\n' password
        → (create_token s (parse_rfc3339 others) now d id username password).1 ≡ true
        → (load_token s
            (parse_rfc3339 others)
            (create_token s (parse_rfc3339 others) now d id username password).0
            id).1
          ≡ some (record {
            id = id;
            username = username;
            password = password;
            created_at = whole_second now;
            last_synced = [];
          })
    load_token-create_token_restores now d id username password v u p made =
        load_token-create_token s laws (parse_rfc3339 others) now (whole_second now) d id username
          password u p (parse_rfc3339-format_rfc3339 others now v) made

    -- A token that the import service has created at a valid time is listed by the REST service,
    -- under its ID and with its creation time without the fraction of a second, where the storage of
    -- the REST service has, below the tenant's directory, the token's file of the import service, and
    -- neither the tenant nor the ID is empty.
    pub created_listed :
        (r : Storage) (e : r.Disk) (now : Time) (d : s.Disk) (tenant id username password : Bytes)
        → IsValid now
        → tenant ≢ []
        → id ≢ []
        → (create_token s (parse_rfc3339 others) now d id username password).1 ≡ true
        → r.read_file_fully e
            (codes "t_" ++ (tenant ++ (codes "/import/bondster/" ++ value_path id)))
          ≡ s.read_file_fully
              (create_token s (parse_rfc3339 others) now d id username password).0
              (value_path id)
        → hydrate_token r (parse_rfc3339 others) e tenant id
          ≡ some (record { id = id; created_at = whole_second now })
    created_listed r e now d tenant id username password v ht hi made same =
        let (t, text, written, created, stored) =
          create_token_stored s laws (parse_rfc3339 others) now d id username password made in
        let path : r.read_file_fully e (import_path tenant ++ (codes "/" ++ (id ++ codes "/value")))
            ≡ some text =
          ap (r.read_file_fully e) (same_path tenant id) ∙ (same ∙ stored) in
        hydrate_token_lem r (parse_rfc3339 others) e tenant id text (whole_second now) ht hi path (
          rest_deserialize-serialize r (parse_rfc3339 others) t text written
          ∙ (ap (λ (x : Time). parse_rfc3339 others (format_rfc3339 x)) created
              ∙ parse_rfc3339-format_rfc3339 others now v))
