-- ===== src/Rest/Tokens/Stored.antt =====
-- What the REST service reads of the tokens that an import service stores.
use bondster_bco.Base.{◌≡◌, ◌≢◌, refl, ap, ◌∙◌, Option, some, [], ◌∷◌, ◌++◌}
use bondster_bco.Base.Text.{Bytes, codes, split_append, str_eq_ne}
use bondster_bco.Calendar.{Time, format_rfc3339}
use bondster_bco.Token.{Token, serialize, sync_lines}
use bondster_bco.Token.RoundTrip.{format_rfc3339-Lacks}
use bondster_bco.Storage.{Storage}
use bondster_bco.Rest.Tokens.{deserialize, first_line, hydrate_token, hydrated, import_path}

deserialize_line :
    (s : Storage) (parse_rfc3339 : Bytes → Option Time) (t : Time) (rest : Bytes)
    → deserialize s parse_rfc3339 (format_rfc3339 t ++ b'\n' ∷ rest)
      ≡ parse_rfc3339 (format_rfc3339 t)
unfolding deserialize first_line
deserialize_line s parse t rest =
    rw (split_append b'\n' (format_rfc3339 t) rest (format_rfc3339-Lacks t))

-- Of a token that the import service serialized, whatever its fields hold, the REST service reads
-- the creation time as it was printed.
pub rest_deserialize-serialize :
    (s : Storage) (parse_rfc3339 : Bytes → Option Time) (t : Token) (text : Bytes)
    → serialize (some t) ≡ some text
    → deserialize s parse_rfc3339 text ≡ parse_rfc3339 (format_rfc3339 t.created_at)
unfolding serialize
rest_deserialize-serialize s parse t text h =
    let q : text
        ≡ format_rfc3339 t.created_at
          ++ b'\n' ∷ (t.username ++ b'\n' ∷ (t.password ++ sync_lines t.last_synced)) =
      cc in
    ap (deserialize s parse) q ∙ deserialize_line s parse t.created_at _

-- A token whose value file is read and parsed is listed.
pub hydrate_token_lem :
    (s : Storage) (parse_rfc3339 : Bytes → Option Time) (d : s.Disk) (tenant id text : Bytes)
    (t : Time)
    → tenant ≢ []
    → id ≢ []
    → s.read_file_fully d (import_path tenant ++ (codes "/" ++ (id ++ codes "/value"))) ≡ some text
    → deserialize s parse_rfc3339 text ≡ some t
    → hydrate_token s parse_rfc3339 d tenant id ≡ some (record { id = id; created_at = t })
unfolding hydrate_token hydrated
hydrate_token_lem s parse d tenant id text t ht hi e h =
    rw (str_eq_ne tenant [] ht, str_eq_ne id [] hi, e, h) refl
