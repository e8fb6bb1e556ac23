-- ===== src/Persistence/Laws.antt =====
-- What a caller of the persistence may rely on.
use bondster_bco.Base.{◌≡◌, refl, ap, true, false, Option, none, some, [], arith}
use bondster_bco.Base.Text.{Bytes, Lacks}
use bondster_bco.Calendar.{Time, format_rfc3339}
use bondster_bco.Token.{Token, new_token, serialize, deserialize}
use bondster_bco.Token.RoundTrip.{IsStorable, deserialize-serialize, midnights}
use bondster_bco.Storage.{Storage, StorageLaws}
use bondster_bco.Persistence.{
  value_path, token_path, zero_token, create_token, delete_token, hydrate_token, load_token,
}

-- The token that `CreateToken` persists.
abbrev fresh : Time → Bytes → Bytes → Bytes → Token
fresh now id username password = record {
  id = id;
  username = username;
  password = password;
  created_at = now;
  last_synced = [];
}

fresh-IsStorable :
    (now : Time) (id username password : Bytes)
    → Lacks b'\n' username
    → Lacks b'\n' password
    → IsStorable (fresh now id username password)
fresh-IsStorable now id username password u p = record {
  username_line = u;
  password_line = p;
  entries = tt;
  distinct = tt;
}

module _ (s : Storage) (parse_rfc3339 : Bytes → Option Time) where
  open s use {Disk, exists, read_file_fully, write_file_exclusive}

  create_token_text :
      (now : Time) (d : Disk) (id username password : Bytes)
      → (text : Bytes) × (serialize (some (fresh now id username password)) ≡ some text)
        × (create_token s parse_rfc3339 now d id username password
            ≡ write_file_exclusive d (value_path id) text)
  unfolding create_token serialize new_token
  create_token_text now d id username password = (_, refl, refl)

  load_token_text :
      (d : Disk) (id text : Bytes) (t : Token)
      → exists d (value_path id) ≡ some true
      → read_file_fully d (value_path id) ≡ some text
      → deserialize parse_rfc3339 (some (zero_token id)) text ≡ (some t, true)
      → load_token s parse_rfc3339 d id ≡ (d, some t)
  unfolding load_token
  load_token_text d id text t e r h = ground arith

  -- A token that is loaded has a value file, and the load changed nothing.
  pub load_token_found :
      (d : Disk) (id : Bytes) {t : Token}
      → (load_token s parse_rfc3339 d id).1 ≡ some t
      → (exists d (value_path id) ≡ some true) × ((load_token s parse_rfc3339 d id).0 ≡ d)
  unfolding load_token
  load_token_found d id h = ground arith

module _ (s : Storage) (laws : StorageLaws s) (parse_rfc3339 : Bytes → Option Time) where
  open s use {Disk, exists, delete}

  abbrev after_create : Time → Disk → Bytes → Bytes → Bytes → Disk
  after_create now d id username password =
      (create_token s parse_rfc3339 now d id username password).0

  -- In a storage that keeps the laws, a token that was created is loaded with the credentials it
  -- was created with and the creation time that the parser reads, and with no currency
  -- synchronised, if neither credential holds a newline.
  pub load_token-create_token :
      (now created : Time) (d : Disk) (id username password : Bytes)
      → Lacks b'\n' username
      → Lacks b'\n' password
      → parse_rfc3339 (format_rfc3339 now) ≡ some created
      → (create_token s parse_rfc3339 now d id username password).1 ≡ true
      → (load_token s parse_rfc3339 (after_create now d id username password) id).1
        ≡ some (record {
          id = id;
          username = username;
          password = password;
          created_at = created;
          last_synced = [];
        })
  unfolding midnights load_token create_token serialize
  load_token-create_token now created d id username password u p parsed made =
      let (text, written, same) = create_token_text s parse_rfc3339 now d id username password in
      let wrote : (s.write_file_exclusive d (value_path id) text).1 ≡ true = rw same at made in
      rw same (
        ap (λ r. r.1)
          (load_token_text s parse_rfc3339 _ id text _
            (laws.write_exists d (value_path id) text wrote)
            (laws.write_read d (value_path id) text wrote)
            (deserialize-serialize parse_rfc3339 (fresh now id username password) (zero_token id)
              text (fresh-IsStorable now id username password u p) written parsed)))

  -- The file of a token that was created.
  pub create_token_stored :
      (now : Time) (d : Disk) (id username password : Bytes)
      → (create_token s parse_rfc3339 now d id username password).1 ≡ true
      → (t : Token) × (text : Bytes) × (serialize (some t) ≡ some text)
        × (t.created_at ≡ now)
        × (s.read_file_fully (after_create now d id username password) (value_path id) ≡ some text)
  unfolding create_token create_token_text
  create_token_stored now d id username password made =
      let (text, written, same) = create_token_text s parse_rfc3339 now d id username password in
      let wrote : (s.write_file_exclusive d (value_path id) text).1 ≡ true = rw same at made in
      (
        fresh now id username password,
        text,
        written,
        refl,
        rw same (laws.write_read d (value_path id) text wrote),
      )

  -- A token is not created over one that exists.
  pub create_token_exists :
      (now : Time) (d : Disk) (id username password : Bytes)
      → exists d (value_path id) ≡ some true
      → (create_token s parse_rfc3339 now d id username password).1 ≡ false
  create_token_exists now d id username password h =
      let (text, written, same) = create_token_text s parse_rfc3339 now d id username password in
      rw same (laws.write_fresh d (value_path id) text h)

  -- In a storage that keeps the laws, after a deletion that worked the token is not found, and a
  -- load deletes its leftovers.
  pub load_token-delete_token :
      (d : Disk) (id : Bytes)
      → (delete_token s parse_rfc3339 d id).1 ≡ true
      → let gone = (delete_token s parse_rfc3339 d id).0 in
        load_token s parse_rfc3339 gone id ≡ ((delete gone (token_path id)).0, none)
  unfolding delete_token load_token
  load_token-delete_token d id h = rw (laws.delete_gone d (value_path id) h, hydrate_token)

  pub create_token_made :
      (now : Time) (d : Disk) (id username password : Bytes)
      → (create_token s parse_rfc3339 now d id username password).1 ≡ true
      → exists (after_create now d id username password) (value_path id) ≡ some true
  unfolding create_token serialize new_token
  create_token_made now d id username password h = laws.write_exists d (value_path id) _ h
