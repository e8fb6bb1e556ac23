-- ===== src/Environment/Shared.antt =====
-- What the two services agree on by their environments (config/config.go of both, with
-- services/bondster-bco-rest/persistence/token.go and
-- services/bondster-bco-import/persistence/token.go), and how a setting is read.
use bondster_bco.Base.{
  ℕ, ◌<◌, ◌^◌, ◌≡◌, ◌≢◌, refl, ap, Option, some, [], ◌∷◌, ◌++◌, append_assoc, All,
}
use bondster_bco.Base.Text.{Bytes, codes}
use bondster_bco.Base.Decimal.{format_uint, parse_uint, parse_uint-format_uint}
use bondster_bco.Utils.{hex_digits}
use bondster_bco.Utils.Identifiers.{IsByte, decode_string-hex_digits}
use bondster_bco.Persistence.{tokens_path, value_path}
use bondster_bco.Rest.Tokens.{import_path}
use bondster_bco.Environment.{
  get, non_empty, or_else, read_with, key_of, string, uint64, hex_file, load_import_config,
  load_rest_config,
}

string-empty : (g : Bytes → Bytes) (key : Bytes) → string g key [] ≡ g key
unfolding string get
string-empty g key = or_empty (g key)
  where
    or_empty : (s : Bytes) → or_else [] (non_empty s) ≡ s
    or_empty [] = refl
    or_empty (c ∷ s) = refl

string_same :
    (g g' : Bytes → Bytes) (key fallback : Bytes)
    → g key ≡ g' key
    → string g key fallback ≡ string g' key fallback
unfolding string get
string_same g g' key fallback h = ap (λ v. or_else fallback (non_empty v)) h

hex_file_same :
    (g g' : Bytes → Bytes) (read_file : Bytes → Option Bytes) (key fallback : Bytes)
    → g key ≡ g' key
    → hex_file g read_file key fallback ≡ hex_file g' read_file key fallback
unfolding hex_file get
hex_file_same g g' read_file key fallback h =
    ap (λ v. read_with (λ path. key_of (read_file path)) fallback (non_empty v)) h

-- A path below the root of an import service is the path below the root of the REST service.
below_root :
    (root t rest : Bytes)
    → root ++ (codes "/" ++ (import_path t ++ rest))
      ≡ (root ++ (codes "/t_" ++ (t ++ codes "/import/bondster"))) ++ (codes "/token" ++ rest)
below_root root t rest = simp append_assoc refl

directory_below :
    (root t : Bytes)
    → root ++ (codes "/" ++ import_path t)
      ≡ (root ++ (codes "/t_" ++ (t ++ codes "/import/bondster"))) ++ codes "/token"
directory_below root t = simp append_assoc refl

-- An import service and a REST service whose environments agree on the storage and on the file of
-- the key: both use the same key, and under the import service's tenant the REST service looks for
-- the directory of the tokens, and for the value of any token, where the import service keeps them.
pub configurations_meet :
    (g g' : Bytes → Bytes) (read_file : Bytes → Option Bytes) (parse_duration : Bytes → Option ℕ)
    (id : Bytes)
    → g' (codes "BONDSTER_BCO_STORAGE") ≡ g (codes "BONDSTER_BCO_STORAGE")
    → g' (codes "BONDSTER_BCO_ENCRYPTION_KEY") ≡ g (codes "BONDSTER_BCO_ENCRYPTION_KEY")
    → ((load_rest_config g' read_file).encryption_key
        ≡ (load_import_config g read_file parse_duration).encryption_key)
      × ((load_rest_config g' read_file).root_storage
            ++ (codes "/" ++ import_path (load_import_config g read_file parse_duration).tenant)
          ≡ (load_import_config g read_file parse_duration).root_storage
            ++ (codes "/" ++ tokens_path))
      × ((load_rest_config g' read_file).root_storage
            ++ (codes "/"
                ++ (import_path (load_import_config g read_file parse_duration).tenant
                    ++ (codes "/" ++ (id ++ codes "/value"))))
          ≡ (load_import_config g read_file parse_duration).root_storage
            ++ (codes "/" ++ value_path id))
unfolding load_rest_config load_import_config
configurations_meet g g' read_file parse_duration id h k =
    let root = string g (codes "BONDSTER_BCO_STORAGE") (codes "/data") in
    let tenant = string g (codes "BONDSTER_BCO_TENANT") [] in
    let same = string_same g' g (codes "BONDSTER_BCO_STORAGE") (codes "/data") h in
    (
      hex_file_same g' g read_file (codes "BONDSTER_BCO_ENCRYPTION_KEY") [] k,
      rw same (directory_below root tenant),
      rw same (below_root root tenant (codes "/" ++ (id ++ codes "/value"))),
    )

-- A setting whose text is read as `a`.
read_with_lem {ℓ} :
    {A : Type ℓ} (parse : Bytes → Option A) (fallback a : A) (s : Bytes)
    → s ≢ []
    → parse s ≡ some a
    → read_with parse fallback (non_empty s) ≡ a
unfolding read_with non_empty or_else
read_with_lem parse fallback a [] ne h = absurd (ne refl)
read_with_lem parse fallback a (c ∷ s) ne h = rw h refl

format_uint-nonempty : (n : ℕ) → n < 2 ^ 64 → format_uint n ≢ []
unfolding parse_uint
format_uint-nonempty n h e = cc (ap parse_uint e, parse_uint-format_uint n h)

printed : (n : ℕ) → n < 2 ^ 64 → read_with parse_uint 0 (non_empty (format_uint n)) ≡ n
printed n h =
    read_with_lem parse_uint 0 n (format_uint n) (format_uint-nonempty n h)
      (parse_uint-format_uint n h)

key_of_lem :
    (file : Option Bytes) (b : ℕ) (bs : Bytes)
    → All IsByte (b ∷ bs)
    → file ≡ some (hex_digits (b ∷ bs))
    → key_of file ≡ some (b ∷ bs)
unfolding key_of hex_digits
key_of_lem file b bs h e = rw e (decode_string-hex_digits (b ∷ bs) h)

-- Where the environment holds the printed numbers of 64 bits `n` and `m` as the least free space of
-- the disk and of the memory, and names a file that has the hexadecimal digits of the bytes of a key
-- of at least one byte, the configuration of the REST service has `n`, `m` and the key.
pub load_rest_config_lem :
    (g : Bytes → Bytes) (read_file : Bytes → Option Bytes) (n m b : ℕ) (bs : Bytes)
    → n < 2 ^ 64
    → m < 2 ^ 64
    → All IsByte (b ∷ bs)
    → g (codes "BONDSTER_BCO_STORAGE_THRESHOLD") ≡ format_uint n
    → g (codes "BONDSTER_BCO_MEMORY_THRESHOLD") ≡ format_uint m
    → g (codes "BONDSTER_BCO_ENCRYPTION_KEY") ≢ []
    → read_file (g (codes "BONDSTER_BCO_ENCRYPTION_KEY")) ≡ some (hex_digits (b ∷ bs))
    → ((load_rest_config g read_file).min_free_disk_space ≡ n)
      × ((load_rest_config g read_file).min_free_memory ≡ m)
      × ((load_rest_config g read_file).encryption_key ≡ b ∷ bs)
unfolding load_rest_config uint64 hex_file get
load_rest_config_lem g read_file n m b bs hn hm hb en em ne ef = (
  rw en (printed n hn),
  rw em (printed m hm),
  read_with_lem (λ path. key_of (read_file path)) [] (b ∷ bs) _ ne (key_of_lem _ b bs hb ef),
)
