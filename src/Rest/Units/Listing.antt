-- ===== src/Rest/Units/Listing.antt =====
-- Which units the tenant handlers list, start and stop (services/bondster-bco-rest/system/system.go
-- under services/bondster-bco-rest/api/tenant.go).
use bondster_bco.Base.{
  ℕ, ◌≡◌, refl, ap, ◌≢◌, false, Option, none, some, List, [], ◌∷◌, ◌++◌, arith, length,
  length-append,
}
use bondster_bco.Base.Text.{Bytes, codes, str_eq_refl, str_eq_ne, strip_prefix, strip_prefix_append}
use bondster_bco.Rest.Tenants.{unit_name}
use bondster_bco.Rest.Units.{UnitEntry, trim_suffix, full_name, shown, shown_name, shown_names}

longer : (c : ℕ) (s suffix : Bytes) → c ∷ s ++ suffix ≢ suffix
longer c s suffix h = omega (arith, ap length h, length-append s suffix)

trim_suffix_append : (suffix s : Bytes) → trim_suffix suffix (s ++ suffix) ≡ s
unfolding trim_suffix
trim_suffix_append [] [] = refl
trim_suffix_append (b ∷ suffix) [] = rw (str_eq_refl suffix) (ground arith)
trim_suffix_append suffix (c ∷ s) =
    rw (str_eq_ne _ suffix (longer c s suffix), trim_suffix_append suffix s) refl

abbrev pub missing : Bytes
missing = codes "not-found"

-- The service of a tenant is listed as the tenant.
pub tenant_shown :
    (u : UnitEntry) (x : Bytes)
    → u.name ≡ full_name (unit_name x)
    → u.load_state ≢ missing
    → shown_name (codes "import@") u ≡ x ∷ []
unfolding shown_name shown
tenant_shown u x e h =
    rw
      (
        e,
        strip_prefix_append (codes "bondster-bco-import@") (x ++ codes ".service"),
        str_eq_ne _ _ h,
        trim_suffix_append (codes ".service") x,
      )
      refl

-- What an answer of systemd says of the tenants: in this order, an entry of the first kind is the
-- service of a tenant, one of the second is of a unit file that is gone, and one of the third is of
-- another name.
pub data Runs : List UnitEntry → List Bytes → Type 0 where
  nothing : Runs [] []
  service :
      {u : UnitEntry} {us : List UnitEntry} {x : Bytes} {ts : List Bytes}
      → u.name ≡ full_name (unit_name x)
      → u.load_state ≢ missing
      → Runs us ts
      → Runs (u ∷ us) (x ∷ ts)
  gone :
      {u : UnitEntry} {us : List UnitEntry} {ts : List Bytes}
      → u.load_state ≡ missing
      → Runs us ts
      → Runs (u ∷ us) ts
  foreign :
      {u : UnitEntry} {us : List UnitEntry} {ts : List Bytes}
      → strip_prefix (codes "bondster-bco-import@") u.name ≡ none
      → Runs us ts
      → Runs (u ∷ us) ts

shown_gone : (o : Option Bytes) → shown o false ≡ []
unfolding shown
shown_gone none = refl
shown_gone (some rest) = refl

gone_shown : (u : UnitEntry) → u.load_state ≡ missing → shown_name (codes "import@") u ≡ []
unfolding shown_name shown
gone_shown u h = rw h (shown_gone _)

foreign_shown :
    (u : UnitEntry)
    → strip_prefix (codes "bondster-bco-import@") u.name ≡ none
    → shown_name (codes "import@") u ≡ []
unfolding shown_name shown
foreign_shown u h = rw h refl

pub Runs-shown :
    {us : List UnitEntry} {ts : List Bytes} → Runs us ts → shown_names (codes "import@") us ≡ ts
unfolding shown_names
Runs-shown nothing = refl
Runs-shown (service {u} {us} {x} {ts} e h r) = rw (tenant_shown u x e h, Runs-shown r) refl
Runs-shown (gone {u} {us} {ts} h r) = rw (gone_shown u h, Runs-shown r) refl
Runs-shown (foreign {u} {us} {ts} h r) = rw (foreign_shown u h, Runs-shown r) refl
