-- ===== src/Rest/Units/Created.antt =====
-- A tenant that is created is listed (services/bondster-bco-rest/system/system.go under
-- services/bondster-bco-rest/api/tenant.go).
use bondster_bco.Base.{◌+◌, ◌≤◌, ◌≡◌, refl, ◌≢◌, some, List, [], ◌∷◌, ◌++◌, arith}
use bondster_bco.Base.Text.{Bytes, codes, str_eq_refl}
use bondster_bco.Base.Sorting.{Sorted, sorted, sorted-Sorted, count_of, count_of-sorted}
use bondster_bco.Rest.{status, tenant_parameter}
use bondster_bco.Rest.Tenants.{unit_name, create_tenant, list_tenants, lines, listed}
use bondster_bco.Rest.Units.{
  UnitEntry, finished, Dbus, full_name, shown_name, shown_names, list_units, listing,
  new_system_control,
}
use bondster_bco.Rest.Units.Listing.{missing, tenant_shown}
use bondster_bco.Rest.Units.Commands.{done, tenant_commands_lem}

-- An answer of systemd has an entry of the unit, whose unit file is there.
pub data Present (name : Bytes) : List UnitEntry → Type 0 where
  here :
      {u : UnitEntry} {us : List UnitEntry}
      → u.name ≡ name
      → u.load_state ≢ missing
      → Present name (u ∷ us)
  there : {u : UnitEntry} {us : List UnitEntry} → Present name us → Present name (u ∷ us)

count_of-append :
    (x : Bytes) (ys zs : List Bytes) → count_of x (ys ++ zs) ≡ count_of x ys + count_of x zs
count_of-append x [] zs = omega arith
count_of-append x (y ∷ ys) zs = ground (arith, count_of-append x ys zs)

Present-shown :
    (x : Bytes) {us : List UnitEntry}
    → Present (full_name (unit_name x)) us
    → 1 ≤ count_of x (shown_names (codes "import@") us)
unfolding shown_names
Present-shown x (here {u} {us} e h) = rw (tenant_shown u x e h, str_eq_refl x) (omega arith)
Present-shown x (there {u} {us} p) =
    let ih = Present-shown x p in
    let c = count_of-append x (shown_name (codes "import@") u) (shown_names (codes "import@") us) in
    omega (arith, c, ih)

-- Where a unit whose start job was reported as done is among the units that systemd then answers
-- with, its unit file there: after a tenant was created with status 200, the list of tenants, if
-- systemd answers, is written in the order of the names and has the tenant.
pub created_tenant_listed :
    (d : Dbus)
    → ((m1 m2 : d.Manager) (name : Bytes) (us : List UnitEntry)
        → d.start_unit m1 name ≡ (m2, finished done)
        → d.list_units m2 ≡ some us
        → Present name us)
    → (m : d.Manager) (raw : Bytes) (m' : d.Manager) {x : Bytes} {us : List UnitEntry}
    → tenant_parameter raw ≡ some x
    → create_tenant (new_system_control d) m raw ≡ (m', status 200 [])
    → d.list_units m' ≡ some us
    → (ns : List Bytes) × (list_tenants (new_system_control d) m' ≡ status 200 (lines ns))
      × Sorted ns
      × (1 ≤ count_of x ns)
unfolding list_tenants listed list_units listing
created_tenant_listed d loaded m raw m' {x} {us} p h e =
    let ((ok, _), _) = tenant_commands_lem d m raw m' p in
    let s = ok h in
    let shown = Present-shown x (loaded s.between m' (full_name (unit_name x)) us s.job e) in
    let names = shown_names (codes "import@") us in
    (sorted names, rw e refl, sorted-Sorted names, omega (arith, count_of-sorted x names, shown))
