-- ===== src/Rest/Tenants.antt =====
-- services/bondster-bco-rest/api/tenant.go. The systemd units are a parameter.
use bondster_bco.Base.{Bool, true, false, Option, none, some, List, [], ◌∷◌, ◌++◌}
use bondster_bco.Base.Text.{Bytes, codes}
use bondster_bco.Rest.{Written, status, error, tenant_parameter}

-- `system.Control`: a state, and operations that tell whether no error is returned.
pub record Control : Type 1 where
  pub Units : Type 0
  pub enable_unit : Units → Bytes → Units × Bool
  pub disable_unit : Units → Bytes → Units × Bool
  pub list_units : Units → Bytes → Option (List Bytes)

abbrev pub unit_name : Bytes → Bytes
unit_name tenant = codes "import@" ++ (tenant ++ codes ".service")

unfoldable pub done_status : Bool → Written
done_status true = status 200 []
done_status false = error

pub lines : List Bytes → Bytes
lines [] = []
lines (u ∷ []) = u
lines (u ∷ w ∷ rest) = u ++ b'\n' ∷ lines (w ∷ rest)

unfoldable pub listed : Option (List Bytes) → Written
unfolding lines
listed none = error
listed (some units) = status 200 (lines units)

module _ (c : Control) where
  unfoldable pub create_for : c.Units → Option Bytes → c.Units × Written
  unfolding done_status
  create_for u none = (u, status 404 [])
  create_for u (some tenant) =
      let (u', done) = c.enable_unit u (unit_name tenant) in (u', done_status done)

  unfoldable pub create_tenant : c.Units → Bytes → c.Units × Written
  unfolding create_for
  create_tenant u tenant = create_for u (tenant_parameter tenant)

  unfoldable pub delete_for : c.Units → Option Bytes → c.Units × Written
  unfolding done_status
  delete_for u none = (u, status 404 [])
  delete_for u (some tenant) =
      let (u', done) = c.disable_unit u (unit_name tenant) in (u', done_status done)

  unfoldable pub delete_tenant : c.Units → Bytes → c.Units × Written
  unfolding delete_for
  delete_tenant u tenant = delete_for u (tenant_parameter tenant)

  unfoldable pub list_tenants : c.Units → Written
  unfolding listed
  list_tenants u = listed (c.list_units u (codes "import@"))
