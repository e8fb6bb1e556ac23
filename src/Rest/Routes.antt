-- ===== src/Rest/Routes.antt =====
-- services/bondster-bco-rest/api/server.go: the routes that NewServer registers, and the handler
-- that is called for each. Which route a request takes is up to the web framework: a router is a
-- parameter, with what the framework documents of it.
pub mod Unique
use bondster_bco.Base.{
  ℕ, ◌≡◌, ◌≢◌, Bool, true, false, Option, none, some, List, [], ◌∷◌, ◌==◌, ◌&&◌, ◌||◌,
  if◌then◌else◌, All,
}
use bondster_bco.Base.Text.{Bytes, codes, str_eq, split}
use bondster_bco.Calendar.{Time}
use bondster_bco.Json.{Json}
use bondster_bco.Storage.{Storage}
use bondster_bco.Rest.{Written, status}
use bondster_bco.Rest.Relay.{Sent}
use bondster_bco.Rest.Tokens.{
  handle_create_token, handle_delete_token, handle_synchronize_token, handle_get_tokens,
}
use bondster_bco.Rest.Tenants
use bondster_bco.Rest.Tenants.{Control}
use bondster_bco.Rest.Monitors
use bondster_bco.Rest.Monitors.{Monitor, Status}

pub data Method : Type 0 where
  get head post delete : Method

pub data Handler : Type 0 where
  health_check health_check_ping : Handler
  list_tenants create_tenant delete_tenant : Handler
  synchronize_token delete_token create_token get_tokens : Handler

pub record Route : Type 0 where
  pub method : Method
  pub pattern : Bytes
  pub handler : Handler

abbrev route : Method → Bytes → Handler → Route
route m p h = record { method = m; pattern = p; handler = h }

abbrev pub routes : List Route
routes =
    route get (codes "/health") Handler.health_check
    ∷ route head (codes "/health") Handler.health_check_ping
    ∷ route get (codes "/tenant") Handler.list_tenants
    ∷ route post (codes "/tenant/:tenant") Handler.create_tenant
    ∷ route delete (codes "/tenant/:tenant") Handler.delete_tenant
    ∷ route get (codes "/token/:tenant/:id/sync") Handler.synchronize_token
    ∷ route delete (codes "/token/:tenant/:id") Handler.delete_token
    ∷ route post (codes "/token/:tenant") Handler.create_token
    ∷ route get (codes "/token/:tenant") Handler.get_tokens
    ∷ []

abbrev pub Segments : Type 0
Segments = List Bytes

unfoldable pub is_parameter : Bytes → Bool
is_parameter [] = false
is_parameter (c ∷ p) = c == b':'

-- A segment with a colon stands for any one segment of the path.
unfoldable pub fits_segment : Bytes → Bytes → Bool
fits_segment p s = is_parameter p || str_eq p s

unfoldable pub fits : Segments → Segments → Bool
fits [] [] = true
fits [] (s ∷ ss) = false
fits (p ∷ ps) [] = false
fits (p ∷ ps) (s ∷ ss) = fits_segment p s && fits ps ss

-- The segment of the path that stands where the pattern has the parameter.
unfoldable pub captured : Bytes → Segments → Segments → Bytes
captured name [] ss = []
captured name (p ∷ ps) [] = []
captured name (p ∷ ps) (s ∷ ss) =
    let rest = captured name ps ss in if str_eq p (b':' ∷ name) then s else rest

-- What a router finds: a route, and the value of a parameter by its name.
pub record Found : Type 0 where
  pub route : Route
  pub param : Bytes → Bytes

abbrev pub Router : Type 0
Router = Method → Bytes → Option Found

pub data Answer : Type 0 where
  written : Written → Answer
  health : ℕ → Status → Answer

-- `relay` is the name of the relay of the request, and `id` the ID that is drawn for it.
pub record Request : Type 0 where
  pub method : Method
  pub path : Bytes
  pub body : Option Json
  pub relay : Bytes
  pub id : Bytes

-- What the handlers work on.
pub record Service (c : Control) (s : Storage) : Type 0 where
  pub units : c.Units
  pub disk : s.Disk
  pub memory_monitor : Monitor
  pub disk_monitor : Monitor

module _ (exchange : Sent → Option Bytes) (c : Control) (s : Storage)
    (parse_rfc3339 : Bytes → Option Time) (marshal : Bytes → Option Bytes) where
  abbrev tenant_of : (Bytes → Bytes) → Bytes
  tenant_of param = param (codes "tenant")

  abbrev id_of : (Bytes → Bytes) → Bytes
  id_of param = param (codes "id")

  -- One handler, on the parameters that the router has found.
  unfoldable pub handle : Handler → (Bytes → Bytes) → Request → Service c s → c.Units × Answer
  handle Handler.health_check param r v =
      let (code, value) = Monitors.health_check v.memory_monitor v.disk_monitor in
      (v.units, health code value)
  handle Handler.health_check_ping param r v =
      (v.units, written (Monitors.health_check_ping v.memory_monitor v.disk_monitor))
  handle Handler.list_tenants param r v = (v.units, written (Tenants.list_tenants c v.units))
  handle Handler.create_tenant param r v =
      let (u, w) = Tenants.create_tenant c v.units (tenant_of param) in (u, written w)
  handle Handler.delete_tenant param r v =
      let (u, w) = Tenants.delete_tenant c v.units (tenant_of param) in (u, written w)
  handle Handler.synchronize_token param r v =
      (v.units, written (handle_synchronize_token exchange r.relay (tenant_of param) (id_of param)))
  handle Handler.delete_token param r v =
      (v.units, written (handle_delete_token exchange r.relay (tenant_of param) (id_of param)))
  handle Handler.create_token param r v =
      (v.units, written (handle_create_token exchange r.relay r.id (tenant_of param) r.body))
  handle Handler.get_tokens param r v =
      (v.units, written (handle_get_tokens s parse_rfc3339 marshal v.disk (tenant_of param)))

  dispatch : Option Found → Request → Service c s → Option (c.Units × Answer)
  dispatch none r v = none
  dispatch (some found) r v = some (handle found.route.handler found.param r v)

  -- A request, none where the framework answers it by itself.
  unfoldable pub serve : Router → Request → Service c s → Option (c.Units × Answer)
  unfolding dispatch
  serve router r v = dispatch (router r.method r.path) r v
