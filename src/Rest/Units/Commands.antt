-- ===== src/Rest/Units/Commands.antt =====
-- When a tenant's service is reported as started or stopped
-- (services/bondster-bco-rest/system/system.go under services/bondster-bco-rest/api/tenant.go).
use bondster_bco.Base.{◌≡◌, refl, ◌↔◌, Bool, true, false, some, [], arith}
use bondster_bco.Base.Text.{Bytes, codes, eq_of_str_eq}
use bondster_bco.Rest.{Written, status, tenant_parameter}
use bondster_bco.Rest.Tenants.{
  unit_name, create_tenant, create_for, delete_tenant, delete_for, done_status,
}
use bondster_bco.Rest.Units.{
  Job, refused, finished, unfinished, Dbus, full_name, enable_unit, start_enabled, started_with,
  started, disable_unit, stopped_with, stopped, new_system_control,
}

abbrev pub done : Bytes
done = codes "done"

done_status_ok : (b : Bool) → done_status b ≡ status 200 [] → b ≡ true
unfolding done_status
done_status_ok true h = refl
done_status_ok false h = cc

module _ (d : Dbus) where
  -- systemd has enabled the unit and reported that the start job is done.
  pub record Started (m : d.Manager) (name : Bytes) (m' : d.Manager) : Type 0 where
    pub between : d.Manager
    pub enabled : d.enable_unit_files m name ≡ (between, true)
    pub job : d.start_unit between name ≡ (m', finished done)

  -- systemd has reported that the stop job is done and disabled the unit.
  pub record Stopped (m : d.Manager) (name : Bytes) (m' : d.Manager) : Type 0 where
    pub between : d.Manager
    pub job : d.stop_unit m name ≡ (between, finished done)
    pub disabled : d.disable_unit_files between name ≡ (m', true)

  started_ok :
      (p : d.Manager × Job) (m' : d.Manager)
      → started_with d p ≡ (m', true)
      → p ≡ (m', finished done)
  unfolding started_with started
  started_ok (m, refused) m' h = cc
  started_ok (m, unfinished) m' h = cc
  started_ok (m, finished result) m' h = ground (arith, eq_of_str_eq result done)

  start_enabled_ok :
      (m : d.Manager) (name : Bytes) (p : d.Manager × Bool) (m' : d.Manager)
      → d.enable_unit_files m name ≡ p
      → start_enabled d name p ≡ (m', true)
      → Started m name m'
  unfolding start_enabled
  start_enabled_ok m name (between, false) m' e h = cc
  start_enabled_ok m name (between, true) m' e h = record {
    between = between;
    enabled = e;
    job = started_ok _ m' h;
  }

  enable_unit_lem :
      (m : d.Manager) (name : Bytes) (m' : d.Manager)
      → (enable_unit d m name ≡ (m', true)) ↔ Started m (full_name name) m'
  unfolding enable_unit start_enabled started_with started
  enable_unit_lem m name m' =
      (λ h. start_enabled_ok m (full_name name) _ m' refl h, λ s. rw (s.enabled, s.job) refl)

  Stopped-ok :
      (m : d.Manager) (name : Bytes) (p : d.Manager × Job) (m' : d.Manager)
      → d.stop_unit m name ≡ p
      → stopped_with d name p ≡ (m', true)
      → Stopped m name m'
  unfolding stopped_with stopped
  Stopped-ok m name (between, refused) m' e h = cc
  Stopped-ok m name (between, unfinished) m' e h = cc
  Stopped-ok m name (between, finished result) m' e h = record {
    between = between;
    job = ground (arith, eq_of_str_eq result done);
    disabled = ground arith;
  }

  disable_unit_lem :
      (m : d.Manager) (name : Bytes) (m' : d.Manager)
      → (disable_unit d m name ≡ (m', true)) ↔ Stopped m (full_name name) m'
  unfolding disable_unit stopped_with stopped
  disable_unit_lem m name m' =
      (λ h. Stopped-ok m (full_name name) _ m' refl h, λ s. rw (s.job, s.disabled) refl)

  answered :
      (p : d.Manager × Bool) (m' : d.Manager)
      → ◌≡◌ {A = d.Manager × Written} (p.0, done_status p.1) (m', status 200 []) ↔ (p ≡ (m', true))
  unfolding done_status
  answered (m, true) m' = (λ h. cc, λ h. cc)
  answered (m, false) m' = (λ h. cc, λ h. cc)

  -- A tenant that is read off the path is created with status 200 exactly when systemd has enabled
  -- the unit `bondster-bco-import@` with the tenant's name, and then reported that the job that starts it is done; and
  -- deleted with status 200 exactly when systemd has reported that the job that stops this unit is
  -- done, and then disabled it.
  pub tenant_commands_lem :
      (m : d.Manager) (raw : Bytes) (m' : d.Manager) {x : Bytes}
      → tenant_parameter raw ≡ some x
      → ((create_tenant (new_system_control d) m raw ≡ (m', status 200 []))
          ↔ Started m (full_name (unit_name x)) m')
        × ((delete_tenant (new_system_control d) m raw ≡ (m', status 200 []))
            ↔ Stopped m (full_name (unit_name x)) m')
  unfolding create_tenant create_for delete_tenant delete_for
  tenant_commands_lem m raw m' {x} h =
      let (c, c') = answered (enable_unit d m (unit_name x)) m' in
      let (e, e') = enable_unit_lem m (unit_name x) m' in
      let (s, s') = answered (disable_unit d m (unit_name x)) m' in
      let (q, q') = disable_unit_lem m (unit_name x) m' in
      rw h ((λ p. e (c p), λ p. c' (e' p)), (λ p. q (s p), λ p. s' (q' p)))
