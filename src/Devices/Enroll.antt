-- ===== src/Devices/Enroll.antt =====
-- Enrollment: `enroll_device`, `create_enrollment_code` and `revoke_device` of
-- services/enrichment/app/authoritative.py.
use challanse_website.Prelude.{
  ℕ, String, Bool, true, false, not, Option, none, some, List, [], ◌∷◌, ◌++◌, ◌+◌, ◌*◌, ◌&&◌, ◌||◌,
  ltb, leb, nat_beq, ◌==◌, is_some, length, find?, select, update, exists_in, ok, err, Action,
  if◌then◌else◌, nat_eq, string_eq,
}
use challanse_website.Devices.{
  DeviceRow, EnrollmentCode, Registry, Tenant, active_tenant, minute, scope_active,
}

abbrev pub count_active : ℕ → List DeviceRow → ℕ
count_active organization rows =
    length (select (λ d. d.organization_id == organization && d.active) rows)

abbrev pub usable_code : String → ℕ → Registry → EnrollmentCode → Bool
usable_code hash now r e =
    e.code_hash == hash
    && not (is_some e.used_at)
    && ltb now e.expires_at
    && scope_active r e.organization_id e.site_id

-- `request.device_name or enrollment["device_name"]`
abbrev name_or : String → String → String
name_or name default = if name == "" then default else name

abbrev pub new_device : EnrollmentCode → String → String → String → ℕ → DeviceRow
new_device e name app_version token_hash id = record {
  id = id;
  organization_id = e.organization_id;
  site_id = e.site_id;
  name = name_or name e.device_name;
  token_hash = token_hash;
  app_version = app_version;
  active = true;
  last_seen_at = none;
}

abbrev pub use_code : String → ℕ → List EnrollmentCode → List EnrollmentCode
use_code hash now rows =
    update (λ e. e.code_hash == hash && not (is_some e.used_at))
      (λ e. record e { used_at = some now }) rows

unfoldable pub enroll_found :
    String
    → String
    → String
    → String
    → ℕ
    → Option EnrollmentCode
    → Option Tenant
    → Action Registry ℕ
enroll_found hash name app_version token_hash now none o r = (err "ENROLLMENT_EXPIRED", r)
enroll_found hash name app_version token_hash now (some e) none r = (err "ENROLLMENT_EXPIRED", r)
enroll_found hash name app_version token_hash now (some e) (some o) r =
    if leb o.device_limit (count_active e.organization_id r.devices)
    then (err "DEVICE_LIMIT", r)
    else (
      ok r.next_id,
      record r {
        devices = r.devices ++ new_device e name app_version token_hash r.next_id ∷ [];
        codes = use_code hash now r.codes;
        next_id = r.next_id + 1;
      },
    )

abbrev pub tenant_of : Registry → Option EnrollmentCode → Option Tenant
tenant_of r none = none
tenant_of r (some e) = active_tenant (r.organizations e.organization_id)

-- `token_hash` is that of the token that is drawn. The row of the code is locked, so the update of
-- `used_at` cannot miss it.
unfoldable pub enroll_device : Bool → String → String → String → String → ℕ → Action Registry ℕ
unfolding enroll_found
enroll_device has_pepper hash name app_version token_hash now r =
    if not has_pepper
    then (err "DEVICE_ENROLLMENT_UNCONFIGURED", r)
    else let found = find? (usable_code hash now r) r.codes in
      enroll_found hash name app_version token_hash now found (tenant_of r found) r

-- The codes of the table `roles`.
pub data Role : Type 0 where
  org_admin site_admin controller reviewer auditor : Role

abbrev role_code : Role → ℕ
role_code org_admin = 0
role_code site_admin = 1
role_code controller = 2
role_code reviewer = 3
role_code auditor = 4

abbrev pub role_beq : Role → Role → Bool
role_beq a b = nat_beq (role_code a) (role_code b)

abbrev pub own_device : ℕ → ℕ → ℕ → DeviceRow → Bool
own_device organization site id d =
    d.id == id && d.organization_id == organization && d.site_id == site && d.active

unfoldable pub revoke_device : Role → ℕ → ℕ → ℕ → Action Registry (Unit {0})
revoke_device role organization site id r =
    if role_beq role org_admin || role_beq role site_admin
    then (
      (if exists_in (own_device organization site id) r.devices
          then ok tt
          else err "DEVICE_NOT_FOUND"),
      record r {
        devices =
            update (own_device organization site id) (λ d. record d { active = false }) r.devices;
      },
    )
    else (err "ADMIN_REQUIRED", r)

-- `code_hash` is that of the code that is drawn, which the table does not hold yet.
unfoldable pub create_enrollment_code :
    Role → ℕ → ℕ → String → String → ℕ → Action Registry (Unit {0})
create_enrollment_code role organization site code_hash device_name now r =
    if role_beq role org_admin || role_beq role site_admin
    then if exists_in (λ e. e.code_hash == code_hash) r.codes then (err "UniqueViolation", r) else (
      ok tt,
      record r {
        codes =
            r.codes
            ++ record {
              code_hash = code_hash;
              organization_id = organization;
              site_id = site;
              device_name = device_name;
              expires_at = now + 10 * minute;
              used_at = none;
            }
              ∷ [];
      },
    )
    else (err "ADMIN_REQUIRED", r)
