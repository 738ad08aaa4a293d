-- ===== src/Devices.antt =====
-- The devices of a site: `authenticate_device` and `consume_device_nonce` of
-- services/enrichment/app/authoritative.py. Each runs in one transaction, and a raise rolls back what
-- it wrote. The enrollment is in the module `Enroll`.
pub mod Enroll
pub mod Nonces
pub mod Replay
pub mod Windows
pub mod Limits
pub mod Enrollment
pub mod Revocation
pub mod Codes
mod Tests
use challanse_website.Prelude.{
  ℕ, String, Bool, true, false, not, Option, none, some, List, [], ◌∷◌, ◌++◌, ◌+◌, ◌-◌, ◌*◌, ◌%◌,
  ◌&&◌, ◌||◌, ltb, leb, nat_beq, ◌==◌, is_some, length, find?, select, update, delete, exists_in,
  ok, err, Action, rollback, if◌then◌else◌, nat_eq, string_eq,
}

-- A row of `devices`.
pub record DeviceRow : Type 0 where
  pub id : ℕ
  pub organization_id : ℕ
  pub site_id : ℕ
  pub name : String
  pub token_hash : String
  pub app_version : String
  pub active : Bool
  pub last_seen_at : Option ℕ

pub record NonceRow : Type 0 where
  pub nonce_hash : String
  pub device_id : ℕ
  pub expires_at : ℕ

-- A row of `device_rate_limit_windows`.
pub record RateWindow : Type 0 where
  pub device_id : ℕ
  pub window_started_at : ℕ
  pub request_count : ℕ

pub record EnrollmentCode : Type 0 where
  pub code_hash : String
  pub organization_id : ℕ
  pub site_id : ℕ
  pub device_name : String
  pub expires_at : ℕ
  pub used_at : Option ℕ

-- The columns of `organizations` that the functions read.
pub record Tenant : Type 0 where
  pub active : Bool
  pub device_limit : ℕ
  pub device_request_limit_per_minute : ℕ

pub record TenantSite : Type 0 where
  pub organization_id : ℕ
  pub active : Bool

pub record Registry : Type 0 where
  pub organizations : ℕ → Option Tenant
  pub sites : ℕ → Option TenantSite
  pub devices : List DeviceRow
  pub nonces : List NonceRow
  pub windows : List RateWindow
  pub codes : List EnrollmentCode
  pub next_id : ℕ

abbrev pub minute : ℕ
minute = 60_000_000

-- The organization, if it is active.
abbrev pub active_tenant : Option Tenant → Option Tenant
active_tenant none = none
active_tenant (some o) = if o.active then some o else none

-- The site is active and belongs to the organization.
abbrev pub site_active : ℕ → Option TenantSite → Bool
site_active organization none = false
site_active organization (some s) = s.organization_id == organization && s.active

-- The joins on an active organization and its active site.
abbrev pub scope_active : Registry → ℕ → ℕ → Bool
scope_active r organization site =
    is_some (active_tenant (r.organizations organization))
    && site_active organization (r.sites site)

abbrev seen : ℕ → ℕ → Registry → Registry
seen id now r = record r {
  devices = update (λ d. d.id == id) (λ d. record d { last_seen_at = some now }) r.devices;
}

authenticated : ℕ → Option DeviceRow → Action Registry DeviceRow
authenticated now none r = (err "DEVICE_UNAUTHORIZED", r)
authenticated now (some d) r = (ok d, seen d.id now r)

-- `token` is what follows "Bearer " in the header, if it begins so; its hash is the pepper's.
unfoldable pub authenticate_device :
    Bool → Option (List ℕ) → (List ℕ → String) → ℕ → Action Registry DeviceRow
unfolding authenticated
authenticate_device has_pepper none token_hash now r = (err "DEVICE_UNAUTHORIZED", r)
authenticate_device has_pepper (some token) token_hash now r =
    if not has_pepper || ltb (length token) 32
    then (err "DEVICE_UNAUTHORIZED", r)
    else authenticated now
        (find?
          (λ d.
            d.token_hash == token_hash token
            && d.active
            && scope_active r d.organization_id d.site_id)
          r.devices)
        r

-- `date_trunc('minute', …)`
abbrev pub trunc_minute : ℕ → ℕ
trunc_minute now = now - now % minute

abbrev pub in_window : ℕ → ℕ → RateWindow → Bool
in_window device now w = w.device_id == device && w.window_started_at == trunc_minute now

-- What two statements delete: nonces that expired and windows older than ten minutes.
unfoldable pub purge : ℕ → Registry → Registry
purge now r = record r {
  nonces = delete (λ n. ltb n.expires_at now) r.nonces;
  windows = delete (λ w. ltb (w.window_started_at + 10 * minute) now) r.windows;
}

-- `INSERT … ON CONFLICT DO UPDATE … WHERE request_count < limit RETURNING request_count`
unfoldable pub count_request : ℕ → ℕ → ℕ → Option RateWindow → Action Registry (Unit {0})
count_request device limit now none r = (
  ok tt,
  record r {
    windows =
        r.windows
        ++ record { device_id = device; window_started_at = trunc_minute now; request_count = 1 }
          ∷ [];
  },
)
count_request device limit now (some w) r =
    if ltb w.request_count limit
    then (
      ok tt,
      record r {
        windows =
            update (in_window device now) (λ w. record w { request_count = w.request_count + 1 })
              r.windows;
      },
    )
    else (err "DEVICE_RATE_LIMITED", r)

unfoldable pub limit_request : ℕ → ℕ → Option Tenant → Action Registry (Unit {0})
unfolding count_request
limit_request device now none r = (err "ORGANIZATION_INACTIVE", r)
limit_request device now (some o) r =
    count_request device o.device_request_limit_per_minute now
      (find? (in_window device now) r.windows) r

abbrev pub add_nonce : String → ℕ → ℕ → Registry → Registry
add_nonce hash device now r = record r {
  nonces =
      r.nonces
      ++ record { nonce_hash = hash; device_id = device; expires_at = now + 10 * minute } ∷ [];
}

-- The transaction; every raise in it rolls back.
unfoldable pub accept_nonce : ℕ → ℕ → String → ℕ → Action Registry (Unit {0})
unfolding limit_request
accept_nonce device organization hash now r =
    let start = purge now r in
    if exists_in (λ n. n.nonce_hash == hash) start.nonces
    then (err "REPLAY_REJECTED", r)
    else rollback r (
        limit_request device now (active_tenant (r.organizations organization))
          (add_nonce hash device now start))

abbrev pub distance : ℕ → ℕ → ℕ
distance a b = (a - b) + (b - a)

-- `timestamp` is the number that the header holds, if it is one: a negative one is not within a
-- minute of any time. `seconds` is the time of the program, `now` that of the database.
unfoldable pub consume_device_nonce :
    (ℕ → List ℕ → String) → ℕ → ℕ → Option ℕ → List ℕ → ℕ → ℕ → Action Registry (Unit {0})
unfolding accept_nonce
consume_device_nonce nonce_hash device organization none nonce seconds now r =
    (err "REPLAY_REJECTED", r)
consume_device_nonce nonce_hash device organization (some timestamp) nonce seconds now r =
    if ltb 60 (distance seconds timestamp) || ltb (length nonce) 16 || ltb 128 (length nonce)
    then (err "REPLAY_REJECTED", r)
    else accept_nonce device organization (nonce_hash device nonce) now r
