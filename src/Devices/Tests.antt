-- ===== src/Devices/Tests.antt =====
-- The devices of one organization with a limit of two devices and two requests in a minute.
use challanse_website.Devices.{
  DeviceRow, Tenant, Registry, EnrollmentCode, consume_device_nonce, authenticate_device,
  accept_nonce, limit_request, count_request, purge, authenticated,
}
use challanse_website.Devices.Enroll.{enroll_device, revoke_device, enroll_found, org_admin}
use challanse_website.Devices.Replay.{Request, run, accepted_once}
use challanse_website.Devices.Limits.{accepted, accepted-le_limit}
use challanse_website.Devices.Windows.{counted}
use challanse_website.Devices.Enrollment.{
  DeviceOp, create_code, enroll, revoke, authenticate, IsWithinLimit, run-IsWithinLimit,
}
use challanse_website.Devices.Enrollment
use challanse_website.Devices.Codes.{code_used_once}
use challanse_website.Devices.Revocation.{revoked_for_good}
use challanse_website.Prelude.{
  ℕ, String, ◌≡◌, refl, true, none, some, List, [], ◌∷◌, arith, ◌≤◌, err,
}

abbrev tenant : Tenant
tenant = record { active = true; device_limit = 2; device_request_limit_per_minute = 2 }

abbrev code : EnrollmentCode
code = record {
  code_hash = "hash";
  organization_id = 1;
  site_id = 2;
  device_name = "gate";
  expires_at = 1000;
  used_at = none;
}

abbrev registry : Registry
registry = record {
  organizations = λ o. some tenant;
  sites = λ s. some (record { organization_id = 1; active = true });
  devices = [];
  nonces = [];
  windows = [];
  codes = code ∷ [];
  next_id = 5;
}

abbrev nonce_hash : ℕ → List ℕ → String
nonce_hash device [] = ""
nonce_hash device (n ∷ ns) = String.◌∷◌ "n" (nonce_hash device ns)

abbrev nonce : List ℕ
nonce = 1 ∷ 2 ∷ 3 ∷ 4 ∷ 5 ∷ 6 ∷ 7 ∷ 8 ∷ 9 ∷ 10 ∷ 11 ∷ 12 ∷ 13 ∷ 14 ∷ 15 ∷ 16 ∷ []

abbrev longer : List ℕ
longer = 0 ∷ nonce

abbrev request_of : List ℕ → Request
request_of n = record {
  device = 5;
  organization = 1;
  timestamp = some 70;
  nonce = n;
  now = 61_000_000;
}

accepted_once_example :
    let first = consume_device_nonce nonce_hash 5 1 (some 70) nonce 61 61_000_000 registry in
    let r = run nonce_hash (request_of longer ∷ []) first.1 in
    consume_device_nonce nonce_hash 5 1 (some 70) nonce 90 90_000_000 r ≡ (err "REPLAY_REJECTED", r)
unfolding consume_device_nonce accept_nonce limit_request count_request purge
accepted_once_example =
    accepted_once nonce_hash 5 1 70 nonce 61_000_000 90_000_000 (request_of longer ∷ []) registry
      refl (omega arith, tt) (omega arith)

abbrev burst : List Request
burst = request_of nonce ∷ request_of longer ∷ request_of (0 ∷ longer) ∷ []

accepted-le_limit_example :
    (accepted nonce_hash 5 burst registry ≤ 2)
    × (counted 5 60_000_000 (run nonce_hash burst registry) ≡ accepted nonce_hash 5 burst registry)
accepted-le_limit_example =
    accepted-le_limit nonce_hash 5 1 60_000_000 tenant burst registry refl (omega arith)
      ((refl, λ e. refl), ((refl, λ e. refl), ((refl, λ e. refl), tt))) refl

abbrev token : List ℕ
token = 1 ∷ 2 ∷ 3 ∷ 4 ∷ 5 ∷ 6 ∷ 7 ∷ 8 ∷ 9 ∷ 10 ∷ 11 ∷ 12 ∷ 13 ∷ 14 ∷ 15 ∷ longer

abbrev token_hash : List ℕ → String
token_hash t = "token"

abbrev ops : List DeviceOp
ops =
    enroll true "hash" "" "1.0" "token" 10
    ∷ create_code org_admin 1 2 "other" "gate" 20
    ∷ enroll true "other" "" "1.0" "token2" 30
    ∷ []

run-IsWithinLimit_example : IsWithinLimit 1 tenant (Enrollment.run ops registry)
run-IsWithinLimit_example = run-IsWithinLimit ops 1 tenant registry (refl, omega arith)

code_used_once_example :
    let r' = Enrollment.run ops (enroll_device true "hash" "" "1.0" "token" 10 registry).1 in
    enroll_device true "hash" "" "1.0" "token3" 40 r' ≡ (err "ENROLLMENT_EXPIRED", r')
unfolding enroll_device enroll_found
code_used_once_example =
    code_used_once "hash" "" "1.0" "token" "" "1.0" "token3" 10 40 5 registry ops refl

abbrev enrolled : Registry
enrolled = record registry {
  devices =
      record {
        id = 3;
        organization_id = 1;
        site_id = 2;
        name = "gate";
        token_hash = "token";
        app_version = "1.0";
        active = true;
        last_seen_at = none;
      }
      ∷ record {
        id = 4;
        organization_id = 1;
        site_id = 2;
        name = "yard";
        token_hash = "token";
        app_version = "1.0";
        active = true;
        last_seen_at = none;
      }
      ∷ [];
}

abbrev yard : DeviceRow
yard = record {
  id = 4;
  organization_id = 1;
  site_id = 2;
  name = "yard";
  token_hash = "token";
  app_version = "1.0";
  active = true;
  last_seen_at = none;
}

revoked_for_good_example : ((yard.id ≡ 3) × (yard.organization_id ≡ 1) × (yard.site_id ≡ 2)) → ⊥
unfolding revoke_device authenticate_device authenticated Enrollment.run Enrollment.step
revoked_for_good_example =
    revoked_for_good org_admin 1 2 3 enrolled [] true token token_hash 50 yard (omega arith) refl
      refl
