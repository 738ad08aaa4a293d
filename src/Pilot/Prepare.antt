-- ===== src/Pilot/Prepare.antt =====
-- The preparation of the pilot: `ClientPilotConfiguration` and `prepare_client_configuration` of
-- services/enrichment/app/pilot_control.py, with `bootstrap_tenant` of services/enrichment/app/bootstrap.py.
use Prim.Native.Char.{code}
use challanse_website.Pilot.{
  Control, PilotOrganization, PilotUser, PilotAudit, Pilot, PilotTexts, synthetic_organization,
  mode_of, is_synthetic, delete_organizations,
}
use challanse_website.Prelude.{
  ℕ, String, Bool, true, false, not, Option, none, some, List, [], ◌∷◌, ◌++◌, ◌+◌, ◌&&◌, ◌||◌, ◌==◌,
  ◌!=◌, is_some, find?, select, update, exists_in, length, map, Result, ok, err, Action,
  if◌then◌else◌, nat_eq, string_eq,
}

pub data ClientRole : Type 0 where
  pilot_controller pilot_reviewer : ClientRole

pub record ClientReviewer : Type 0 where
  pub email : String
  pub role : ClientRole

-- `ClientPilotConfiguration`, the fields that the preparation branches on. `tenant_valid` says whether
-- pydantic accepts the other fields also as those of `TenantBootstrap`, whose bounds differ.
pub record Configuration : Type 0 where
  pub organization_id : ℕ
  pub organization_slug : String
  pub site_id : ℕ
  pub allowed_wifi_ssids : List String
  pub reviewers : List ClientReviewer
  pub tenant_valid : Bool

abbrev pub is_controller : ClientReviewer → Bool
is_controller r = elim r.role [ pilot_controller ↦ true | pilot_reviewer ↦ false ]

-- The different texts of a list
abbrev pub distinct_texts : List String → List String
distinct_texts [] = []
distinct_texts (x ∷ xs) =
    let rest = distinct_texts xs in if exists_in (λ y. y == x) xs then rest else x ∷ rest

-- `"@" in normalized`
abbrev pub has_at : String → Bool
has_at String.[] = false
has_at (String.◌∷◌ c rest) = code c == b'@' || has_at rest

abbrev pub clear_rows : Pilot → Result (Unit {0}) × Pilot → Result (Unit {0}) × Pilot
clear_rows s₀ (err e, s) = (err e, s₀)
clear_rows s₀ (ok u, s) = (ok tt, record s { credentials = []; users = [] })

-- The first transaction
unfoldable pub clear_tenants : Action Pilot (Unit {0})
unfolding delete_organizations
clear_tenants s =
    if not (is_some s.control) || not (is_synthetic (mode_of s.control))
    then (err "pilot_mode_not_synthetic", s)
    else if exists_in (λ r. r != synthetic_organization) s.receipts
    then (err "existing_client_receipts_forbid_preparation", s)
    else clear_rows s (delete_organizations s)

-- A user who is added with an identity of the local pilot. The subject of the source is the address
-- after "local:".
abbrev pub add_user : String → Pilot → Pilot
add_user email s = record s {
  users =
      s.users
      ++ record {
        id = s.next_id;
        email = email;
        active = true;
        issuer = "https://local-pilot.challanse";
        subject = email;
      }
        ∷ [];
  next_id = s.next_id + 1;
}

abbrev pub has_local_identity : String → PilotUser → Bool
has_local_identity email u = u.issuer == "https://local-pilot.challanse" && u.subject == email

abbrev pub bootstrap_user : String → Option PilotUser → Pilot → Pilot
bootstrap_user email none s = add_user email s
bootstrap_user email (some user) s = record s {
  users = update (λ u. u.id == user.id) (λ u. record u { email = email; active = true }) s.users;
}

abbrev pub bootstrap_organization : Configuration → Pilot → Pilot
bootstrap_organization c s = record s {
  organizations =
      (if exists_in (λ o. o.id == c.organization_id) s.organizations
        then s.organizations
        else s.organizations
          ++ record { id = c.organization_id; slug = c.organization_slug; active = true } ∷ []);
}

abbrev pub is_bootstrap : Configuration → PilotAudit → Bool
is_bootstrap c e =
    e.organization_id == c.organization_id
    && elim e.bootstrapped_site [ none ↦ false | some site ↦ site == c.site_id ]

-- `INSERT … ON CONFLICT (id) DO NOTHING`
abbrev pub bootstrap_audit : Configuration → Pilot → Pilot
bootstrap_audit c s = record s {
  audit_events =
      (if exists_in (is_bootstrap c) s.audit_events
        then s.audit_events
        else s.audit_events
          ++ record { organization_id = c.organization_id; bootstrapped_site = some c.site_id }
            ∷ []);
}

abbrev pub organization_conflicts : Configuration → Option PilotOrganization → Bool
organization_conflicts c none = false
organization_conflicts c (some o) = o.id != c.organization_id || o.slug != c.organization_slug

abbrev pub first_controller : List ClientReviewer → Option ClientReviewer
first_controller reviewers = find? is_controller reviewers

-- The reviewers but the controller, one transaction each
abbrev pub add_reviewers : String → List ClientReviewer → Pilot → Pilot
add_reviewers controller [] s = s
add_reviewers controller (r ∷ rs) s =
    add_reviewers controller rs (if r.email == controller then s else add_user r.email s)

abbrev pub record_configuration : String → Option Control → Option Control
record_configuration digest none = none
record_configuration digest (some c) = some (record c {
  client_configuration_sha256 = some digest;
  activated_at = none;
  activated_by = none;
})

module _ (texts : PilotTexts) where
  abbrev pub normalize_email : ClientReviewer → ClientReviewer
  normalize_email r = record r { email = texts.lower (texts.strip r.email) }

  -- The validators of the configuration, after its addresses were normalized
  unfoldable pub is_controlled_scope : Configuration → Bool
  is_controlled_scope c =
      not (exists_in (λ r. not (has_at r.email)) c.reviewers)
      && not
          (c.organization_id == synthetic_organization || c.organization_slug == "synthetic-client")
      && length c.reviewers == 2
      && length (distinct_texts (map (λ r. r.email) c.reviewers)) == 2
      && length (select is_controller c.reviewers) == 1
      && length (distinct_texts c.allowed_wifi_ssids) == length c.allowed_wifi_ssids

  -- The names that are left when they are stripped, the empty ones and the repeated ones dropped
  abbrev pub wifi_policy : List String → List String
  wifi_policy ssids = distinct_texts (select (λ t. t != "") (map texts.strip ssids))

  -- The preparation calls it in an environment and with a confirmation that it accepts.
  unfoldable pub bootstrap_tenant : Configuration → String → Action Pilot (Unit {0})
  bootstrap_tenant c email s =
      if length (wifi_policy c.allowed_wifi_ssids) != length c.allowed_wifi_ssids
      then (err "tenant_bootstrap_wifi_policy_invalid", s)
      else if organization_conflicts c
          (find? (λ o. o.id == c.organization_id || o.slug == c.organization_slug) s.organizations)
      then (err "tenant_bootstrap_organization_conflict", s)
      else (
        ok tt,
        bootstrap_audit c (
            bootstrap_user (texts.lower email) (find? (has_local_identity email) s.users)
              (bootstrap_organization c s)),
      )

  abbrev pub finish_preparation :
      Configuration → String → String → Result (Unit {0}) × Pilot → Result (Unit {0}) × Pilot
  finish_preparation c controller digest (err e, s) = (err e, s)
  finish_preparation c controller digest (ok u, s) =
      let s' = add_reviewers controller c.reviewers s in
      (ok tt, record s' { control = record_configuration digest s'.control })

  unfoldable pub prepare_cleared :
      Configuration
      → String
      → Option ClientReviewer
      → Result (Unit {0}) × Pilot
      → Result (Unit {0}) × Pilot
  unfolding bootstrap_tenant
  prepare_cleared c digest controller (err e, s) = (err e, s)
  prepare_cleared c digest none (ok u, s) = (err "StopIteration", s)
  prepare_cleared c digest (some r) (ok u, s) =
      if not c.tenant_valid
      then (err "ValidationError", s)
      else finish_preparation c r.email digest (bootstrap_tenant c r.email s)

  unfoldable pub prepare_valid : Option Configuration → String → Action Pilot (Unit {0})
  unfolding is_controlled_scope prepare_cleared clear_tenants
  prepare_valid none raw s = (err "ValidationError", s)
  prepare_valid (some given) raw s =
      let c = record given { reviewers = map normalize_email given.reviewers } in
      if not (is_controlled_scope c)
      then (err "ValidationError", s)
      else prepare_cleared c (texts.sha256 raw) (first_controller c.reviewers) (clear_tenants s)

  -- `configuration` is what the parser makes of `raw`; the rest stands for the settings.
  unfoldable pub prepare_client_configuration :
      Bool → Option Configuration → String → String → Action Pilot (Unit {0})
  unfolding prepare_valid
  prepare_client_configuration local_pilot configuration raw confirmation s =
      if not local_pilot
      then (err "local_pilot_environment_required", s)
      else if confirmation != "PREPARE CONTROLLED CLIENT PILOT"
      then (err "client_preparation_confirmation_invalid", s)
      else prepare_valid configuration raw s
