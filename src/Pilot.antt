-- ===== src/Pilot.antt =====
-- The control of the local pilot: services/enrichment/app/pilot_control.py without the preparation,
-- which is Pilot/Prepare.
pub mod Prepare
pub mod Protocol
pub mod Steps
pub mod Ended
pub mod Blocked
mod Tests
use Prim.Native.Char.{code}
use challanse_website.Prelude.{
  ℕ, String, Bool, true, false, not, Option, none, some, List, [], ◌∷◌, ◌++◌, ◌+◌, ◌*◌, ◌-◌, ◌&&◌,
  ◌||◌, ltb, leb, ◌==◌, ◌!=◌, is_some, find?, select, exists_in, length, Result, ok, err, Action,
  if◌then◌else◌, nat_eq, string_eq,
}

pub data PilotMode : Type 0 where
  synthetic_demo controlled_client_pilot : PilotMode

-- The row of `local_pilot_control`
pub record Control : Type 0 where
  pub mode : PilotMode
  pub retention_days : ℕ
  pub client_approval_sha256 : Option String
  pub security_review_sha256 : Option String
  pub backup_restore_sha256 : Option String
  pub client_configuration_sha256 : Option String
  pub activated_at : Option ℕ
  pub activated_by : Option ℕ
  pub ended_at : Option ℕ
  pub ended_by : Option ℕ

pub record PilotOrganization : Type 0 where
  pub id : ℕ
  pub slug : String
  pub active : Bool

-- A user with the identity that is linked to it
pub record PilotUser : Type 0 where
  pub id : ℕ
  pub email : String
  pub active : Bool
  pub issuer : String
  pub subject : String

-- A row of `audit_events`; that of a bootstrap has its id from the organization and the site.
pub record PilotAudit : Type 0 where
  pub organization_id : ℕ
  pub bootstrapped_site : Option ℕ

pub data BackupStatus : Type 0 where
  succeeded backup_failed restore_verified : BackupStatus

pub record BackupRun : Type 0 where
  pub status : BackupStatus
  pub completed_at : ℕ

-- What the control reads and writes: its row, the tenants, whether each credential is enabled, the
-- organizations of the receipts, the audit events and the backups, latest first.
pub record Pilot : Type 0 where
  pub control : Option Control
  pub organizations : List PilotOrganization
  pub users : List PilotUser
  pub credentials : List Bool
  pub receipts : List ℕ
  pub audit_events : List PilotAudit
  pub backups : List BackupRun
  pub next_id : ℕ

abbrev pub synthetic_organization : ℕ
synthetic_organization = 0

abbrev pub day : ℕ
day = 86_400_000_000

abbrev pub is_synthetic : PilotMode → Bool
is_synthetic synthetic_demo = true
is_synthetic controlled_client_pilot = false

abbrev pub mode_of : Option Control → PilotMode
mode_of none = synthetic_demo
mode_of (some c) = c.mode

abbrev pub current_pilot_mode : Pilot → PilotMode
current_pilot_mode s = mode_of s.control

abbrev pub has_ended : Option Control → Bool
has_ended none = false
has_ended (some c) = not (is_synthetic c.mode) && is_some c.ended_at

-- `local_pilot`: whether the environment is the local pilot
unfoldable pub require_capture_enabled : Bool → Pilot → Result (Unit {0})
require_capture_enabled local_pilot s =
    if local_pilot && has_ended s.control then err "controlled_client_pilot_ended" else ok tt

abbrev pub is_hex : ℕ → Bool
is_hex c = (leb b'0' c && leb c b'9') || (leb b'a' c && leb c b'f')

abbrev pub all_hex : String → Bool
all_hex String.[] = true
all_hex (String.◌∷◌ c rest) = is_hex (code c) && all_hex rest

abbrev pub text_length : String → ℕ
text_length String.[] = 0
text_length (String.◌∷◌ c rest) = text_length rest + 1

-- `SHA256_PATTERN.fullmatch`
unfoldable pub is_sha256 : String → Bool
is_sha256 t = all_hex t && text_length t == 64

abbrev pub has_status : BackupStatus → BackupRun → Bool
has_status succeeded b = elim b.status [
  | succeeded ↦ true
  | backup_failed ↦ false
  | restore_verified ↦ false
]
has_status backup_failed b = elim b.status [
  | succeeded ↦ false
  | backup_failed ↦ true
  | restore_verified ↦ false
]
has_status restore_verified b = elim b.status [
  | succeeded ↦ false
  | backup_failed ↦ false
  | restore_verified ↦ true
]

-- `completed_at >= now - …`
abbrev pub is_fresh : ℕ → ℕ → Option BackupRun → Bool
is_fresh now age none = false
is_fresh now age (some b) = leb now (b.completed_at + age)

abbrev pub has_configuration : Option Control → Bool
has_configuration none = false
has_configuration (some c) = is_some c.client_configuration_sha256

unfoldable pub activation_readiness : ℕ → Pilot → Bool
activation_readiness now s =
    length (select (λ o. o.active) s.organizations) == 1
    && not (exists_in (λ o. o.id == synthetic_organization) s.organizations)
    && length (select (λ enabled. enabled) s.credentials) == 2
    && has_configuration s.control
    && is_fresh now (30 * day) (find? (has_status restore_verified) s.backups)
    && is_fresh now day (find? (has_status succeeded) s.backups)

-- The arguments of `activate_controlled_pilot`
pub record Activation : Type 0 where
  pub operator_email : String
  pub retention_days : ℕ
  pub client_approval_sha256 : String
  pub security_review_sha256 : String
  pub backup_restore_sha256 : String
  pub confirmation : String

abbrev pub activated : Activation → ℕ → ℕ → Control → Control
activated a operator now c = record c {
  mode = controlled_client_pilot;
  retention_days = a.retention_days;
  client_approval_sha256 = some a.client_approval_sha256;
  security_review_sha256 = some a.security_review_sha256;
  backup_restore_sha256 = some a.backup_restore_sha256;
  activated_at = some now;
  activated_by = some operator;
}

-- `UPDATE … WHERE singleton AND mode = 'synthetic-demo'`
abbrev pub write_activation : Activation → ℕ → ℕ → Option Control → Action Pilot (Unit {0})
write_activation a operator now none s = (err "pilot_already_activated", s)
write_activation a operator now (some c) s =
    if is_synthetic c.mode
    then (ok tt, record s { control = some (activated a operator now c) })
    else (err "pilot_already_activated", s)

abbrev pub activate_by : Activation → ℕ → Option PilotUser → Action Pilot (Unit {0})
activate_by a now none s = (err "activation_operator_not_found", s)
activate_by a now (some u) s = write_activation a u.id now s.control s

abbrev pub end_row : ℕ → ℕ → Option Control → Action Pilot (Unit {0})
end_row operator now none s = (err "pilot_not_active_or_already_ended", s)
end_row operator now (some c) s =
    if is_synthetic c.mode || is_some c.ended_at
    then (err "pilot_not_active_or_already_ended", s)
    else (
      ok tt,
      record s { control = some (record c { ended_at = some now; ended_by = some operator }) },
    )

abbrev pub end_by : ℕ → Option PilotUser → Action Pilot (Unit {0})
end_by now none s = (err "end_operator_not_found", s)
end_by now (some u) s = end_row u.id now s.control s

-- The receipts and the audit events restrict the deletion of their organizations.
abbrev pub is_restricted : Pilot → PilotOrganization → Bool
is_restricted s o =
    exists_in (λ r. r == o.id) s.receipts
    || exists_in (λ e. e.organization_id == o.id) s.audit_events

-- `DELETE FROM organizations`
unfoldable pub delete_organizations : Action Pilot (Unit {0})
delete_organizations s =
    if exists_in (is_restricted s) s.organizations
    then (err "ForeignKeyViolation", s)
    else (ok tt, record s { organizations = [] })

abbrev pub reset_control : Control → Control
reset_control c = record c {
  mode = synthetic_demo;
  client_approval_sha256 = none;
  security_review_sha256 = none;
  backup_restore_sha256 = none;
  client_configuration_sha256 = none;
  activated_at = none;
  activated_by = none;
  ended_at = none;
  ended_by = none;
}

abbrev pub purge_rows : Pilot → Control → Result (Unit {0}) × Pilot → Result (Unit {0}) × Pilot
purge_rows s₀ c (err e, s) = (err e, s₀)
purge_rows s₀ c (ok u, s) = (ok tt, record s { control = some (reset_control c) })

unfoldable pub purge_after : ℕ → Control → Option ℕ → Action Pilot (Unit {0})
unfolding delete_organizations
purge_after now c none s = (err "ended_pilot_required", s)
purge_after now c (some ended) s =
    if ltb now (ended + c.retention_days * day)
    then (err "retention_period_active_until", s)
    else purge_rows s c (delete_organizations s)

unfoldable pub purge_control : ℕ → Option Control → Action Pilot (Unit {0})
unfolding purge_after
purge_control now none s = (err "ended_pilot_required", s)
purge_control now (some c) s =
    if is_synthetic c.mode then (err "ended_pilot_required", s) else purge_after now c c.ended_at s

unfoldable pub purge_ended_pilot : String → ℕ → Action Pilot (Unit {0})
unfolding purge_control
purge_ended_pilot confirmation now s =
    if confirmation != "PURGE ENDED CLIENT PILOT"
    then (err "purge_confirmation_invalid", s)
    else purge_control now s.control s

-- What `str.lower`, `str.strip` and SHA-256 answer
pub record PilotTexts : Type 0 where
  pub lower : String → String
  pub strip : String → String
  pub sha256 : String → String

module _ (texts : PilotTexts) where
  abbrev pub is_operator : String → PilotUser → Bool
  is_operator email u = texts.lower u.email == email && u.active

  unfoldable pub activate_controlled_pilot : Activation → ℕ → Action Pilot (Unit {0})
  unfolding is_sha256 activation_readiness
  activate_controlled_pilot a now s =
      if a.confirmation != "ACTIVATE CONTROLLED CLIENT PILOT"
      then (err "activation_confirmation_invalid", s)
      else if not (
          is_sha256 a.client_approval_sha256
          && is_sha256 a.security_review_sha256
          && is_sha256 a.backup_restore_sha256)
      then (err "activation_evidence_hash_invalid", s)
      else if not (leb 1 a.retention_days && leb a.retention_days 30)
      then (err "retention_days_invalid", s)
      else if not (activation_readiness now s)
      then (err "activation_readiness_failed", s)
      else activate_by a now (find? (is_operator (texts.lower a.operator_email)) s.users) s

  unfoldable pub end_controlled_pilot : String → String → ℕ → Action Pilot (Unit {0})
  end_controlled_pilot operator_email confirmation now s =
      if confirmation != "END CONTROLLED CLIENT PILOT"
      then (err "end_confirmation_invalid", s)
      else end_by now (find? (is_operator (texts.lower (texts.strip operator_email))) s.users) s
