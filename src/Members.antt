-- ===== src/Members.antt =====
-- Who may work for an organization: `upsert_membership` of services/enrichment/app/authoritative.py.
pub mod Admins
pub mod Invitations
mod Tests
use challanse_website.Audit.{AuditEvent, Happening, append_event}
use challanse_website.Devices.Enroll.{Role, org_admin, site_admin, controller, reviewer, auditor}
use challanse_website.Reviews.{Reviewer}
use challanse_website.Prelude.{
  ℕ, String, Bool, true, false, not, Option, none, some, List, [], ◌∷◌, ◌++◌, ◌+◌, ◌&&◌, ◌||◌, leb,
  ◌==◌, ◌!=◌, find?, select, update, delete, exists_in, length, Result, ok, err, Action,
  transaction, rollback, if◌then◌else◌, nat_eq, string_eq,
}

-- `MembershipAdminRequest`
pub record MembershipRequest : Type 0 where
  pub issuer : String
  pub subject : String
  pub email : String
  pub display_name : String
  pub role : Role
  pub site_ids : List ℕ
  pub active : Bool

pub record User : Type 0 where
  pub id : ℕ
  pub email : String
  pub display_name : String
  pub active : Bool

pub record IdentityLink : Type 0 where
  pub user_id : ℕ
  pub issuer : String
  pub subject : String
  pub email : String
  pub active : Bool

-- A row of `organization_memberships`
pub record Membership : Type 0 where
  pub organization_id : ℕ
  pub user_id : ℕ
  pub role : Role
  pub active : Bool

pub record SiteMembership : Type 0 where
  pub organization_id : ℕ
  pub site_id : ℕ
  pub user_id : ℕ
  pub role : Role
  pub active : Bool

pub record OwnedSite : Type 0 where
  pub id : ℕ
  pub organization_id : ℕ
  pub active : Bool

-- A row of `membership_invitations`
pub record Invitation : Type 0 where
  pub id : ℕ
  pub code_hash : String
  pub organization_id : ℕ
  pub created_site_id : ℕ
  pub issuer : String
  pub email : String
  pub display_name : String
  pub role : Role
  pub site_ids : List ℕ
  pub expires_at : ℕ
  pub used_at : Option ℕ
  pub created_by : ℕ

-- The tables
pub record Staff : Type 0 where
  pub sites : List OwnedSite
  pub users : List User
  pub identity_links : List IdentityLink
  pub memberships : List Membership
  pub site_memberships : List SiteMembership
  pub invitations : List Invitation
  pub audit_events : List AuditEvent
  pub next_id : ℕ

-- What the functions outside the repository answer: `str.lower`, SHA-256 of a code and of a link of
-- the audit chain, and the canonical JSON of a membership of a user, of an invitation of an address,
-- and of its acceptance.
pub record MemberTexts : Type 0 where
  pub lower : String → String
  pub chain_sha256 : String → String → String
  pub member_json : ℕ → MembershipRequest → String
  pub sha256 : String → String
  pub invited_json : String → Role → String
  pub accepted_json : ℕ → Role → String

abbrev pub is_org_admin : Role → Bool
is_org_admin org_admin = true
is_org_admin site_admin = false
is_org_admin controller = false
is_org_admin reviewer = false
is_org_admin auditor = false

abbrev pub is_empty : List ℕ → Bool
is_empty [] = true
is_empty (x ∷ xs) = false

-- `set(request.site_ids)`
abbrev pub distinct : List ℕ → List ℕ
distinct [] = []
distinct (x ∷ xs) = let rest = distinct xs in if exists_in (λ y. y == x) xs then rest else x ∷ rest

abbrev pub valid_site : ℕ → List ℕ → OwnedSite → Bool
valid_site organization ids site =
    site.organization_id == organization && exists_in (λ i. i == site.id) ids && site.active

abbrev pub has_identity : String → String → IdentityLink → Bool
has_identity issuer subject link = link.issuer == issuer && link.subject == subject

abbrev pub is_member : ℕ → ℕ → Membership → Bool
is_member organization user m = m.organization_id == organization && m.user_id == user

abbrev pub is_admin : ℕ → Membership → Bool
is_admin organization m = m.organization_id == organization && is_org_admin m.role && m.active

abbrev pub admin_count : ℕ → List Membership → ℕ
admin_count organization rows = length (select (is_admin organization) rows)

-- `INSERT … ON CONFLICT (organization_id, user_id) DO UPDATE SET role, active`
abbrev pub set_membership : Membership → List Membership → List Membership
set_membership new [] = new ∷ []
set_membership new (m ∷ ms) =
    let rest = set_membership new ms in
    if is_member new.organization_id new.user_id m then new ∷ ms else m ∷ rest

-- The membership is of an active administrator and the request takes that away.
abbrev pub loses_admin : MembershipRequest → Option Membership → Bool
loses_admin q none = false
loses_admin q (some m) =
    is_org_admin m.role && m.active && (not (is_org_admin q.role) || not q.active)

-- The site memberships of a user, one by one; a site that is there already breaks the primary key.
abbrev pub add_site : SiteMembership → Option (List SiteMembership) → Option (List SiteMembership)
add_site new none = none
add_site new (some rows) =
    if exists_in (λ r. r.site_id == new.site_id && r.user_id == new.user_id) rows
    then none
    else some (rows ++ new ∷ [])

abbrev pub add_sites :
    ℕ → ℕ → MembershipRequest → List ℕ → Option (List SiteMembership) → Option (List SiteMembership)
add_sites organization user q [] rows = rows
add_sites organization user q (site ∷ sites) rows = add_sites organization user q sites (
    add_site
      record {
        organization_id = organization;
        site_id = site;
        user_id = user;
        role = q.role;
        active = q.active;
      }
      rows)

abbrev pub sites_of : ℕ → ℕ → MembershipRequest → List SiteMembership → Option (List SiteMembership)
sites_of organization user q rows =
    if is_org_admin q.role then some rows else add_sites organization user q q.site_ids (some rows)

abbrev pub is_site_of : ℕ → ℕ → SiteMembership → Bool
is_site_of organization user r = r.organization_id == organization && r.user_id == user

module _ (texts : MemberTexts) where
  -- The user of the identity, who is added if there is none.
  abbrev pub user_of : MembershipRequest → Option IdentityLink → Staff → ℕ × Staff
  user_of q (some link) s = (link.user_id, s)
  user_of q none s = (
    s.next_id,
    record s {
      users =
          s.users
          ++ record {
            id = s.next_id;
            email = texts.lower q.email;
            display_name = q.display_name;
            active = true;
          }
            ∷ [];
      identity_links =
          s.identity_links
          ++ record {
            user_id = s.next_id;
            issuer = q.issuer;
            subject = q.subject;
            email = texts.lower q.email;
            active = true;
          }
            ∷ [];
      next_id = s.next_id + 2;
    },
  )

  abbrev pub member_event : Reviewer → MembershipRequest → ℕ → ℕ → Happening
  member_event by q user id = record {
    id = id;
    organization_id = by.organization_id;
    site_id = by.site_id;
    receipt_id = none;
    event_type = "MEMBERSHIP_CONFIGURED";
    actor_id = by.user_id;
    event_json = texts.member_json user q;
    source_class = "cloudflare-access";
  }

  abbrev pub membership_of : Reviewer → MembershipRequest → ℕ → Membership
  membership_of by q user = record {
    organization_id = by.organization_id;
    user_id = user;
    role = q.role;
    active = q.active;
  }

  abbrev pub write_rows :
      Reviewer → MembershipRequest → ℕ → ℕ → Option (List SiteMembership) → Action Staff ℕ
  write_rows by q now user none s = (err "UniqueViolation", s)
  write_rows by q now user (some site_memberships) s = (
    ok user,
    record s {
      users =
          update (λ u. u.id == user)
            (λ u. record u { email = texts.lower q.email; display_name = q.display_name }) s.users;
      identity_links =
          update (has_identity q.issuer q.subject)
            (λ l. record l { email = texts.lower q.email; active = true }) s.identity_links;
      memberships = set_membership (membership_of by q user) s.memberships;
      site_memberships = site_memberships;
      audit_events =
          append_event texts.chain_sha256 (member_event by q user s.next_id) now s.audit_events;
      next_id = s.next_id + 1;
    },
  )

  unfoldable pub write_membership : Reviewer → MembershipRequest → ℕ → ℕ × Staff → Result ℕ × Staff
  write_membership by q now (user, s) =
      if loses_admin q (find? (is_member by.organization_id user) s.memberships)
        && leb (admin_count by.organization_id s.memberships) 1
      then (err "LAST_ORG_ADMIN", s)
      else write_rows by q now user
          (sites_of by.organization_id user q
            (delete (is_site_of by.organization_id user) s.site_memberships))
          s

  unfoldable pub configure_member : Reviewer → MembershipRequest → ℕ → Action Staff ℕ
  unfolding write_membership
  configure_member by q now s =
      if not (is_org_admin q.role)
        && length (select (valid_site by.organization_id q.site_ids) s.sites)
          != length (distinct q.site_ids)
      then (err "INVALID_SITE_MEMBERSHIP", s)
      else write_membership by q now
          (user_of q (find? (has_identity q.issuer q.subject) s.identity_links) s)

  unfoldable pub upsert_membership : Reviewer → MembershipRequest → ℕ → Action Staff ℕ
  unfolding configure_member
  upsert_membership by q now s =
      if not (is_org_admin by.role)
      then (err "ORG_ADMIN_REQUIRED", s)
      else if q.issuer != by.issuer
      then (err "IDENTITY_ISSUER_MISMATCH", s)
      else if not (is_org_admin q.role) && is_empty q.site_ids
      then (err "SITE_MEMBERSHIP_REQUIRED", s)
      else transaction (configure_member by q now) s
