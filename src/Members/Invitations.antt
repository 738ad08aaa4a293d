-- ===== src/Members/Invitations.antt =====
-- Invitations: `create_membership_invitation` and `accept_membership_invitation` of
-- services/enrichment/app/authoritative.py.
pub mod Spent
pub mod Once
pub mod Joined
use challanse_website.Audit.{Happening, append_event}
use challanse_website.Devices.Enroll.{Role}
use challanse_website.Reviews.{Reviewer}
use challanse_website.Members.{
  MembershipRequest, IdentityLink, Membership, SiteMembership, Invitation, Staff, MemberTexts,
  is_org_admin, is_empty, distinct, valid_site, has_identity, set_membership, sites_of, is_site_of,
}
use challanse_website.Prelude.{
  ℕ, String, Bool, true, false, not, Option, none, some, List, [], ◌∷◌, ◌++◌, ◌+◌, ◌*◌, ◌&&◌, ◌||◌,
  ltb, ◌==◌, ◌!=◌, is_some, find?, select, update, delete, exists_in, length, Result, ok, err,
  Action, transaction, rollback, if◌then◌else◌, nat_eq, string_eq,
}

-- `MembershipInvitationRequest`
pub record InvitationRequest : Type 0 where
  pub email : String
  pub display_name : String
  pub role : Role
  pub site_ids : List ℕ

-- 24 hours
abbrev pub invitation_lifetime : ℕ
invitation_lifetime = 86_400_000_000

abbrev pub has_hash : String → Invitation → Bool
has_hash hash i = i.code_hash == hash

abbrev pub usable_invitation : String → ℕ → Invitation → Bool
usable_invitation hash now i = has_hash hash i && not (is_some i.used_at) && ltb now i.expires_at

-- What an acceptance configures: the membership of the invitation, active
abbrev pub request_of : Invitation → String → String → String → MembershipRequest
request_of i issuer subject email = record {
  issuer = issuer;
  subject = subject;
  email = email;
  display_name = i.display_name;
  role = i.role;
  site_ids = i.site_ids;
  active = true;
}

abbrev pub invited_member : Invitation → ℕ → Membership
invited_member i user = record {
  organization_id = i.organization_id;
  user_id = user;
  role = i.role;
  active = true;
}

module _ (texts : MemberTexts) where
  -- An earlier invitation of the address that is still open
  abbrev pub is_superseded : ℕ → String → Invitation → Bool
  is_superseded organization email i =
      i.organization_id == organization
      && texts.lower i.email == texts.lower email
      && not (is_some i.used_at)

  abbrev pub new_invitation : Reviewer → InvitationRequest → String → ℕ → ℕ → Invitation
  new_invitation by q code_hash id now = record {
    id = id;
    code_hash = code_hash;
    organization_id = by.organization_id;
    created_site_id = by.site_id;
    issuer = by.issuer;
    email = texts.lower q.email;
    display_name = q.display_name;
    role = q.role;
    site_ids = q.site_ids;
    expires_at = now + invitation_lifetime;
    used_at = none;
    created_by = by.user_id;
  }

  abbrev pub invited_event : Reviewer → InvitationRequest → ℕ → Happening
  invited_event by q id = record {
    id = id;
    organization_id = by.organization_id;
    site_id = by.site_id;
    receipt_id = none;
    event_type = "MEMBERSHIP_INVITED";
    actor_id = by.user_id;
    event_json = texts.invited_json (texts.lower q.email) q.role;
    source_class = "cloudflare-access";
  }

  abbrev pub invite : Reviewer → InvitationRequest → String → ℕ → Action Staff (Unit {0})
  invite by q code_hash now s =
      if not (is_org_admin q.role)
        && length (select (valid_site by.organization_id q.site_ids) s.sites)
          != length (distinct q.site_ids)
      then (err "INVALID_SITE_MEMBERSHIP", s)
      else if exists_in (has_hash code_hash) s.invitations
      then (err "UniqueViolation", s)
      else (
        ok tt,
        record s {
          invitations =
              update (is_superseded by.organization_id q.email)
                (λ i. record i { used_at = some now }) s.invitations
              ++ new_invitation by q code_hash s.next_id now ∷ [];
          audit_events =
              append_event texts.chain_sha256 (invited_event by q (s.next_id + 1)) now
                s.audit_events;
          next_id = s.next_id + 2;
        },
      )

  -- `code` is the code that is drawn.
  unfoldable pub create_membership_invitation :
      Reviewer → InvitationRequest → String → ℕ → Action Staff (Unit {0})
  create_membership_invitation by q code now s =
      if not (is_org_admin by.role)
      then (err "ORG_ADMIN_REQUIRED", s)
      else if not (is_org_admin q.role) && is_empty q.site_ids
      then (err "SITE_MEMBERSHIP_REQUIRED", s)
      else transaction (invite by q (texts.sha256 code) now) s

  -- The user of the identity, who is activated, or added if there is none.
  abbrev pub joining_user : MembershipRequest → Option IdentityLink → Staff → ℕ × Staff
  joining_user q (some link) s = (
    link.user_id,
    record s {
      users =
          update (λ u. u.id == link.user_id)
            (λ u. record u {
              email = texts.lower q.email;
              display_name = q.display_name;
              active = true;
            })
            s.users;
      identity_links =
          update (has_identity q.issuer q.subject)
            (λ l. record l { email = texts.lower q.email; active = true }) s.identity_links;
    },
  )
  joining_user q none s = (
    s.next_id,
    record s {
      users =
          s.users
          ++ record {
            id = s.next_id;
            email = texts.lower q.email;
            display_name = q.display_name;
            active = true;
          }
            ∷ [];
      identity_links =
          s.identity_links
          ++ record {
            user_id = s.next_id;
            issuer = q.issuer;
            subject = q.subject;
            email = texts.lower q.email;
            active = true;
          }
            ∷ [];
      next_id = s.next_id + 2;
    },
  )

  abbrev pub accepted_event : Invitation → ℕ → ℕ → Happening
  accepted_event i user id = record {
    id = id;
    organization_id = i.organization_id;
    site_id = i.created_site_id;
    receipt_id = none;
    event_type = "MEMBERSHIP_ACCEPTED";
    actor_id = user;
    event_json = texts.accepted_json user i.role;
    source_class = "cloudflare-access";
  }

  abbrev pub join_rows : Invitation → ℕ → ℕ → Option (List SiteMembership) → Action Staff ℕ
  join_rows i user now none s = (err "UniqueViolation", s)
  join_rows i user now (some site_memberships) s = (
    ok i.organization_id,
    record s {
      memberships = set_membership (invited_member i user) s.memberships;
      site_memberships = site_memberships;
      invitations =
          update (λ row. row.id == i.id) (λ row. record row { used_at = some now }) s.invitations;
      audit_events =
          append_event texts.chain_sha256 (accepted_event i user s.next_id) now s.audit_events;
      next_id = s.next_id + 1;
    },
  )

  unfoldable pub join : Invitation → MembershipRequest → ℕ → ℕ × Staff → Result ℕ × Staff
  join i q now (user, s) =
      join_rows i user now
        (sites_of i.organization_id user q
          (delete (is_site_of i.organization_id user) s.site_memberships))
        s

  unfoldable pub accept_found : String → String → String → ℕ → Option Invitation → Action Staff ℕ
  unfolding join
  accept_found issuer subject email now none s = (err "MEMBERSHIP_INVITATION_EXPIRED", s)
  accept_found issuer subject email now (some i) s =
      if i.issuer != issuer || texts.lower i.email != texts.lower email
      then (err "MEMBERSHIP_INVITATION_IDENTITY_MISMATCH", s)
      else let q = request_of i issuer subject email in
        rollback s
          (join i q now (joining_user q (find? (has_identity issuer subject) s.identity_links) s))

  -- The answer is the organization that was joined.
  unfoldable pub accept_membership_invitation :
      String → String → String → String → ℕ → Action Staff ℕ
  unfolding accept_found
  accept_membership_invitation issuer subject email code now s =
      if issuer == "" || subject == "" || email == ""
      then (err "REVIEWER_IDENTITY_REQUIRED", s)
      else accept_found issuer subject email now
          (find? (usable_invitation (texts.sha256 code) now) s.invitations) s
