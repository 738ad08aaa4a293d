-- ===== src/Members/Tests.antt =====
-- An organization whose only administrator tries to leave.
use challanse_website.Devices.Enroll.{org_admin, auditor}
use challanse_website.Reviews.{Reviewer}
use challanse_website.Members.{
  MembershipRequest, IdentityLink, Invitation, Staff, MemberTexts, admin_count, upsert_membership,
  configure_member, write_membership,
}
use challanse_website.Members.Admins.{run, run-HasAdmin}
use challanse_website.Members.Invitations.{
  InvitationRequest, create_membership_invitation, accept_membership_invitation, accept_found, join,
  usable_invitation,
}
use challanse_website.Members.Invitations.Once.{invitation_accepted_once}
use challanse_website.Members.Invitations.Spent.{configure, run as run_ops}
use challanse_website.Members.Invitations.Joined.{Joins, accept-Joins, accept_removes_admin}
use challanse_website.Prelude.{String, ◌≡◌, refl, true, none, [], ◌∷◌, arith, ◌≤◌, ok, err, find?}

abbrev texts : MemberTexts
texts = record {
  lower = λ t. t;
  chain_sha256 = λ previous event. String.◌∷◌ "h" event;
  member_json = λ user q. "{}";
  sha256 = λ t. t;
  invited_json = λ email role. "{}";
  accepted_json = λ user role. "{}";
}

abbrev admin : Reviewer
admin = record {
  user_id = 1;
  organization_id = 2;
  site_id = 3;
  role = org_admin;
  email = "a@example.org";
  issuer = "https://id.example.org";
  subject = "a";
}

abbrev staff : Staff
staff = record {
  sites = record { id = 3; organization_id = 2; active = true } ∷ [];
  users = record { id = 1; email = "a@example.org"; display_name = "A"; active = true } ∷ [];
  identity_links =
      record {
        user_id = 1;
        issuer = "https://id.example.org";
        subject = "a";
        email = "a@example.org";
        active = true;
      }
      ∷ [];
  memberships = record { organization_id = 2; user_id = 1; role = org_admin; active = true } ∷ [];
  site_memberships = [];
  invitations = [];
  audit_events = [];
  next_id = 10;
}

abbrev step_down : MembershipRequest
step_down = record {
  issuer = "https://id.example.org";
  subject = "a";
  email = "a@example.org";
  display_name = "A";
  role = auditor;
  site_ids = 3 ∷ [];
  active = true;
}

-- The last administrator cannot step down.
last_admin : (upsert_membership texts admin step_down 5 staff).0 ≡ err "LAST_ORG_ADMIN"
unfolding upsert_membership configure_member write_membership
last_admin = refl

run-HasAdmin_example :
    1
    ≤ admin_count 2
        (run texts ((admin, step_down, 5) ∷ (admin, step_down, 6) ∷ []) staff).memberships
run-HasAdmin_example =
    run-HasAdmin texts 2 ((admin, step_down, 5) ∷ (admin, step_down, 6) ∷ []) staff (omega arith)

abbrev offer : InvitationRequest
offer = record { email = "a@example.org"; display_name = "A"; role = auditor; site_ids = 3 ∷ [] }

-- The administrator has invited the address of the administrator as an auditor.
abbrev invited : Staff
invited = (create_membership_invitation texts admin offer "code" 100 staff).1

abbrev invitation : Invitation
invitation = record {
  id = 10;
  code_hash = "code";
  organization_id = 2;
  created_site_id = 3;
  issuer = "https://id.example.org";
  email = "a@example.org";
  display_name = "A";
  role = auditor;
  site_ids = 3 ∷ [];
  expires_at = 86_400_000_100;
  used_at = none;
  created_by = 1;
}

abbrev issuer : String
issuer = "https://id.example.org"

invitation_accepted_once_example :
    let after =
      run_ops texts
        (configure admin step_down 300 ∷ [])
        (accept_membership_invitation texts issuer "a" "a@example.org" "code" 200 invited).1 in
    (e : String) × (accept_membership_invitation texts issuer "b" "b@example.org" "code" 400 after
      ≡ (err e, after))
unfolding create_membership_invitation accept_membership_invitation accept_found join
invitation_accepted_once_example =
    invitation_accepted_once texts issuer "a" "a@example.org" issuer "b" "b@example.org" "code" 10
      200 400 invited 2 (configure admin step_down 300 ∷ []) ((λ same. refl), tt) refl

accept-Joins_example :
    Joins texts issuer "a" "a@example.org"
      (find? (usable_invitation "code" 200) invited.invitations)
      invited
      2
      (accept_membership_invitation texts issuer "a" "a@example.org" "code" 200 invited).1
unfolding create_membership_invitation accept_membership_invitation accept_found join
accept-Joins_example = accept-Joins texts issuer "a" "a@example.org" "code" 200 invited 2 refl

abbrev own_link : IdentityLink
own_link = record {
  user_id = 1;
  issuer = issuer;
  subject = "a";
  email = "a@example.org";
  active = true;
}

accept_removes_admin_example :
    let reply = accept_membership_invitation texts issuer "a" "a@example.org" "code" 200 invited in
    (reply.0 ≡ ok 2) × (admin_count 2 reply.1.memberships ≡ 0)
unfolding create_membership_invitation
accept_removes_admin_example =
    accept_removes_admin texts issuer "a" "a@example.org" "code" 200 invited invitation own_link
      (record { organization_id = 2; user_id = 1; role = org_admin; active = true })
      (record { organization_id = 2; site_id = 3; user_id = 1; role = auditor; active = true } ∷ [])
      refl refl refl refl refl refl refl refl refl refl
