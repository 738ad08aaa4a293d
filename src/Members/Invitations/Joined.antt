-- ===== src/Members/Invitations/Joined.antt =====
-- What an acceptance does to the memberships: `accept_membership_invitation` of
-- services/enrichment/app/authoritative.py.
use challanse_website.Members.{
  MembershipRequest, IdentityLink, Membership, SiteMembership, Invitation, Staff, MemberTexts,
  is_org_admin, has_identity, is_member, is_admin, admin_count, set_membership, sites_of,
  is_site_of,
}
use challanse_website.Members.Admins.{admin_count-set}
use challanse_website.Members.Invitations.{
  usable_invitation, request_of, invited_member, joining_user, join_rows, join, accept_found,
  accept_membership_invitation,
}
use challanse_website.Prelude.{
  ℕ, String, ◌≡◌, refl, inl, inr, true, false, Option, none, some, List, [], ◌∷◌, arith, ◌||◌, ◌==◌,
  ◌!=◌, Bool-cases, find?, delete, ok, rollback, nat_eq, string_eq, nat_beq_iff,
}

is_member_self : (m : Membership) → is_member m.organization_id m.user_id m ≡ true
is_member_self m =
    rw ((nat_beq_iff m.organization_id m.organization_id).1 refl)
      ((nat_beq_iff m.user_id m.user_id).1 refl)

find?-set_membership :
    (new : Membership) (rows : List Membership)
    → find? (is_member new.organization_id new.user_id) (set_membership new rows) ≡ some new
find?-set_membership new [] = rw (is_member_self new)
find?-set_membership new (m ∷ rows) =
    elim (Bool-cases (is_member new.organization_id new.user_id m)) [
      | inl e ↦ rw e (rw (is_member_self new))
      | inr e ↦ rw e (rw e (find?-set_membership new rows))
    ]

-- The user of an identity has, in the organization of the invitation, the membership that it offers.
abbrev pub HasJoined : Invitation → ℕ → Staff → Type 0
HasJoined i user s =
    find? (is_member i.organization_id user) s.memberships ≡ some (invited_member i user)

-- The user of an identity: the one of its link, or the next that is drawn.
abbrev pub user_for : Option IdentityLink → Staff → ℕ
user_for none s = s.next_id
user_for (some link) s = link.user_id

module _ (texts : MemberTexts) where
  join_rows-HasJoined :
      (i : Invitation) (user now : ℕ) (sites : Option (List SiteMembership)) (s₀ s : Staff) (a : ℕ)
      → (rollback s₀ (join_rows texts i user now sites s)).0 ≡ ok a
      → (a ≡ i.organization_id)
        × HasJoined i user (rollback s₀ (join_rows texts i user now sites s)).1
  join_rows-HasJoined i user now none s₀ s a h = ground (arith, h)
  join_rows-HasJoined i user now (some rows) s₀ s a h =
      (ground (arith, h), find?-set_membership (invited_member i user) s.memberships)

  join-HasJoined :
      (i : Invitation) (q : MembershipRequest) (now : ℕ) (link : Option IdentityLink) (s : Staff)
      (a : ℕ)
      → (rollback s (join texts i q now (joining_user texts q link s))).0 ≡ ok a
      → (a ≡ i.organization_id)
        × HasJoined i
            (user_for link s)
            (rollback s (join texts i q now (joining_user texts q link s))).1
  unfolding join
  join-HasJoined i q now none s a h =
      join_rows-HasJoined i s.next_id now
        (sites_of i.organization_id s.next_id q
          (delete (is_site_of i.organization_id s.next_id) s.site_memberships))
        s (joining_user texts q none s).1 a h
  join-HasJoined i q now (some link) s a h =
      join_rows-HasJoined i link.user_id now
        (sites_of i.organization_id link.user_id q
          (delete (is_site_of i.organization_id link.user_id) s.site_memberships))
        s (joining_user texts q (some link) s).1 a h

  -- What an acceptance answers with, and what it leaves.
  abbrev pub Joins : String → String → String → Option Invitation → Staff → ℕ → Staff → Type 0
  Joins issuer subject email found s a after =
      (i : Invitation) × (found ≡ some i)
      × (i.issuer ≡ issuer)
      × (texts.lower i.email ≡ texts.lower email)
      × (a ≡ i.organization_id)
      × HasJoined i (user_for (find? (has_identity issuer subject) s.identity_links) s) after

  accept_found-Joins :
      (issuer subject email : String) (now : ℕ) (found : Option Invitation) (s : Staff) (a : ℕ)
      → (accept_found texts issuer subject email now found s).0 ≡ ok a
      → Joins issuer subject email found s a (accept_found texts issuer subject email now found s).1
  unfolding accept_found
  accept_found-Joins issuer subject email now none s a h = ground (arith, h)
  accept_found-Joins issuer subject email now (some i) s a h =
      elim (Bool-cases (i.issuer != issuer || texts.lower i.email != texts.lower email)) [
        | inl e ↦ ground (arith, rw e at h)
        | inr e ↦
            let (joined, left) =
              join-HasJoined i (request_of i issuer subject email) now
                (find? (has_identity issuer subject) s.identity_links) s a (rw e at h) in
            (
              i,
              refl,
              (string_eq.same_iff i.issuer issuer).0 (ground (arith, e)),
              (string_eq.same_iff (texts.lower i.email) (texts.lower email)).0 (ground (arith, e)),
              joined,
              rw e left,
            )
      ]

  -- An acceptance that answers without an error has found an invitation with the code that is neither
  -- used nor expired and is for the issuer and the address of the identity, and leaves the user of the
  -- identity with an active membership in its organization, of the role that it offers.
  pub accept-Joins :
      (issuer subject email code : String) (now : ℕ) (s : Staff) (a : ℕ)
      → (accept_membership_invitation texts issuer subject email code now s).0 ≡ ok a
      → Joins issuer subject email
          (find? (usable_invitation (texts.sha256 code) now) s.invitations)
          s
          a
          (accept_membership_invitation texts issuer subject email code now s).1
  unfolding accept_membership_invitation
  accept-Joins issuer subject email code now s a h =
      elim (Bool-cases (issuer == "" || subject == "" || email == "")) [
        | inl e ↦ ground (arith, rw e at h)
        | inr e ↦ rw e (
            accept_found-Joins issuer subject email now
              (find? (usable_invitation (texts.sha256 code) now) s.invitations) s a (rw e at h))
      ]

  -- An acceptance does not ask whether an administrator is left: if the only active administrator of
  -- an organization accepts an invitation of it with another role that names no site twice, the
  -- organization has no administrator any more.
  pub accept_removes_admin :
      (issuer subject email code : String) (now : ℕ) (s : Staff) (i : Invitation)
      (link : IdentityLink) (m : Membership) (sites : List SiteMembership)
      → issuer == "" || subject == "" || email == "" ≡ false
      → find? (usable_invitation (texts.sha256 code) now) s.invitations ≡ some i
      → i.issuer ≡ issuer
      → texts.lower i.email ≡ texts.lower email
      → is_org_admin i.role ≡ false
      → find? (has_identity issuer subject) s.identity_links ≡ some link
      → find? (is_member i.organization_id link.user_id) s.memberships ≡ some m
      → is_admin i.organization_id m ≡ true
      → admin_count i.organization_id s.memberships ≡ 1
      → sites_of i.organization_id link.user_id
          (request_of i issuer subject email)
          (delete (is_site_of i.organization_id link.user_id) s.site_memberships)
        ≡ some sites
      → let reply = accept_membership_invitation texts issuer subject email code now s in
        (reply.0 ≡ ok i.organization_id) × (admin_count i.organization_id reply.1.memberships ≡ 0)
  unfolding accept_membership_invitation accept_found join
  accept_removes_admin issuer subject email code now s i link m sites given usable same_issuer
        same_email lower identity member admin only fits =
      let mismatch : i.issuer != issuer || texts.lower i.email != texts.lower email ≡ false =
        rw ((string_eq.same_iff i.issuer issuer).1 same_issuer)
          (rw ((string_eq.same_iff (texts.lower i.email) (texts.lower email)).1 same_email) refl) in
      let new = invited_member i link.user_id in
      let other : is_admin i.organization_id new ≡ false = ground (arith, lower) in
      let count = rw admin at (
        rw other at
          (rw only at (rw member at (admin_count-set i.organization_id new s.memberships)))) in
      rw given (rw usable (rw mismatch (rw identity (rw fits (refl, omega (arith, count))))))
