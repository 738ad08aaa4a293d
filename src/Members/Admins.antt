-- ===== src/Members/Admins.antt =====
-- The administrators of organizations under `upsert_membership`
-- (services/enrichment/app/authoritative.py).
use challanse_website.Reviews.{Reviewer}
use challanse_website.Members.{
  MembershipRequest, Membership, SiteMembership, Staff, MemberTexts, is_org_admin, is_empty,
  has_identity, is_member, is_admin, admin_count, set_membership, loses_admin, sites_of, is_site_of,
  user_of, membership_of, write_rows, write_membership, configure_member, upsert_membership,
  IdentityLink, valid_site, distinct,
}
use challanse_website.Prelude.{
  ℕ, ◌≡◌, refl, sym, ◌∙◌, subst, inl, inr, Bool, true, false, not, Option, none, some, List, [],
  ◌∷◌, arith, ◌+◌, ◌≤◌, ◌!=◌, ◌&&◌, leb, Bool-cases, nat_eq, string_eq, find?, select, delete,
  length, Result, ok, err, rollback,
}

abbrev pub weight : Bool → ℕ
weight true = 1
weight false = 0

-- Whether a row that may be there is an active administrator
abbrev pub found_admin : ℕ → Option Membership → Bool
found_admin organization none = false
found_admin organization (some m) = is_admin organization m

pub admin_count-set :
    (organization : ℕ) (new : Membership) (rows : List Membership)
    → admin_count organization (set_membership new rows)
        + weight (found_admin organization (find? (is_member new.organization_id new.user_id) rows))
      ≡ admin_count organization rows + weight (is_admin organization new)
admin_count-set organization new [] = ground arith
admin_count-set organization new (m ∷ ms) = ground (arith, admin_count-set organization new ms)

find?-is_member :
    (organization user : ℕ) (rows : List Membership) (m : Membership)
    → find? (is_member organization user) rows ≡ some m
    → m.organization_id ≡ organization
find?-is_member organization user [] m h = ground (arith, h)
find?-is_member organization user (x ∷ xs) m h =
    ground (arith, h, find?-is_member organization user xs m)

stays_positive :
    (after before : ℕ) (old new : Bool)
    → after + weight old ≡ before + weight new
    → 1 ≤ before
    → (old ≡ true → new ≡ false → 2 ≤ before)
    → 1 ≤ after
stays_positive after before true true e h two = omega (arith, e, h)
stays_positive after before true false e h two = omega (arith, e, two refl refl)
stays_positive after before false true e h two = omega (arith, e, h)
stays_positive after before false false e h two = omega (arith, e, h)

-- A request that takes an administrator away is one that the guard looks at.
guard-two :
    (by : Reviewer) (q : MembershipRequest) (user organization : ℕ) (rows : List Membership)
    (texts : MemberTexts) (m : Membership)
    → m.organization_id ≡ by.organization_id
    → loses_admin q (some m) && leb (admin_count by.organization_id rows) 1 ≡ false
    → is_admin organization m ≡ true
    → is_admin organization (membership_of texts by q user) ≡ false
    → 2 ≤ admin_count organization rows
guard-two by q user organization rows texts m at guard old new =
    let same : m.organization_id ≡ organization = ground (arith, old) in
    let here : by.organization_id ≡ organization = sym at ∙ same in
    let guard' : loses_admin q (some m) && leb (admin_count organization rows) 1 ≡ false =
      subst (λ o. loses_admin q (some m) && leb (admin_count o rows) 1 ≡ false) here guard in
    let loses : loses_admin q (some m) ≡ true = ground (arith, old, new, here) in
    ground (arith, rw loses at guard')

-- The number of administrators does not fall to zero when the guard lets the change pass.
set-HasAdmin :
    (organization : ℕ) (by : Reviewer) (q : MembershipRequest) (user : ℕ) (rows : List Membership)
    (texts : MemberTexts) (found : Option Membership)
    → find? (is_member by.organization_id user) rows ≡ found
    → loses_admin q found && leb (admin_count by.organization_id rows) 1 ≡ false
    → 1 ≤ admin_count organization rows
    → 1 ≤ admin_count organization (set_membership (membership_of texts by q user) rows)
set-HasAdmin organization by q user rows texts none at guard h =
    let count = admin_count-set organization (membership_of texts by q user) rows in
    let count' = rw at at count in omega (arith, count', h)
set-HasAdmin organization by q user rows texts (some m) at guard h =
    let count = admin_count-set organization (membership_of texts by q user) rows in
    let count' = rw at at count in
    stays_positive (admin_count organization (set_membership (membership_of texts by q user) rows))
      (admin_count organization rows) (is_admin organization m)
      (is_admin organization (membership_of texts by q user)) count' h
      (guard-two by q user organization rows texts m
        (find?-is_member by.organization_id user rows m at) guard)

module _ (texts : MemberTexts) where
  write_rows-HasAdmin :
      (organization : ℕ) (by : Reviewer) (q : MembershipRequest) (now user : ℕ) (s : Staff)
      (sites : Option (List SiteMembership))
      → 1 ≤ admin_count organization s.memberships
      → 1 ≤ admin_count organization (set_membership (membership_of texts by q user) s.memberships)
      → 1 ≤ admin_count organization (write_rows texts by q now user sites s).1.memberships
  write_rows-HasAdmin organization by q now user s none h k = h
  write_rows-HasAdmin organization by q now user s (some rows) h k = k

  write_membership-HasAdmin :
      (organization : ℕ) (by : Reviewer) (q : MembershipRequest) (now user : ℕ) (s : Staff)
      → 1 ≤ admin_count organization s.memberships
      → 1 ≤ admin_count organization (write_membership texts by q now (user, s)).1.memberships
  unfolding write_membership
  write_membership-HasAdmin organization by q now user s h =
      elim (Bool-cases (
        loses_admin q (find? (is_member by.organization_id user) s.memberships)
        && leb (admin_count by.organization_id s.memberships) 1)) [
          | inl e ↦ rw e h
          | inr e ↦ rw e (
              write_rows-HasAdmin organization by q now user s
                (sites_of by.organization_id user q
                  (delete (is_site_of by.organization_id user) s.site_memberships))
                h
                (set-HasAdmin organization by q user s.memberships texts
                  (find? (is_member by.organization_id user) s.memberships) refl e h))
        ]

  write_user-HasAdmin :
      (organization : ℕ) (by : Reviewer) (q : MembershipRequest) (now : ℕ) (s : Staff)
      (link : Option IdentityLink)
      → 1 ≤ admin_count organization s.memberships
      → 1
        ≤ admin_count organization
            (write_membership texts by q now (user_of texts q link s)).1.memberships
  write_user-HasAdmin organization by q now s (some link) h =
      write_membership-HasAdmin organization by q now link.user_id s h
  write_user-HasAdmin organization by q now s none h =
      write_membership-HasAdmin organization by q now s.next_id (user_of texts q none s).1 h

  configure_member-HasAdmin :
      (organization : ℕ) (by : Reviewer) (q : MembershipRequest) (now : ℕ) (s : Staff)
      → 1 ≤ admin_count organization s.memberships
      → 1 ≤ admin_count organization (configure_member texts by q now s).1.memberships
  unfolding configure_member
  configure_member-HasAdmin organization by q now s h =
      elim (Bool-cases (
        not (is_org_admin q.role)
        && length (select (valid_site by.organization_id q.site_ids) s.sites)
          != length (distinct q.site_ids))) [
            | inl e ↦ rw e h
            | inr e ↦ rw e (
                write_user-HasAdmin organization by q now s
                  (find? (has_identity q.issuer q.subject) s.identity_links) h)
          ]

  rollback-HasAdmin :
      (organization : ℕ) (s : Staff) (reply : Result ℕ × Staff)
      → 1 ≤ admin_count organization s.memberships
      → 1 ≤ admin_count organization reply.1.memberships
      → 1 ≤ admin_count organization (rollback s reply).1.memberships
  rollback-HasAdmin organization s (ok a, s') h k = k
  rollback-HasAdmin organization s (err e, s') h k = h

  upsert_membership-HasAdmin :
      (organization : ℕ) (by : Reviewer) (q : MembershipRequest) (now : ℕ) (s : Staff)
      → 1 ≤ admin_count organization s.memberships
      → 1 ≤ admin_count organization (upsert_membership texts by q now s).1.memberships
  unfolding upsert_membership
  upsert_membership-HasAdmin organization by q now s h =
      elim (Bool-cases (not (is_org_admin by.role))) [
        | inl e ↦ rw e h
        | inr e ↦ rw e (elim (Bool-cases (q.issuer != by.issuer)) [
          | inl f ↦ rw f h
          | inr f ↦ rw f (elim (Bool-cases (not (is_org_admin q.role) && is_empty q.site_ids)) [
            | inl g ↦ rw g h
            | inr g ↦ rw g (
                rollback-HasAdmin organization s (configure_member texts by q now s) h
                  (configure_member-HasAdmin organization by q now s h))
          ])
        ])
      ]

  -- Calls that follow one another: who asks, what for, and when.
  unfoldable pub run : List (Reviewer × MembershipRequest × ℕ) → Staff → Staff
  run [] s = s
  run ((by, q, now) ∷ calls) s = run calls (upsert_membership texts by q now s).1

  -- An organization that has an active administrator keeps one, whatever memberships are configured one
  -- after the other, by administrators of any organizations.
  pub run-HasAdmin :
      (organization : ℕ) (calls : List (Reviewer × MembershipRequest × ℕ)) (s : Staff)
      → 1 ≤ admin_count organization s.memberships
      → 1 ≤ admin_count organization (run calls s).memberships
  unfolding run
  run-HasAdmin organization [] s h = h
  run-HasAdmin organization ((by, q, now) ∷ calls) s h =
      run-HasAdmin organization calls (upsert_membership texts by q now s).1
        (upsert_membership-HasAdmin organization by q now s h)
