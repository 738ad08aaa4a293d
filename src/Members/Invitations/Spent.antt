-- ===== src/Members/Invitations/Spent.antt =====
-- That a used invitation stays used under the calls of services/enrichment/app/authoritative.py that
-- change members.
use challanse_website.Members.{
  is_org_admin, is_empty, distinct, valid_site, MembershipRequest, IdentityLink, SiteMembership,
  Invitation, Staff, MemberTexts, user_of, sites_of, is_site_of, has_identity, write_rows,
  write_membership, configure_member, upsert_membership,
}
use challanse_website.Members.Invitations.{
  InvitationRequest, has_hash, usable_invitation, request_of, is_superseded, invite, new_invitation,
  create_membership_invitation, joining_user, join_rows, join, accept_found,
  accept_membership_invitation,
}
use challanse_website.Reviews.{Reviewer}
use challanse_website.Prelude.{
  ℕ, String, ◌≡◌, refl, sym, ◌∙◌, subst, inl, inr, Bool, true, false, not, Option, none, some, List,
  [], ◌∷◌, ◌++◌, arith, ◌&&◌, ◌||◌, ◌==◌, ◌!=◌, Bool-cases, is_some, find?, select, length, update,
  delete, exists_in, exists_in-append, exists_in-update, All, All-update, All-append_one, Result,
  ok, err, rollback, nat_eq, string_eq,
}

-- The invitation, if it is of the code, was used.
abbrev pub IsUsed : String → Invitation → Type 0
IsUsed hash i = has_hash hash i ≡ true → is_some i.used_at ≡ true

abbrev pub IsSpent : String → List Invitation → Type 0
IsSpent hash rows = (exists_in (has_hash hash) rows ≡ true) × All (IsUsed hash) rows

pub unusable :
    (hash : String) (now : ℕ) (i : Invitation)
    → IsUsed hash i
    → usable_invitation hash now i ≡ false
unusable hash now i used = elim (Bool-cases (has_hash hash i)) [
  | inl e ↦ let k = used e in ground (arith, k)
  | inr e ↦ rw e refl
]

-- The calls that change members.
pub data MemberOp : Type 0 where
  configure : Reviewer → MembershipRequest → ℕ → MemberOp
  create_invitation : Reviewer → InvitationRequest → String → ℕ → MemberOp
  accept : String → String → String → String → ℕ → MemberOp

module _ (texts : MemberTexts) where
  unfoldable pub step : MemberOp → Staff → Staff
  step (configure by q now) s = (upsert_membership texts by q now s).1
  step (create_invitation by q code now) s = (create_membership_invitation texts by q code now s).1
  step (accept issuer subject email code now) s =
      (accept_membership_invitation texts issuer subject email code now s).1

  unfoldable pub run : List MemberOp → Staff → Staff
  unfolding step
  run [] s = s
  run (op ∷ ops) s = run ops (step op s)

  write_rows-invitations :
      (by : Reviewer) (q : MembershipRequest) (now user : ℕ) (sites : Option (List SiteMembership))
      (s : Staff)
      → (write_rows texts by q now user sites s).1.invitations ≡ s.invitations
  write_rows-invitations by q now user none s = refl
  write_rows-invitations by q now user (some rows) s = refl

  write_membership-invitations :
      (by : Reviewer) (q : MembershipRequest) (now : ℕ) (link : Option IdentityLink) (s : Staff)
      → (write_membership texts by q now (user_of texts q link s)).1.invitations ≡ s.invitations
  unfolding write_membership
  write_membership-invitations by q now none s = ground (
    arith,
    write_rows-invitations by q now s.next_id
        (sites_of by.organization_id s.next_id q
          (delete (is_site_of by.organization_id s.next_id) s.site_memberships))
        (user_of texts q none s).1,
  )
  write_membership-invitations by q now (some link) s = ground (
    arith,
    write_rows-invitations by q now link.user_id
        (sites_of by.organization_id link.user_id q
          (delete (is_site_of by.organization_id link.user_id) s.site_memberships))
        s,
  )

  rollback-invitations :
      (s : Staff) (reply : Result ℕ × Staff)
      → reply.1.invitations ≡ s.invitations
      → (rollback s reply).1.invitations ≡ s.invitations
  rollback-invitations s (ok a, s') h = h
  rollback-invitations s (err e, s') h = refl

  upsert-invitations :
      (by : Reviewer) (q : MembershipRequest) (now : ℕ) (s : Staff)
      → (upsert_membership texts by q now s).1.invitations ≡ s.invitations
  unfolding upsert_membership configure_member
  upsert-invitations by q now s = ground (
    arith,
    rollback-invitations s (configure_member texts by q now s),
    write_membership-invitations by q now (find? (has_identity q.issuer q.subject) s.identity_links)
        s,
  )

  -- Marking invitations as used leaves a spent code spent.
  marked-IsSpent :
      (hash : String) (p : Invitation → Bool) (now : ℕ) (rows : List Invitation)
      → IsSpent hash rows
      → IsSpent hash (update p (λ i. record i { used_at = some now }) rows)
  marked-IsSpent hash p now rows (there, used) = (
    exists_in-update (has_hash hash) p (λ i. record i { used_at = some now }) rows (λ i. refl)
        ∙ there,
    All-update (IsUsed hash) p (λ i. record i { used_at = some now }) rows (λ i h k same. refl)
        used,
  )

  invite-IsSpent :
      (hash : String) (by : Reviewer) (q : InvitationRequest) (other : String) (now : ℕ) (s : Staff)
      → IsSpent hash s.invitations
      → exists_in (has_hash other) s.invitations ≡ false
      → IsSpent hash (
          update
            (is_superseded texts by.organization_id q.email)
            (λ i. record i { used_at = some now })
            s.invitations
          ++ new_invitation texts by q other s.next_id now ∷ [])
  invite-IsSpent hash by q other now s spent fresh =
      let marked =
        marked-IsSpent hash (is_superseded texts by.organization_id q.email) now s.invitations
          spent in
      let rows =
        update (is_superseded texts by.organization_id q.email)
          (λ i. record i { used_at = some now }) s.invitations in
      (
        exists_in-append (has_hash hash) rows (new_invitation texts by q other s.next_id now)
            ∙ rw marked.0 refl,
        All-append_one (IsUsed hash) rows (new_invitation texts by q other s.next_id now) marked.1
            (λ same. absurd (
              let e : other ≡ hash = (string_eq.same_iff other hash).0 same in
              let k : exists_in (has_hash other) s.invitations ≡ true =
                subst (λ h. exists_in (has_hash h) s.invitations ≡ true) (sym e) spent.0 in
              ground (arith, k, fresh))),
      )

  invited-IsSpent :
      (hash : String) (by : Reviewer) (q : InvitationRequest) (other : String) (now : ℕ) (s : Staff)
      → IsSpent hash s.invitations
      → IsSpent hash (rollback s (invite texts by q other now s)).1.invitations
  invited-IsSpent hash by q other now s spent =
      elim (Bool-cases (
        not (is_org_admin q.role)
        && length (select (valid_site by.organization_id q.site_ids) s.sites)
          != length (distinct q.site_ids))) [
            | inl e ↦ rw e spent
            | inr e ↦ rw e (elim (Bool-cases (exists_in (has_hash other) s.invitations)) [
              | inl f ↦ rw f spent
              | inr f ↦ rw f (invite-IsSpent hash by q other now s spent f)
            ])
          ]

  create-IsSpent :
      (hash : String) (by : Reviewer) (q : InvitationRequest) (code : String) (now : ℕ) (s : Staff)
      → IsSpent hash s.invitations
      → IsSpent hash (create_membership_invitation texts by q code now s).1.invitations
  unfolding create_membership_invitation
  create-IsSpent hash by q code now s spent = elim (Bool-cases (not (is_org_admin by.role))) [
    | inl e ↦ rw e spent
    | inr e ↦ rw e (elim (Bool-cases (not (is_org_admin q.role) && is_empty q.site_ids)) [
      | inl f ↦ rw f spent
      | inr f ↦ rw f (invited-IsSpent hash by q (texts.sha256 code) now s spent)
    ])
  ]

  join_rows-IsSpent :
      (hash : String) (i : Invitation) (user now : ℕ) (sites : Option (List SiteMembership))
      (s₀ s : Staff)
      → IsSpent hash s₀.invitations
      → IsSpent hash s.invitations
      → IsSpent hash (rollback s₀ (join_rows texts i user now sites s)).1.invitations
  join_rows-IsSpent hash i user now none s₀ s before after = before
  join_rows-IsSpent hash i user now (some rows) s₀ s before after =
      marked-IsSpent hash (λ row. row.id == i.id) now s.invitations after

  join-IsSpent :
      (hash : String) (i : Invitation) (q : MembershipRequest) (now : ℕ)
      (link : Option IdentityLink) (s : Staff)
      → IsSpent hash s.invitations
      → IsSpent hash (rollback s (join texts i q now (joining_user texts q link s))).1.invitations
  unfolding join
  join-IsSpent hash i q now none s spent =
      join_rows-IsSpent hash i s.next_id now
        (sites_of i.organization_id s.next_id q
          (delete (is_site_of i.organization_id s.next_id) s.site_memberships))
        s (joining_user texts q none s).1 spent spent
  join-IsSpent hash i q now (some link) s spent =
      join_rows-IsSpent hash i link.user_id now
        (sites_of i.organization_id link.user_id q
          (delete (is_site_of i.organization_id link.user_id) s.site_memberships))
        s (joining_user texts q (some link) s).1 spent spent

  accept_found-IsSpent :
      (hash issuer subject email : String) (now : ℕ) (found : Option Invitation) (s : Staff)
      → IsSpent hash s.invitations
      → IsSpent hash (accept_found texts issuer subject email now found s).1.invitations
  unfolding accept_found
  accept_found-IsSpent hash issuer subject email now none s spent = spent
  accept_found-IsSpent hash issuer subject email now (some i) s spent =
      elim (Bool-cases (i.issuer != issuer || texts.lower i.email != texts.lower email)) [
        | inl e ↦ rw e spent
        | inr e ↦ rw e (
            join-IsSpent hash i (request_of i issuer subject email) now
              (find? (has_identity issuer subject) s.identity_links) s spent)
      ]

  accept-IsSpent :
      (hash issuer subject email code : String) (now : ℕ) (s : Staff)
      → IsSpent hash s.invitations
      → IsSpent hash
          (accept_membership_invitation texts issuer subject email code now s).1.invitations
  unfolding accept_membership_invitation
  accept-IsSpent hash issuer subject email code now s spent =
      elim (Bool-cases (issuer == "" || subject == "" || email == "")) [
        | inl e ↦ rw e spent
        | inr e ↦ rw e (
            accept_found-IsSpent hash issuer subject email now
              (find? (usable_invitation (texts.sha256 code) now) s.invitations) s spent)
      ]

  step-IsSpent :
      (hash : String) (op : MemberOp) (s : Staff)
      → IsSpent hash s.invitations
      → IsSpent hash (step op s).invitations
  unfolding step
  step-IsSpent hash (configure by q now) s spent =
      subst (IsSpent hash) (sym (upsert-invitations by q now s)) spent
  step-IsSpent hash (create_invitation by q code now) s spent =
      create-IsSpent hash by q code now s spent
  step-IsSpent hash (accept issuer subject email code now) s spent =
      accept-IsSpent hash issuer subject email code now s spent

  pub run-IsSpent :
      (hash : String) (ops : List MemberOp) (s : Staff)
      → IsSpent hash s.invitations
      → IsSpent hash (run ops s).invitations
  unfolding run
  run-IsSpent hash [] s spent = spent
  run-IsSpent hash (op ∷ ops) s spent =
      run-IsSpent hash ops (step op s) (step-IsSpent hash op s spent)
