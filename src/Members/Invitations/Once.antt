-- ===== src/Members/Invitations/Once.antt =====
-- An invitation is accepted once: `accept_membership_invitation` among the other calls of
-- services/enrichment/app/authoritative.py that change members.
use challanse_website.Members.{
  MembershipRequest, IdentityLink, SiteMembership, Invitation, Staff, MemberTexts, sites_of,
  is_site_of, has_identity,
}
use challanse_website.Members.Invitations.{
  has_hash, usable_invitation, request_of, joining_user, join_rows, join, accept_found,
  accept_membership_invitation,
}
use challanse_website.Prelude.{
  ℕ, String, ◌≡◌, refl, sym, ◌∙◌, subst, inl, inr, true, false, Option, none, some, List, [], ◌∷◌,
  arith, ◌||◌, ◌==◌, ◌!=◌, Bool-cases, find?, find?-IsNone, find?-All, update, delete, exists_in,
  exists_in-update, All, All-mono, ok, err, rollback, nat_eq, string_eq, nat_beq_iff,
}
use challanse_website.Members.Invitations.Spent.{
  IsSpent, IsUsed, MemberOp, run, run-IsSpent, unusable,
}

module _ (texts : MemberTexts) where
  -- The rows of a code are one invitation.
  abbrev pub AreOne : String → ℕ → List Invitation → Type 0
  AreOne hash id rows = All (λ i. has_hash hash i ≡ true → i.id ≡ id) rows

  marked-All :
      (hash : String) (id now : ℕ) (rows : List Invitation)
      → AreOne hash id rows
      → All (IsUsed hash) (update (λ row. row.id == id) (λ i. record i { used_at = some now }) rows)
  marked-All hash id now [] h = tt
  marked-All hash id now (x ∷ rows) h =
      let rest = marked-All hash id now rows h.1 in
      elim (Bool-cases (x.id == id)) [
        | inl e ↦ rw e ((λ same. refl), rest)
        | inr e ↦ rw e (
          (λ same. absurd (
              let e' : true ≡ false = sym ((nat_beq_iff x.id id).1 (h.0 same)) ∙ e in
              ground (arith, e'))),
          rest,
        )
      ]

  find?-exists :
      (hash : String) (now : ℕ) (rows : List Invitation) (i : Invitation)
      → find? (usable_invitation hash now) rows ≡ some i
      → exists_in (has_hash hash) rows ≡ true
  find?-exists hash now [] i h = ground (arith, h)
  find?-exists hash now (x ∷ rows) i h = ground (arith, h, find?-exists hash now rows i)

  join_rows-spends :
      (hash : String) (i : Invitation) (user now : ℕ) (sites : Option (List SiteMembership))
      (s₀ s : Staff) (a : ℕ)
      → exists_in (has_hash hash) s.invitations ≡ true
      → AreOne hash i.id s.invitations
      → (rollback s₀ (join_rows texts i user now sites s)).0 ≡ ok a
      → IsSpent hash (rollback s₀ (join_rows texts i user now sites s)).1.invitations
  join_rows-spends hash i user now none s₀ s a there one h = ground (arith, h)
  join_rows-spends hash i user now (some rows) s₀ s a there one h = (
    exists_in-update (has_hash hash) (λ row. row.id == i.id)
          (λ row. record row { used_at = some now }) s.invitations (λ row. refl)
        ∙ there,
    marked-All hash i.id now s.invitations one,
  )

  join-spends :
      (hash : String) (i : Invitation) (q : MembershipRequest) (now : ℕ)
      (link : Option IdentityLink) (s : Staff) (a : ℕ)
      → exists_in (has_hash hash) s.invitations ≡ true
      → AreOne hash i.id s.invitations
      → (rollback s (join texts i q now (joining_user texts q link s))).0 ≡ ok a
      → IsSpent hash (rollback s (join texts i q now (joining_user texts q link s))).1.invitations
  unfolding join
  join-spends hash i q now none s a there one h =
      join_rows-spends hash i s.next_id now
        (sites_of i.organization_id s.next_id q
          (delete (is_site_of i.organization_id s.next_id) s.site_memberships))
        s (joining_user texts q none s).1 a there one h
  join-spends hash i q now (some link) s a there one h =
      join_rows-spends hash i link.user_id now
        (sites_of i.organization_id link.user_id q
          (delete (is_site_of i.organization_id link.user_id) s.site_memberships))
        s (joining_user texts q (some link) s).1 a there one h

  found-AreOne :
      (hash : String) (id now : ℕ) (rows : List Invitation) (i : Invitation)
      → AreOne hash id rows
      → find? (usable_invitation hash now) rows ≡ some i
      → AreOne hash i.id rows
  found-AreOne hash id now rows i one at =
      let (same, usable) =
        find?-All (λ (row : Invitation). has_hash hash row ≡ true → row.id ≡ id)
          (usable_invitation hash now) rows i one at in
      let here : i.id ≡ id = same (ground (arith, usable)) in
      subst (λ n. AreOne hash n rows) (sym here) one

  accept_found-spends :
      (hash issuer subject email : String) (id now : ℕ) (found : Option Invitation) (s : Staff)
      (a : ℕ)
      → AreOne hash id s.invitations
      → find? (usable_invitation hash now) s.invitations ≡ found
      → (accept_found texts issuer subject email now found s).0 ≡ ok a
      → IsSpent hash (accept_found texts issuer subject email now found s).1.invitations
  unfolding accept_found
  accept_found-spends hash issuer subject email id now none s a one at h = ground (arith, h)
  accept_found-spends hash issuer subject email id now (some i) s a one at h =
      elim (Bool-cases (i.issuer != issuer || texts.lower i.email != texts.lower email)) [
        | inl e ↦ ground (arith, rw e at h)
        | inr e ↦ rw e (
            join-spends hash i (request_of i issuer subject email) now
              (find? (has_identity issuer subject) s.identity_links) s a
              (find?-exists hash now s.invitations i at)
              (found-AreOne hash id now s.invitations i one at) (rw e at h))
      ]

  accept-spends :
      (issuer subject email code : String) (id now : ℕ) (s : Staff) (a : ℕ)
      → AreOne (texts.sha256 code) id s.invitations
      → (accept_membership_invitation texts issuer subject email code now s).0 ≡ ok a
      → IsSpent
          (texts.sha256 code)
          (accept_membership_invitation texts issuer subject email code now s).1.invitations
  unfolding accept_membership_invitation
  accept-spends issuer subject email code id now s a one h =
      elim (Bool-cases (issuer == "" || subject == "" || email == "")) [
        | inl e ↦ ground (arith, rw e at h)
        | inr e ↦ rw e (
            accept_found-spends (texts.sha256 code) issuer subject email id now
              (find? (usable_invitation (texts.sha256 code) now) s.invitations) s a one refl
              (rw e at h))
      ]

  spent-refused :
      (issuer subject email code : String) (now : ℕ) (s : Staff)
      → IsSpent (texts.sha256 code) s.invitations
      → (e : String) × (accept_membership_invitation texts issuer subject email code now s
          ≡ (err e, s))
  unfolding accept_membership_invitation accept_found
  spent-refused issuer subject email code now s spent =
      let hash = texts.sha256 code in
      let gone : find? (usable_invitation hash now) s.invitations ≡ none =
        find?-IsNone (usable_invitation hash now) s.invitations (
          All-mono (IsUsed hash) (λ i. usable_invitation hash now i ≡ false) s.invitations
            (λ i used. unusable hash now i used) spent.1) in
      elim (Bool-cases (issuer == "" || subject == "" || email == "")) [
        | inl e ↦ ("REVIEWER_IDENTITY_REQUIRED", rw e)
        | inr e ↦ ("MEMBERSHIP_INVITATION_EXPIRED", rw e (rw gone))
      ]

  -- An invitation that was accepted is not accepted again: whatever memberships are configured,
  -- invitations created and accepted in between, a later acceptance with its code by anyone is refused
  -- and changes nothing. Of the invitations at first only one has the hash of the code.
  pub invitation_accepted_once :
      (issuer subject email issuer' subject' email' code : String) (id now later : ℕ) (s : Staff)
      (a : ℕ) (between : List MemberOp)
      → AreOne (texts.sha256 code) id s.invitations
      → (accept_membership_invitation texts issuer subject email code now s).0 ≡ ok a
      → let after =
          run texts between
            (accept_membership_invitation texts issuer subject email code now s).1 in
        (e : String) × (accept_membership_invitation texts issuer' subject' email' code later after
          ≡ (err e, after))
  invitation_accepted_once issuer subject email issuer' subject' email' code id now later s a
        between one h =
      let first = (accept_membership_invitation texts issuer subject email code now s).1 in
      spent-refused issuer' subject' email' code later (run texts between first) (
        run-IsSpent texts (texts.sha256 code) between first
          (accept-spends issuer subject email code id now s a one h))
