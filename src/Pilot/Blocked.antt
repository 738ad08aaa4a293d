-- ===== src/Pilot/Blocked.antt =====
-- That the data of a bootstrapped tenant cannot be purged (`purge_ended_pilot` of
-- services/enrichment/app/pilot_control.py).
use challanse_website.Pilot.{
  Control, PilotOrganization, PilotUser, PilotAudit, Pilot, PilotTexts, is_synthetic, day,
  is_restricted, delete_organizations, purge_after, purge_control, purge_ended_pilot,
}
use challanse_website.Pilot.Prepare.{
  Configuration, wifi_policy, organization_conflicts, is_bootstrap, bootstrap_organization,
  bootstrap_audit, bootstrap_user, has_local_identity, bootstrap_tenant,
}
use challanse_website.Prelude.{
  ℕ, String, ◌≡◌, refl, sym, ap, ◌∙◌, inl, inr, true, false, Option, none, some, arith, ◌+◌, ◌*◌,
  ◌||◌, ltb, ◌==◌, ◌!=◌, Bool-cases, nat_beq_iff, find?, exists_in, exists_in-append,
  exists_in-weaken, length, is_ok, nat_eq, string_eq,
}

purge_after-refused :
    (now : ℕ) (c : Control) (ended : Option ℕ) (s : Pilot)
    → exists_in (is_restricted s) s.organizations ≡ true
    → (is_ok (purge_after now c ended s).0 ≡ false) × ((purge_after now c ended s).1 ≡ s)
unfolding purge_after delete_organizations
purge_after-refused now c none s h = (refl, refl)
purge_after-refused now c (some ended) s h =
    elim (Bool-cases (ltb now (ended + c.retention_days * day))) [
      | inl e ↦ rw e (refl, refl)
      | inr e ↦ rw e (rw h (refl, refl))
    ]

purge_control-refused :
    (now : ℕ) (control : Option Control) (s : Pilot)
    → exists_in (is_restricted s) s.organizations ≡ true
    → (is_ok (purge_control now control s).0 ≡ false) × ((purge_control now control s).1 ≡ s)
unfolding purge_control
purge_control-refused now none s h = (refl, refl)
purge_control-refused now (some c) s h = elim (Bool-cases (is_synthetic c.mode)) [
  | inl e ↦ rw e (refl, refl)
  | inr e ↦ rw e (purge_after-refused now c c.ended_at s h)
]

restricted-not-purged :
    (confirmation : String) (now : ℕ) (s : Pilot)
    → exists_in (is_restricted s) s.organizations ≡ true
    → (is_ok (purge_ended_pilot confirmation now s).0 ≡ false)
      × ((purge_ended_pilot confirmation now s).1 ≡ s)
unfolding purge_ended_pilot
restricted-not-purged confirmation now s h =
    elim (Bool-cases (confirmation != "PURGE ENDED CLIENT PILOT")) [
      | inl e ↦ rw e (refl, refl)
      | inr e ↦ rw e (purge_control-refused now s.control s h)
    ]

organization-there :
    (c : Configuration) (s : Pilot)
    → exists_in (λ o. o.id == c.organization_id) (bootstrap_organization c s).organizations ≡ true
organization-there c s =
    elim (Bool-cases (exists_in (λ o. o.id == c.organization_id) s.organizations)) [
      | inl e ↦ rw e e
      | inr e ↦
          rw e (exists_in-append (λ o. o.id == c.organization_id) s.organizations _ ∙ ground arith)
    ]

event-there :
    (c : Configuration) (s : Pilot)
    → exists_in (is_bootstrap c) (bootstrap_audit c s).audit_events ≡ true
event-there c s = elim (Bool-cases (exists_in (is_bootstrap c) s.audit_events)) [
  | inl e ↦ rw e e
  | inr e ↦ rw e (exists_in-append (is_bootstrap c) s.audit_events _ ∙ ground arith)
]

bootstrap_user-organizations :
    (email : String) (found : Option PilotUser) (s : Pilot)
    → (bootstrap_user email found s).organizations ≡ s.organizations
bootstrap_user-organizations email none s = refl
bootstrap_user-organizations email (some u) s = refl

same-organization :
    (c : Configuration) (o : PilotOrganization) (e : PilotAudit)
    → (o.id == c.organization_id) ≡ true
    → is_bootstrap c e ≡ true
    → (e.organization_id == o.id) ≡ true
same-organization c o e same own =
    let first : (e.organization_id == c.organization_id) ≡ true = ground (arith, own) in
    let p = (nat_beq_iff o.id c.organization_id).0 same in
    let q = (nat_beq_iff e.organization_id c.organization_id).0 first in
    (nat_beq_iff e.organization_id o.id).1 (q ∙ sym p)

audited-restricted :
    (c : Configuration) (s : Pilot) (control : Option Control)
    → exists_in (λ o. o.id == c.organization_id) s.organizations ≡ true
    → let after = record (bootstrap_audit c s) { control = control } in
      exists_in (is_restricted after) after.organizations ≡ true
audited-restricted c s control h =
    let after = record (bootstrap_audit c s) { control = control } in
    exists_in-weaken (λ o. o.id == c.organization_id) (is_restricted after) s.organizations
      (λ o same.
        let k =
          exists_in-weaken (is_bootstrap c) (λ e. e.organization_id == o.id) after.audit_events
            (λ e. same-organization c o e same) (event-there c s) in
        rw k (ground arith))
      h

module _ (texts : PilotTexts) where
  bootstrap-restricted :
      (c : Configuration) (email : String) (control : Option Control) (s : Pilot)
      → is_ok (bootstrap_tenant texts c email s).0 ≡ true
      → let after = record (bootstrap_tenant texts c email s).1 { control = control } in
        exists_in (is_restricted after) after.organizations ≡ true
  unfolding bootstrap_tenant
  bootstrap-restricted c email control s h =
      elim (Bool-cases
        (length (wifi_policy texts c.allowed_wifi_ssids) != length c.allowed_wifi_ssids)) [
          | inl e ↦ absurd (let k = rw e at h in ground (arith, k))
          | inr e ↦
              rw e
                (elim (Bool-cases (
                  organization_conflicts c (
                    find? (λ o. o.id == c.organization_id || o.slug == c.organization_slug)
                      s.organizations))) [
                        | inl f ↦ absurd (let k = rw f at (rw e at h) in ground (arith, k))
                        | inr f ↦ rw f (
                            audited-restricted c
                              (bootstrap_user (texts.lower email)
                                (find? (has_local_identity email) s.users)
                                (bootstrap_organization c s))
                              control
                              (ap (exists_in (λ o. o.id == c.organization_id)) (
                                  bootstrap_user-organizations (texts.lower email)
                                    (find? (has_local_identity email) s.users)
                                    (bootstrap_organization c s))
                                ∙ organization-there c s))
                      ])
        ]

  -- If a tenant is bootstrapped without an error, then a purge, with whatever control, confirmation and
  -- time, ends in an error and changes nothing: the audit event of the bootstrap restricts the deletion
  -- of its organization.
  pub bootstrapped_not_purged :
      (c : Configuration) (email confirmation : String) (now : ℕ) (control : Option Control)
      (s : Pilot)
      → is_ok (bootstrap_tenant texts c email s).0 ≡ true
      → let after = record (bootstrap_tenant texts c email s).1 { control = control } in
        let purged = purge_ended_pilot confirmation now after in
        (is_ok purged.0 ≡ false) × (purged.1 ≡ after)
  bootstrapped_not_purged c email confirmation now control s h =
      let after = record (bootstrap_tenant texts c email s).1 { control = control } in
      restricted-not-purged confirmation now after (bootstrap-restricted c email control s h)
