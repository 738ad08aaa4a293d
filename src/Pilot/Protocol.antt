-- ===== src/Pilot/Protocol.antt =====
-- The protocol of the pilot, as transitions of its control row, and that each database update of
-- services/enrichment/app/pilot_control.py follows it.
use challanse_website.Pilot.{
  PilotMode, synthetic_demo, controlled_client_pilot, Control, PilotUser, Pilot, Activation,
  is_synthetic, is_sha256, day, activated, write_activation, activate_by, end_row, end_by,
  is_restricted, delete_organizations, reset_control, purge_after, purge_control,
}
use challanse_website.Pilot.Prepare.{
  ClientReviewer, clear_tenants, add_user, add_reviewers, bootstrap_user, record_configuration,
}
use challanse_website.Prelude.{
  ℕ, String, ◌≡◌, refl, ◌∙◌, inl, inr, true, false, Option, none, some, List, [], ◌∷◌, arith, ◌+◌,
  ◌*◌, ◌≤◌, ◌||◌, ltb, ◌==◌, is_some, Bool-cases, Option-cases, exists_in, ok, nat_eq, string_eq,
  if◌then◌else◌,
}

-- The evidence that an activation has to give
abbrev pub IsEvidence : Activation → Type 0
IsEvidence a =
    (is_sha256 a.client_approval_sha256 ≡ true)
    × (is_sha256 a.security_review_sha256 ≡ true)
    × (is_sha256 a.backup_restore_sha256 ≡ true)
    × (1 ≤ a.retention_days)
    × (a.retention_days ≤ 30)

-- What may happen to the control at a time.
pub data Transition (now : ℕ) (before after : Option Control) : Type 0 where
  stays : after ≡ before → Transition now before after
  configures :
      (c : Control) (digest : String)
      → before ≡ some c
      → c.mode ≡ synthetic_demo
      → after ≡ record_configuration digest (some c)
      → Transition now before after
  activates :
      (c : Control) (operator : ℕ) (a : Activation)
      → before ≡ some c
      → c.mode ≡ synthetic_demo
      → IsEvidence a
      → after ≡ some (activated a operator now c)
      → Transition now before after
  ends :
      (c : Control) (operator : ℕ)
      → before ≡ some c
      → c.mode ≡ controlled_client_pilot
      → c.ended_at ≡ none
      → after ≡ some (record c { ended_at = some now; ended_by = some operator })
      → Transition now before after
  purges :
      (c : Control) (ended : ℕ)
      → before ≡ some c
      → c.mode ≡ controlled_client_pilot
      → c.ended_at ≡ some ended
      → ended + c.retention_days * day ≤ now
      → after ≡ some (reset_control c)
      → Transition now before after

pub synthetic-eq : (m : PilotMode) → is_synthetic m ≡ true → m ≡ synthetic_demo
synthetic-eq synthetic_demo h = refl
synthetic-eq controlled_client_pilot h = ground (arith, h)

controlled-eq : (m : PilotMode) → is_synthetic m ≡ false → m ≡ controlled_client_pilot
controlled-eq synthetic_demo h = ground (arith, h)
controlled-eq controlled_client_pilot h = refl

write_activation-Transition :
    (a : Activation) (operator now : ℕ) (found : Option Control) (s : Pilot)
    → s.control ≡ found
    → IsEvidence a
    → Transition now s.control (write_activation a operator now found s).1.control
write_activation-Transition a operator now none s at good = stays refl
write_activation-Transition a operator now (some c) s at good =
    elim (Bool-cases (is_synthetic c.mode)) [
      | inl e ↦ rw e (activates c operator a at (synthetic-eq c.mode e) good refl)
      | inr e ↦ rw e (stays refl)
    ]

pub activate_by-Transition :
    (a : Activation) (now : ℕ) (found : Option PilotUser) (s : Pilot)
    → IsEvidence a
    → Transition now s.control (activate_by a now found s).1.control
activate_by-Transition a now none s good = stays refl
activate_by-Transition a now (some u) s good =
    write_activation-Transition a u.id now s.control s refl good

end_row-Transition :
    (operator now : ℕ) (found : Option Control) (s : Pilot)
    → s.control ≡ found
    → Transition now s.control (end_row operator now found s).1.control
end_row-Transition operator now none s at = stays refl
end_row-Transition operator now (some c) s at =
    elim (Bool-cases (is_synthetic c.mode || is_some c.ended_at)) [
      | inl e ↦ rw e (stays refl)
      | inr e ↦ rw e (
          ends c operator at (controlled-eq c.mode (ground (arith, e)))
            (not-some c.ended_at (ground (arith, e))) refl)
    ]
  where
    not-some : (o : Option ℕ) → is_some o ≡ false → o ≡ none
    not-some none h = refl
    not-some (some x) h = ground (arith, h)

pub end_by-Transition :
    (now : ℕ) (found : Option PilotUser) (s : Pilot)
    → Transition now s.control (end_by now found s).1.control
end_by-Transition now none s = stays refl
end_by-Transition now (some u) s = end_row-Transition u.id now s.control s refl

purge_after-Transition :
    (now : ℕ) (c : Control) (ended : Option ℕ) (s : Pilot)
    → s.control ≡ some c
    → c.mode ≡ controlled_client_pilot
    → c.ended_at ≡ ended
    → Transition now s.control (purge_after now c ended s).1.control
unfolding purge_after delete_organizations
purge_after-Transition now c none s at mode over = stays refl
purge_after-Transition now c (some ended) s at mode over =
    elim (Bool-cases (ltb now (ended + c.retention_days * day))) [
      | inl e ↦ rw e (stays refl)
      | inr e ↦ rw e (elim (Bool-cases (exists_in (is_restricted s) s.organizations)) [
        | inl f ↦ rw f (stays refl)
        | inr f ↦ rw f (purges c ended at mode over (ground (arith, e)) refl)
      ])
    ]

pub purge_control-Transition :
    (now : ℕ) (found : Option Control) (s : Pilot)
    → s.control ≡ found
    → Transition now s.control (purge_control now found s).1.control
unfolding purge_control
purge_control-Transition now none s at = stays refl
purge_control-Transition now (some c) s at = elim (Bool-cases (is_synthetic c.mode)) [
  | inl e ↦ rw e (stays refl)
  | inr e ↦ rw e (purge_after-Transition now c c.ended_at s at (controlled-eq c.mode e) refl)
]

-- What the first transaction of the preparation keeps
pub clear-control : (s : Pilot) → (clear_tenants s).1.control ≡ s.control
unfolding clear_tenants delete_organizations
clear-control s = ground arith

pub clear-synthetic :
    (s : Pilot) (u : Unit {0})
    → (clear_tenants s).0 ≡ ok u
    → (c : Control) × (s.control ≡ some c) × (c.mode ≡ synthetic_demo)
unfolding clear_tenants
clear-synthetic s u h = elim (Option-cases s.control) [
  | inl e ↦ let k = rw e at h in ground (arith, k)
  | inr (c, e) ↦ elim (Bool-cases (is_synthetic c.mode)) [
    | inl f ↦ (c, e, synthetic-eq c.mode f)
    | inr f ↦ let k = rw f at (rw e at h) in ground (arith, k)
  ]
]

pub add_reviewers-control :
    (controller : String) (rs : List ClientReviewer) (s : Pilot)
    → (add_reviewers controller rs s).control ≡ s.control
add_reviewers-control controller [] s = refl
add_reviewers-control controller (r ∷ rs) s =
    add_reviewers-control controller rs (if r.email == controller then s else add_user r.email s)
    ∙ ground arith

pub bootstrap_user-control :
    (email : String) (found : Option PilotUser) (s : Pilot)
    → (bootstrap_user email found s).control ≡ s.control
bootstrap_user-control email none s = refl
bootstrap_user-control email (some u) s = refl
