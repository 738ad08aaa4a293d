-- ===== src/Pilot/Steps.antt =====
-- That the operations of services/enrichment/app/pilot_control.py follow the protocol of the pilot
use challanse_website.Pilot.{
  synthetic_demo, Control, Pilot, PilotTexts, Activation, is_sha256, activation_readiness,
  activate_controlled_pilot, end_controlled_pilot, is_operator, purge_ended_pilot,
}
use challanse_website.Pilot.Prepare.{
  Configuration, ClientReviewer, clear_tenants, bootstrap_organization, has_local_identity,
  bootstrap_tenant, finish_preparation, prepare_cleared, prepare_valid, normalize_email,
  is_controlled_scope, first_controller, record_configuration, prepare_client_configuration,
}
use challanse_website.Prelude.{
  ℕ, String, ◌≡◌, refl, ap, ◌∙◌, inl, inr, Bool, Option, none, some, arith, ◌&&◌, leb, ◌!=◌,
  Bool-cases, find?, map, Result, ok, err, nat_eq, string_eq,
}
use challanse_website.Pilot.Protocol.{
  Transition, stays, configures, activate_by-Transition, end_by-Transition,
  purge_control-Transition, clear-control, clear-synthetic, add_reviewers-control,
  bootstrap_user-control,
}

-- The operations, and whatever else changes the other tables
pub data PilotOp : Type 0 where
  prepare : Bool → Option Configuration → String → String → PilotOp
  activate : Activation → PilotOp
  finish : String → String → PilotOp
  purge : String → PilotOp
  elsewhere : (Pilot → Pilot) → PilotOp

module _ (texts : PilotTexts) where
  bootstrap-control :
      (c : Configuration) (email : String) (s : Pilot)
      → (bootstrap_tenant texts c email s).1.control ≡ s.control
  unfolding bootstrap_tenant
  bootstrap-control c email s = ground (
    arith,
    bootstrap_user-control (texts.lower email) (find? (has_local_identity email) s.users)
        (bootstrap_organization c s),
  )

  finish-Transition :
      (now : ℕ) (c : Configuration) (controller digest : String) (k : Control)
      (before : Option Control) (reply : Result (Unit {0}) × Pilot)
      → before ≡ some k
      → k.mode ≡ synthetic_demo
      → reply.1.control ≡ before
      → Transition now before (finish_preparation texts c controller digest reply).1.control
  finish-Transition now c controller digest k before (err e, s) at mode same = stays same
  finish-Transition now c controller digest k before (ok u, s) at mode same =
      configures k digest at mode (
        ap (record_configuration digest)
          (add_reviewers-control controller c.reviewers s ∙ same ∙ at))

  cleared-Transition :
      (now : ℕ) (c : Configuration) (digest : String) (controller : Option ClientReviewer)
      (before : Option Control) (reply : Result (Unit {0}) × Pilot)
      → reply.1.control ≡ before
      → ((u : Unit {0})
          → reply.0 ≡ ok u
          → (k : Control) × (before ≡ some k) × (k.mode ≡ synthetic_demo))
      → Transition now before (prepare_cleared texts c digest controller reply).1.control
  unfolding prepare_cleared
  cleared-Transition now c digest controller before (err e, s) same when = stays same
  cleared-Transition now c digest none before (ok u, s) same when = stays same
  cleared-Transition now c digest (some r) before (ok u, s) same when =
      elim (Bool-cases c.tenant_valid) [
        | inr e ↦ rw e (stays same)
        | inl e ↦ rw e (
            let (k, at, mode) = when u refl in
            finish-Transition now c r.email digest k before (bootstrap_tenant texts c r.email s) at
              mode (bootstrap-control c r.email s ∙ same))
      ]

  prepare-Transition :
      (now : ℕ) (local_pilot : Bool) (given : Option Configuration) (raw confirmation : String)
      (s : Pilot)
      → Transition now s.control
          (prepare_client_configuration texts local_pilot given raw confirmation s).1.control
  unfolding prepare_client_configuration prepare_valid
  prepare-Transition now local_pilot given raw confirmation s = elim (Bool-cases local_pilot) [
    | inr e ↦ rw e (stays refl)
    | inl e ↦ rw e (elim (Bool-cases (confirmation != "PREPARE CONTROLLED CLIENT PILOT")) [
      | inl f ↦ rw f (stays refl)
      | inr f ↦ rw f (valid-Transition now given raw s)
    ])
  ]
    where
      valid-Transition :
          (now : ℕ) (given : Option Configuration) (raw : String) (s : Pilot)
          → Transition now s.control (prepare_valid texts given raw s).1.control
      valid-Transition now none raw s = stays refl
      valid-Transition now (some g) raw s =
          let c : Configuration = record g {
            reviewers = map (normalize_email texts) g.reviewers;
          } in
          elim (Bool-cases (is_controlled_scope texts c)) [
            | inr e ↦ rw e (stays refl)
            | inl e ↦ rw e (
                cleared-Transition now c (texts.sha256 raw) (first_controller c.reviewers) s.control
                  (clear_tenants s) (clear-control s) (clear-synthetic s))
          ]

  activate-Transition :
      (now : ℕ) (a : Activation) (s : Pilot)
      → Transition now s.control (activate_controlled_pilot texts a now s).1.control
  unfolding activate_controlled_pilot
  activate-Transition now a s =
      elim (Bool-cases (a.confirmation != "ACTIVATE CONTROLLED CLIENT PILOT")) [
        | inl e ↦ rw e (stays refl)
        | inr e ↦
            rw e
              (elim (Bool-cases (
                is_sha256 a.client_approval_sha256
                && is_sha256 a.security_review_sha256
                && is_sha256 a.backup_restore_sha256)) [
                  | inr f ↦ rw f (stays refl)
                  | inl f ↦
                      rw f (elim (Bool-cases (leb 1 a.retention_days && leb a.retention_days 30)) [
                        | inr g ↦ rw g (stays refl)
                        | inl g ↦ rw g (elim (Bool-cases (activation_readiness now s)) [
                          | inr h ↦ rw h (stays refl)
                          | inl h ↦ rw h (
                              activate_by-Transition a now
                                (find? (is_operator texts (texts.lower a.operator_email)) s.users) s
                                (ground (arith, f, g)))
                        ])
                      ])
                ])
      ]

  end-Transition :
      (now : ℕ) (email confirmation : String) (s : Pilot)
      → Transition now s.control (end_controlled_pilot texts email confirmation now s).1.control
  unfolding end_controlled_pilot
  end-Transition now email confirmation s =
      elim (Bool-cases (confirmation != "END CONTROLLED CLIENT PILOT")) [
        | inl e ↦ rw e (stays refl)
        | inr e ↦ rw e (
            end_by-Transition now
              (find? (is_operator texts (texts.lower (texts.strip email))) s.users) s)
      ]

  purge-Transition :
      (now : ℕ) (confirmation : String) (s : Pilot)
      → Transition now s.control (purge_ended_pilot confirmation now s).1.control
  unfolding purge_ended_pilot
  purge-Transition now confirmation s =
      elim (Bool-cases (confirmation != "PURGE ENDED CLIENT PILOT")) [
        | inl e ↦ rw e (stays refl)
        | inr e ↦ rw e (purge_control-Transition now s.control s refl)
      ]

  unfoldable pub step : PilotOp → ℕ → Pilot → Pilot
  step (prepare local_pilot given raw confirmation) now s =
      (prepare_client_configuration texts local_pilot given raw confirmation s).1
  step (activate a) now s = (activate_controlled_pilot texts a now s).1
  step (finish email confirmation) now s = (end_controlled_pilot texts email confirmation now s).1
  step (purge confirmation) now s = (purge_ended_pilot confirmation now s).1
  step (elsewhere f) now s = record (f s) { control = s.control }

  -- Every operation of the pilot, whatever its arguments and its outcome, takes the control through one
  -- transition of the protocol: it stays, it is configured or activated with evidence while synthetic,
  -- it is ended once while active, or it is purged no sooner than the retention after its end.
  pub step-Transition :
      (op : PilotOp) (now : ℕ) (s : Pilot) → Transition now s.control (step op now s).control
  unfolding step
  step-Transition (prepare local_pilot given raw confirmation) now s =
      prepare-Transition now local_pilot given raw confirmation s
  step-Transition (activate a) now s = activate-Transition now a s
  step-Transition (finish email confirmation) now s = end-Transition now email confirmation s
  step-Transition (purge confirmation) now s = purge-Transition now confirmation s
  step-Transition (elsewhere f) now s = stays refl
