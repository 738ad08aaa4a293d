-- ===== src/Pilot/Tests.antt =====
-- A pilot that is activated, ended and not purged.
use challanse_website.Pilot.{
  synthetic_demo, controlled_client_pilot, Control, Pilot, PilotTexts, Activation, succeeded,
  restore_verified, is_sha256, activation_readiness, activate_controlled_pilot,
  end_controlled_pilot, purge_ended_pilot, require_capture_enabled, delete_organizations,
}
use challanse_website.Pilot.Prepare.{
  Configuration, pilot_controller, pilot_reviewer, bootstrap_tenant, prepare_client_configuration,
  prepare_valid, prepare_cleared, clear_tenants, is_controlled_scope,
}
use challanse_website.Pilot.Protocol.{Transition}
use challanse_website.Pilot.Steps.{PilotOp, prepare, activate, purge, step, step-Transition}
use challanse_website.Pilot.Ended.{IsConsistent, run, run-IsConsistent, capture_refused}
use challanse_website.Pilot.Blocked.{bootstrapped_not_purged}
use challanse_website.Prelude.{
  String, ◌≡◌, refl, true, false, none, some, [], ◌∷◌, arith, ok, err, is_ok,
}

abbrev texts : PilotTexts
texts = record { lower = λ t. t; strip = λ t. t; sha256 = λ t. t }

abbrev hash : String
hash = "0123456789abcdef0123456789abcdef0123456789abcdef0123456789abcdef"

abbrev synthetic : Control
synthetic = record {
  mode = synthetic_demo;
  retention_days = 30;
  client_approval_sha256 = none;
  security_review_sha256 = none;
  backup_restore_sha256 = none;
  client_configuration_sha256 = none;
  activated_at = none;
  activated_by = none;
  ended_at = none;
  ended_by = none;
}

abbrev fresh : Pilot
fresh = record {
  control = some synthetic;
  organizations = record { id = 0; slug = "synthetic-client"; active = true } ∷ [];
  users = [];
  credentials = [];
  receipts = [];
  audit_events = [];
  backups =
      record { status = succeeded; completed_at = 10 }
      ∷ record { status = restore_verified; completed_at = 5 }
      ∷ [];
  next_id = 20;
}

abbrev configuration : Configuration
configuration = record {
  organization_id = 1;
  organization_slug = "client";
  site_id = 2;
  allowed_wifi_ssids = "yard" ∷ [];
  reviewers =
      record { email = "a@b.in"; role = pilot_controller }
      ∷ record { email = "c@d.in"; role = pilot_reviewer }
      ∷ [];
  tenant_valid = true;
}

abbrev activation : Activation
activation = record {
  operator_email = "a@b.in";
  retention_days = 7;
  client_approval_sha256 = hash;
  security_review_sha256 = hash;
  backup_restore_sha256 = hash;
  confirmation = "ACTIVATE CONTROLLED CLIENT PILOT";
}

abbrev preparation : PilotOp
preparation = prepare true (some configuration) hash "PREPARE CONTROLLED CLIENT PILOT"

abbrev prepared : Pilot
prepared =
    (prepare_client_configuration texts true (some configuration) hash
      "PREPARE CONTROLLED CLIENT PILOT" fresh).1

-- The reviewers of the pilot have enrolled.
abbrev enrolled : Pilot
enrolled = record prepared { credentials = true ∷ true ∷ [] }

abbrev active : Pilot
active = (activate_controlled_pilot texts activation 100 enrolled).1

abbrev ended : Pilot
ended = (end_controlled_pilot texts "a@b.in" "END CONTROLLED CLIENT PILOT" 200 active).1

is_active : (activate_controlled_pilot texts activation 100 enrolled).0 ≡ ok tt
unfolding prepare_client_configuration prepare_valid prepare_cleared clear_tenants
    is_controlled_scope delete_organizations bootstrap_tenant activate_controlled_pilot
    activation_readiness is_sha256
is_active = refl

is_ended : (end_controlled_pilot texts "a@b.in" "END CONTROLLED CLIENT PILOT" 200 active).0 ≡ ok tt
unfolding prepare_client_configuration prepare_valid prepare_cleared clear_tenants
    is_controlled_scope delete_organizations bootstrap_tenant activate_controlled_pilot
    activation_readiness is_sha256 end_controlled_pilot
is_ended = refl

step-Transition_example :
    Transition 100 enrolled.control (step texts (activate activation) 100 enrolled).control
step-Transition_example = step-Transition texts (activate activation) 100 enrolled

run-IsConsistent_example :
    IsConsistent (run texts ((preparation, 50) ∷ (activate activation, 100) ∷ []) fresh).control
run-IsConsistent_example =
    run-IsConsistent texts ((preparation, 50) ∷ (activate activation, 100) ∷ []) fresh
      ((λ clash. ground (arith, clash)), λ same. refl)

abbrev held : Control
held = record synthetic {
  mode = controlled_client_pilot;
  retention_days = 7;
  client_approval_sha256 = some hash;
  security_review_sha256 = some hash;
  backup_restore_sha256 = some hash;
  client_configuration_sha256 = some hash;
  activated_at = some 100;
  activated_by = some 20;
  ended_at = some 200;
  ended_by = some 20;
}

capture_refused_example :
    require_capture_enabled true
      (run texts ((purge "PURGE ENDED CLIENT PILOT", 300) ∷ (activate activation, 400) ∷ []) ended)
    ≡ err "controlled_client_pilot_ended"
unfolding prepare_client_configuration prepare_valid prepare_cleared clear_tenants
    is_controlled_scope delete_organizations bootstrap_tenant activate_controlled_pilot
    activation_readiness is_sha256 end_controlled_pilot
capture_refused_example =
    capture_refused texts
      ((purge "PURGE ENDED CLIENT PILOT", 300) ∷ (activate activation, 400) ∷ []) ended held 200
      refl refl refl (omega arith, (omega arith, tt))

bootstrapped_not_purged_example :
    let after = record (bootstrap_tenant texts configuration "a@b.in" fresh).1 {
      control = some held;
    } in
    let purged = purge_ended_pilot "PURGE ENDED CLIENT PILOT" 999_999_999_999 after in
    (is_ok purged.0 ≡ false) × (purged.1 ≡ after)
unfolding bootstrap_tenant
bootstrapped_not_purged_example =
    bootstrapped_not_purged texts configuration "a@b.in" "PURGE ENDED CLIENT PILOT" 999_999_999_999
      (some held) fresh refl
