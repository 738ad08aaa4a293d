-- ===== src/Audit/Tests.antt =====
-- Audit chains of a few events.
use challanse_website.Audit.{
  AuditEvent, Happening, valid, broken, append_event, verify_audit_chains,
}
use challanse_website.Audit.Growth.{append_all, append_all-valid}
use challanse_website.Audit.Breaks.{delete_expired, retention_breaks}
use challanse_website.Prelude.{
  ℕ, String, ◌≡◌, refl, Bool, false, Option, none, some, List, [], ◌∷◌, arith, ◌==◌, sort_by,
  nat_eq,
}

-- A digest that names its event.
abbrev digest : String → String → String
digest previous event = String.◌∷◌ "h" event

abbrev happening : Option ℕ → Happening
happening receipt = record {
  id = 0;
  organization_id = 1;
  site_id = 2;
  receipt_id = receipt;
  event_type = "RECEIVED";
  actor_id = 9;
  event_json = "{}";
  source_class = "cloudflare";
}

abbrev first_event : List AuditEvent
first_event = append_event digest (happening (some 7)) 100 []

append_all-valid_example :
    verify_audit_chains digest
      (append_all digest ((happening none, 5) ∷ (happening (some 3), 6) ∷ []) [])
    ≡ valid 2
append_all-valid_example =
    append_all-valid digest ((happening none, 5) ∷ (happening (some 3), 6) ∷ [])
      (omega arith, (omega arith, tt))

abbrev is_seven : Option ℕ → Bool
is_seven none = false
is_seven (some r) = r == 7

retention_breaks_example :
    verify_audit_chains digest
      (delete_expired is_seven (append_event digest (happening (some 8)) 200 first_event))
    ≡ broken 0 1 2
unfolding append_event sort_by
retention_breaks_example =
    retention_breaks digest (happening (some 8)) 200 first_event is_seven (λ e. cc) ((λ e. cc), tt)
      (refl, tt) refl
