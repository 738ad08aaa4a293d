-- ===== src/Storage.antt =====
-- services/enrichment/app/storage.py: the transactions that store what the stages found. Each is
-- one transaction, so a raise leaves the tables as they were.
pub mod Saved
pub mod Calm
use challanse_website.Stage.{
  Stages, StageKind, StageRow, StageStatus, image_fetch, ocr, gst, set_stage, error_prefix,
}
use challanse_website.Pipeline.{
  ReceiptEvent, EnrichmentStatus, not_checked, checked, EnrichmentResult, EnrichmentRow, AuditBody,
  audit_type, ocr_completed, gst_validated, provider_failed_terminal, EnrichmentAudit, EventType,
  event_type_beq, enrichment_callback, credit_delivery, Payload, result_payload, credit_payload,
  OutboxStatus, OutboxRow, Store,
}
use challanse_website.Prelude.{
  ℕ, String, Bool, Option, none, some, [], ◌∷◌, ◌++◌, ◌+◌, ◌&&◌, ◌==◌, is_some, find?, Result, ok,
  err, Action, if◌then◌else◌, nat_eq,
}

-- The columns that `EnrichmentResult.model_validate(row)` reads.
abbrev pub result_of : ℕ → EnrichmentRow → EnrichmentResult
result_of r row = record {
  receipt_id = r;
  status = row.status;
  ocr_confidence = row.ocr_confidence;
  raw_ocr_json = row.raw_ocr_json;
  gst_status = row.gst_status;
  version = row.version;
}

abbrev option_map {ℓ κ} : {A : Type ℓ} {B : Type κ} → (A → B) → Option A → Option B
option_map f none = none
option_map f (some a) = some (f a)

unfoldable pub existing_enrichment_result : ℕ → Store → Option EnrichmentResult
existing_enrichment_result r s = option_map (result_of r) (s.enrichments r)

-- `ON CONFLICT (aggregate_id, event_type, event_version) DO NOTHING`
abbrev pub same_event : ℕ → EventType → ℕ → OutboxRow → Bool
same_event aggregate kind version row =
    row.aggregate_id == aggregate
    && event_type_beq row.event_type kind
    && row.event_version == version

abbrev pub new_outbox_row : ℕ → ReceiptEvent → EventType → ℕ → Payload → ℕ → OutboxRow
new_outbox_row id event kind version payload now = record {
  id = id;
  organization_id = event.organization_id;
  aggregate_id = event.receipt_id;
  event_type = kind;
  event_version = version;
  payload = payload;
  status = OutboxStatus.pending;
  attempts = 0;
  available_at = now;
  locked_until = none;
  delivered_at = none;
  last_error_code = none;
  created_at = now;
}

pub insert_event : ReceiptEvent → EventType → ℕ → Payload → ℕ → Store → Store
insert_event event kind version payload now s =
    if is_some (find? (same_event event.receipt_id kind version) s.outbox)
    then record s { next_id = s.next_id + 1 }
    else record s {
      outbox = s.outbox ++ new_outbox_row s.next_id event kind version payload now ∷ [];
      next_id = s.next_id + 1;
    }

pub insert_callback : ReceiptEvent → EnrichmentResult → ℕ → Store → Store
unfolding insert_event
insert_callback event result now s =
    insert_event event enrichment_callback result.version (result_payload result) now s

-- `ON CONFLICT (receipt_id, event_type) DO NOTHING`
abbrev same_audit : ℕ → AuditBody → EnrichmentAudit → Bool
same_audit r body audit = audit.receipt_id == r && audit_type audit.body == audit_type body

pub insert_audit : ReceiptEvent → AuditBody → Store → Store
insert_audit event body s =
    if is_some (find? (same_audit event.receipt_id body) s.audits) then s else record s {
      audits =
          s.audits
          ++ record {
            organization_id = event.organization_id;
            receipt_id = event.receipt_id;
            body = body;
          }
            ∷ [];
    }

-- `UPDATE workflow_stages SET status = 'COMPLETED' …` of one stage, whatever its status.
abbrev finish_row : Option StageRow → ℕ → StageKind → ℕ → Stages → Stages
finish_row none r k now t = t
finish_row (some row) r k now t =
    set_stage r k
      (record row {
        status = StageStatus.completed;
        completed_at = some now;
        locked_until = none;
        updated_at = now;
      })
      t

pub finish_stage : ℕ → StageKind → ℕ → Stages → Stages
finish_stage r k now t = finish_row (t r k) r k now t

abbrev set_enrichment : ℕ → EnrichmentRow → Store → Store
set_enrichment r row s = record s {
  enrichments = λ r'. if r == r' then some row else s.enrichments r';
}

-- What `run_ocr` and `extract_gps` found.
pub record OcrFindings : Type 0 where
  pub raw_json : String
  pub raw_text : String
  pub confidence : ℕ
  pub provider_version : String
  pub gps_latitude : Option String
  pub gps_longitude : Option String

-- The upsert of `save_ocr_result`; a conflict keeps the columns of the event and the GST status.
ocr_row : Option EnrichmentRow → ReceiptEvent → EnrichmentStatus → OcrFindings → ℕ → EnrichmentRow
ocr_row none event status found now = record {
  event = event;
  status = status;
  raw_ocr_json = found.raw_json;
  raw_text = found.raw_text;
  ocr_confidence = some found.confidence;
  gps_latitude = found.gps_latitude;
  gps_longitude = found.gps_longitude;
  provider_version = found.provider_version;
  gst_status = not_checked;
  processing_completed_at = now;
  version = 1;
}
ocr_row (some row) event status found now = record row {
  status = status;
  raw_ocr_json = found.raw_json;
  raw_text = found.raw_text;
  ocr_confidence = some found.confidence;
  gps_latitude = found.gps_latitude;
  gps_longitude = found.gps_longitude;
  provider_version = found.provider_version;
  processing_completed_at = now;
  version = row.version + 1;
}

abbrev pub ocr_result : ReceiptEvent → EnrichmentStatus → OcrFindings → ℕ → EnrichmentResult
ocr_result event status found version = record {
  receipt_id = event.receipt_id;
  status = status;
  ocr_confidence = some found.confidence;
  raw_ocr_json = found.raw_json;
  gst_status = not_checked;
  version = version;
}

finish_ocr_stages : ReceiptEvent → ℕ → Store → Store
unfolding finish_stage
finish_ocr_stages event now s = record s {
  stages =
      finish_stage event.receipt_id ocr now
        (finish_stage event.receipt_id image_fetch now s.stages);
}

-- The statements of `save_ocr_result` in order.
store_ocr :
    ReceiptEvent
    → EnrichmentStatus
    → OcrFindings
    → Bool
    → EnrichmentRow
    → ℕ
    → Store
    → EnrichmentResult × Store
unfolding insert_audit finish_ocr_stages insert_callback
store_ocr event status found finalize row now s =
    let result = ocr_result event status found row.version in
    let s₁ = set_enrichment event.receipt_id row s in
    let s₂ =
      insert_audit event
        (ocr_completed status found.confidence (is_some found.gps_latitude) found.provider_version)
        s₁ in
    let s₃ = finish_ocr_stages event now s₂ in
    (result, if finalize then insert_callback event result now s₃ else s₃)

unfoldable pub save_ocr_result :
    ReceiptEvent → EnrichmentStatus → OcrFindings → Bool → ℕ → Store → EnrichmentResult × Store
unfolding store_ocr ocr_row
save_ocr_result event status found finalize now s =
    store_ocr event status found finalize
      (ocr_row (s.enrichments event.receipt_id) event status found now) now s

abbrev insert_credit : ReceiptEvent → ℕ → Option String → Bool → ℕ → Store → Store
insert_credit event version none enabled now s = s
insert_credit event version (some payload) enabled now s =
    if enabled then insert_event event credit_delivery version (credit_payload payload) now s else s

finish_gst_stage : ReceiptEvent → ℕ → Store → Store
unfolding finish_stage
finish_gst_stage event now s = record s { stages = finish_stage event.receipt_id gst now s.stages }

abbrev gst_row : EnrichmentRow → EnrichmentStatus → ℕ → EnrichmentRow
gst_row row status now = record row {
  status = status;
  gst_status = checked status;
  version = row.version + 1;
  processing_completed_at = now;
}

store_gst :
    ReceiptEvent
    → EnrichmentStatus
    → Option String
    → Bool
    → EnrichmentRow
    → ℕ
    → String
    → Store
    → EnrichmentResult × Store
unfolding insert_audit insert_callback finish_gst_stage
store_gst event status credit credit_enabled row now ciphertext s =
    let result = result_of event.receipt_id row in
    let s₁ = set_enrichment event.receipt_id row s in
    let s₂ = insert_audit event (gst_validated status ciphertext) s₁ in
    let s₃ = insert_callback event result now s₂ in
    let s₄ = insert_credit event row.version credit credit_enabled now s₃ in
    (result, finish_gst_stage event now s₄)

abbrev succeed : EnrichmentResult × Store → Result EnrichmentResult × Store
succeed (result, s) = (ok result, s)

-- `encrypted` is what `encrypt_json` returns or raises for the sensitive audit.
abbrev gst_update :
    ReceiptEvent
    → EnrichmentStatus
    → Option String
    → Bool
    → Result String
    → ℕ
    → Option EnrichmentRow
    → Action Store EnrichmentResult
gst_update event status credit credit_enabled encrypted now none s = (err "RuntimeError", s)
gst_update event status credit credit_enabled (err e) now (some row) s = (err e, s)
gst_update event status credit credit_enabled (ok ciphertext) now (some row) s =
    succeed (store_gst event status credit credit_enabled (gst_row row status now) now ciphertext s)

unfoldable pub save_gst_result :
    ReceiptEvent
    → EnrichmentStatus
    → Option String
    → Bool
    → Result String
    → ℕ
    → Action Store EnrichmentResult
unfolding store_gst
save_gst_result event status credit credit_enabled encrypted now s =
    gst_update event status credit credit_enabled encrypted now (s.enrichments event.receipt_id) s

-- The upsert of `finalize_provider_failure`.
failure_row : Option EnrichmentRow → ReceiptEvent → String → ℕ → EnrichmentRow
failure_row none event error_code now = record {
  event = event;
  status = EnrichmentStatus.needs_human_review;
  raw_ocr_json = error_prefix error_code;
  raw_text = "";
  ocr_confidence = none;
  gps_latitude = none;
  gps_longitude = none;
  provider_version = "provider-failure";
  gst_status = not_checked;
  processing_completed_at = now;
  version = 1;
}
failure_row (some row) event error_code now = record row {
  status = EnrichmentStatus.needs_human_review;
  version = row.version + 1;
  processing_completed_at = now;
}

store_failure :
    ReceiptEvent → StageKind → String → EnrichmentRow → ℕ → Store → EnrichmentResult × Store
unfolding insert_audit insert_callback
store_failure event stage error_code row now s =
    let result = result_of event.receipt_id row in
    let s₁ = set_enrichment event.receipt_id row s in
    let s₂ = insert_audit event (provider_failed_terminal stage (error_prefix error_code)) s₁ in
    (result, insert_callback event result now s₂)

unfoldable pub finalize_provider_failure :
    ReceiptEvent → StageKind → String → ℕ → Store → EnrichmentResult × Store
unfolding store_failure failure_row
finalize_provider_failure event stage error_code now s =
    store_failure event stage error_code
      (failure_row (s.enrichments event.receipt_id) event error_code now) now s
