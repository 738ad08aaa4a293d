-- ===== src/Pipeline.antt =====
-- The data of the enrichment pipeline: the models of services/enrichment/app/schemas.py and
-- providers.py, and the rows of the tables that storage.py, outbox.py and queueing.py write.
use challanse_website.Stage.{Stages, StageKind}
use challanse_website.Prelude.{ℕ, String, Bool, true, false, Option, List, nat_beq}

-- `ReceiptEvent`; UUIDs are only compared, and quantities count thousandths.
pub record ReceiptEvent : Type 0 where
  pub receipt_id : ℕ
  pub organization_id : ℕ
  pub site_id : ℕ
  pub image_key : String
  pub vendor_id : String
  pub captured_at_unix : ℕ
  pub site_captured_quantity : ℕ
  pub image_sha256 : String
  pub image_bytes : ℕ

pub data EnrichmentStatus : Type 0 where
  pending queued processing ready_for_review needs_human_review : EnrichmentStatus
  verified_gst gst_anomaly failed_retryable failed_terminal : EnrichmentStatus

-- The column `gst_status`: 'NOT_CHECKED', or the status that the GST stage ended with.
pub data GstStatus : Type 0 where
  not_checked : GstStatus
  checked : EnrichmentStatus → GstStatus

abbrev pub is_checked : GstStatus → Bool
is_checked not_checked = false
is_checked (checked s) = true

-- `EnrichmentResult`; a confidence counts thousandths of a percent, and JSON that is only passed on
-- is its text.
pub record EnrichmentResult : Type 0 where
  pub receipt_id : ℕ
  pub status : EnrichmentStatus
  pub ocr_confidence : Option ℕ
  pub raw_ocr_json : String
  pub gst_status : GstStatus
  pub version : ℕ

-- A row of `enrichment_receipts`.
pub record EnrichmentRow : Type 0 where
  pub event : ReceiptEvent
  pub status : EnrichmentStatus
  pub raw_ocr_json : String
  pub raw_text : String
  pub ocr_confidence : Option ℕ
  pub gps_latitude : Option String
  pub gps_longitude : Option String
  pub provider_version : String
  pub gst_status : GstStatus
  pub processing_completed_at : ℕ
  pub version : ℕ

-- The fields that `event_json` holds, and the ciphertext beside them.
pub data AuditBody : Type 0 where
  ocr_completed : EnrichmentStatus → ℕ → Bool → String → AuditBody
  gst_validated : EnrichmentStatus → String → AuditBody
  provider_failed_terminal : StageKind → String → AuditBody

abbrev pub audit_type : AuditBody → ℕ
audit_type (ocr_completed s c g p) = 0
audit_type (gst_validated s c) = 1
audit_type (provider_failed_terminal k e) = 2

-- A row of `immutable_enrichment_audits`.
pub record EnrichmentAudit : Type 0 where
  pub organization_id : ℕ
  pub receipt_id : ℕ
  pub body : AuditBody

pub data EventType : Type 0 where
  enrichment_callback receipt_enrichment_queue credit_delivery : EventType

abbrev pub event_type_code : EventType → ℕ
event_type_code enrichment_callback = 0
event_type_code receipt_enrichment_queue = 1
event_type_code credit_delivery = 2

abbrev pub event_type_beq : EventType → EventType → Bool
event_type_beq a b = nat_beq (event_type_code a) (event_type_code b)

-- `payload_json`, by the model that wrote it.
pub data Payload : Type 0 where
  result_payload : EnrichmentResult → Payload
  event_payload : ReceiptEvent → Payload
  credit_payload : String → Payload

pub data OutboxStatus : Type 0 where
  pending processing delivered failed_retryable failed_terminal disabled : OutboxStatus

-- A row of `transactional_outbox`. The destination and the prefix of the idempotency key follow
-- from the event type.
pub record OutboxRow : Type 0 where
  pub id : ℕ
  pub organization_id : ℕ
  pub aggregate_id : ℕ
  pub event_type : EventType
  pub event_version : ℕ
  pub payload : Payload
  pub status : OutboxStatus
  pub attempts : ℕ
  pub available_at : ℕ
  pub locked_until : Option ℕ
  pub delivered_at : Option ℕ
  pub last_error_code : Option String
  pub created_at : ℕ

pub data ReceiptStatus : Type 0 where
  received needs_review verified rejected : ReceiptStatus

-- The columns of `receipts` that the projection of a result writes.
pub record Projection : Type 0 where
  pub organization_id : ℕ
  pub status : ReceiptStatus
  pub enrichment_status : EnrichmentStatus
  pub ocr_confidence : Option ℕ
  pub raw_ocr_json : String
  pub gst_status : GstStatus

-- A row of `local_receipt_queue`.
pub record QueueRow : Type 0 where
  pub id : ℕ
  pub organization_id : ℕ
  pub receipt_id : ℕ
  pub payload : ReceiptEvent
  pub status : OutboxStatus
  pub attempts : ℕ
  pub available_at : ℕ
  pub locked_until : Option ℕ
  pub delivered_at : Option ℕ
  pub last_error_code : Option String
  pub created_at : ℕ

-- The tables that the pipeline shares; `next_id` is the next draw of `uuid4()`, which never
-- repeats one.
pub record Store : Type 0 where
  pub stages : Stages
  pub enrichments : ℕ → Option EnrichmentRow
  pub audits : List EnrichmentAudit
  pub outbox : List OutboxRow
  pub receipts : ℕ → Option Projection
  pub queue : List QueueRow
  pub next_id : ℕ
