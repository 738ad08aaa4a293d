-- ===== src/Workflow/Tests.antt =====
-- The handler on concrete events and answers of the services.
use challanse_website.Stage
use challanse_website.Stage.Run.{empty}
use challanse_website.Stage.{image_fetch, ocr, completed, failed_terminal, error_prefix}
use challanse_website.Image.{webp, verify_webp}
use challanse_website.Pipeline.{ReceiptEvent, Store}
use challanse_website.Storage.{OcrFindings, existing_enrichment_result, save_ocr_result}
use challanse_website.Workflow.{Settings, Services, process_receipt_event}
use challanse_website.Workflow.Outcome.{Leaves, process-Leaves, process_again}
use challanse_website.Prelude.{ℕ, ◌≡◌, refl, true, none, [], ◌∷◌, ◌+◌, ok, err}

abbrev event : ReceiptEvent
event = record {
  receipt_id = 7;
  organization_id = 1;
  site_id = 2;
  image_key = "1/2/2026-01-01/7.webp";
  vendor_id = "cement";
  captured_at_unix = 1;
  site_captured_quantity = 40_000;
  image_sha256 = "abc";
  image_bytes = 3;
}

abbrev found : OcrFindings
found = record {
  raw_json = "{}";
  raw_text = "Challan";
  confidence = 95_000;
  provider_version = "v1";
  gps_latitude = none;
  gps_longitude = none;
}

abbrev services : Services
services = record {
  fetch_receipt_image = λ e. ok (1 ∷ 2 ∷ 3 ∷ []);
  sha256 = λ b. "abc";
  decode = λ b. webp;
  read_receipt = λ b. ok found;
  load_gst_context = λ e. err "RuntimeError";
  fetch_gst = λ g t. err "RuntimeError";
  build_aafi = λ c i. "";
  encrypt_audit = λ e a. err "RuntimeError";
}

abbrev settings : Settings
settings = record { gst_disabled = true; credit_disabled = true; image_byte_limit = 5_000_000 }

abbrev clock : ℕ → ℕ
clock n = n

abbrev tables : Store
tables = record {
  stages = empty;
  enrichments = λ r. none;
  audits = [];
  outbox = [];
  receipts = λ r. none;
  queue = [];
  next_id = 0;
}

process-Leaves_example :
    Leaves 7 tables (process_receipt_event settings services event clock tables)
process-Leaves_example = process-Leaves settings services event clock tables tt

abbrev offline : Services
offline = record services { fetch_receipt_image = λ e. err "ClientError" }

process_again_example :
    process_receipt_event settings offline event
      (λ n. n + 99)
      (process_receipt_event settings services event clock tables).1
    ≡ process_receipt_event settings services event clock tables
unfolding process_receipt_event Stage.claim_stage Stage.complete_stage Stage.stage_status
    save_ocr_result existing_enrichment_result verify_webp
process_again_example =
    process_again settings services offline event clock (λ n. n + 99) tables tt refl refl
