-- ===== src/Workflow/Review.antt =====
-- Which receipts `process_receipt_event` (services/enrichment/app/workflow.py) hands to a human,
-- for the first delivery of an event.
use challanse_website.Stage
use challanse_website.Stage.{
  StageKind, ocr, gst, image_fetch, completed, failed_terminal, error_prefix,
}
use challanse_website.Image.{verify_webp, passed, invalid}
use challanse_website.Pipeline.{
  ReceiptEvent, EnrichmentResult, Store, not_checked, ready_for_review, EnrichmentStatus,
}
use challanse_website.Storage.{
  existing_enrichment_result, OcrFindings, finalize_provider_failure, save_ocr_result, ocr_result,
}
use challanse_website.Workflow.{Settings, Services, process_receipt_event, review_status}
use challanse_website.Prelude.{
  ℕ, String, ◌≡◌, refl, ◌↔◌, true, none, some, List, arith, ◌≤◌, ◌<◌, ok,
}

module _ (settings : Settings) (services : Services) (event : ReceiptEvent) (clock : ℕ → ℕ)
    (s : Store) (bytes : List ℕ) (new : s.enrichments event.receipt_id ≡ none)
    (no_image_stage : s.stages event.receipt_id image_fetch ≡ none)
    (fetched : services.fetch_receipt_image event ≡ ok bytes) where
  good_image_result :
      (found : OcrFindings)
      → s.stages event.receipt_id ocr ≡ none
      → settings.gst_disabled ≡ true
      → verify_webp services.sha256 services.decode bytes event.image_sha256 event.image_bytes
          settings.image_byte_limit
        ≡ passed
      → services.read_receipt bytes ≡ ok found
      → let (r, s') = process_receipt_event settings services event clock s in
        (result : EnrichmentResult) × (r ≡ ok result)
        × ((result.status ≡ ready_for_review) ↔ (60_000 ≤ found.confidence))
        × ((result.status ≡ EnrichmentStatus.needs_human_review) ↔ (found.confidence < 60_000))
        × (result.version ≡ 1)
        × (Stage.stage_status event.receipt_id image_fetch s'.stages ≡ some completed)
        × (Stage.stage_status event.receipt_id ocr s'.stages ≡ some completed)
  unfolding process_receipt_event existing_enrichment_result Stage.claim_stage Stage.complete_stage
      Stage.stage_status save_ocr_result
  good_image_result found no_ocr off verified read = (
    ocr_result event (review_status found.confidence) found 1,
    ground arith,
    (λ h. ground arith, λ h. ground arith),
    (λ h. ground arith, λ h. ground arith),
    refl,
    ground arith,
    ground arith,
  )

  bad_image_result :
      (reason : String)
      → verify_webp services.sha256 services.decode bytes event.image_sha256 event.image_bytes
          settings.image_byte_limit
        ≡ invalid reason
      → let (r, s') = process_receipt_event settings services event clock s in
        (r
          ≡ ok (record {
            receipt_id = event.receipt_id;
            status = EnrichmentStatus.needs_human_review;
            ocr_confidence = none;
            raw_ocr_json = error_prefix reason;
            gst_status = not_checked;
            version = 1;
          }))
        × (Stage.stage_status event.receipt_id image_fetch s'.stages ≡ some failed_terminal)
  unfolding process_receipt_event existing_enrichment_result Stage.claim_stage Stage.fail_stage
      Stage.stage_status finalize_provider_failure
  bad_image_result reason bad = ground arith
