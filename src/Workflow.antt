-- ===== src/Workflow.antt =====
-- services/enrichment/app/workflow.py: one receipt event through image check, OCR and GST.
-- `process_receipt_event` is the whole handler; the proofs are in the modules below.
pub mod Outcome
pub mod Calm
pub mod Review
mod Tests
use challanse_website.Stage
use challanse_website.Stage.{StageKind, image_fetch, ocr, gst, completed, StageStatus}
use challanse_website.Image.{Decoded, Check, passed, invalid, failed, verify_webp}
use challanse_website.Gst.{GstContext, GstInvoice, GstValidation, GstOutcome, validate_gst}
use challanse_website.Pipeline.{
  ReceiptEvent, EnrichmentStatus, ready_for_review, needs_human_review, processing, verified_gst,
  gst_anomaly, is_checked, EnrichmentResult, Store,
}
use challanse_website.Storage.{
  OcrFindings, existing_enrichment_result, save_ocr_result, save_gst_result,
  finalize_provider_failure,
}
use challanse_website.Prelude.{
  ℕ, String, Bool, true, false, not, Option, none, some, List, ◌||◌, leb, Result, ok, err, Action,
  pure, raise, or_raise, catch, modify, raise_if, if◌then◌else◌, ◌>>=◌, ◌>>◌,
}

pub record Settings : Type 0 where
  pub gst_disabled : Bool
  pub credit_disabled : Bool
  pub image_byte_limit : ℕ

-- What the handler calls outside the database: the object store, PIL, the OCR, GST and KMS
-- services. Each may raise.
pub record Services : Type 0 where
  pub fetch_receipt_image : ReceiptEvent → Result (List ℕ)
  pub sha256 : List ℕ → String
  pub decode : List ℕ → Decoded
  -- `extract_gps`, `webp_to_png` and `run_ocr`, one after the other
  pub read_receipt : List ℕ → Result OcrFindings
  pub load_gst_context : ReceiptEvent → Result GstContext
  pub fetch_gst : String → ℕ → Result GstInvoice
  pub build_aafi : GstContext → GstInvoice → String
  pub encrypt_audit : ReceiptEvent → Option GstInvoice → Result String

-- Where the image of an event stands after the first `try` block.
pub data Fetched : Type 0 where
  image : List ℕ → Fetched
  bad_image : String → Fetched
  broken : String → Fetched

checked_image : List ℕ → Check → Fetched
checked_image bytes passed = image bytes
checked_image bytes (invalid e) = bad_image e
checked_image bytes (failed e) = broken e

fetch_and_verify : Settings → Services → ReceiptEvent → Result (List ℕ) → Fetched
unfolding checked_image
fetch_and_verify settings services event (err e) = broken e
fetch_and_verify settings services event (ok bytes) = checked_image bytes (
    verify_webp services.sha256 services.decode bytes event.image_sha256 event.image_bytes
      settings.image_byte_limit)

abbrev with_stages : Bool × Stage.Stages → Store → Bool × Store
with_stages (b, stages) s = (b, record s { stages = stages })

abbrev claim : ReceiptEvent → StageKind → ℕ → Action Store Bool
claim event k now s =
    let (won, s') =
      with_stages (Stage.claim_stage event.organization_id event.receipt_id k now s.stages) s in
    (ok won, s')

abbrev fail : ReceiptEvent → StageKind → String → Bool → ℕ → Action Store Bool
fail event k code terminal now s =
    let (gone, s') =
      with_stages (Stage.fail_stage event.receipt_id k code terminal now s.stages) s in
    (ok gone, s')

abbrev finalize : ReceiptEvent → StageKind → String → ℕ → Action Store EnrichmentResult
finalize event k code now s =
    let (result, s') = finalize_provider_failure event k code now s in (ok result, s')

-- `except Exception as error`: a terminal failure is stored for a human, any other is raised again.
-- The transactions of a call come at the times `clock 0`, `clock 1`, ….
on_error : ReceiptEvent → StageKind → (ℕ → ℕ) → String → Action Store EnrichmentResult
on_error event k clock e = do
  terminal ← fail event k e false (clock 7)
  if terminal then finalize event k e (clock 8) else raise e

pub review_status : ℕ → EnrichmentStatus
review_status confidence = if leb 60_000 confidence then ready_for_review else needs_human_review

-- The OCR block, on an image that was verified.
save_findings :
    Settings → ReceiptEvent → (ℕ → ℕ) → Result OcrFindings → Action Store EnrichmentResult
unfolding on_error review_status
save_findings settings event clock (err e) s = on_error event ocr clock e s
save_findings settings event clock (ok found) s =
    let (result, s') =
      save_ocr_result event
        (if settings.gst_disabled then review_status found.confidence else processing) found
        settings.gst_disabled (clock 4) s in
    (ok result, s')

-- A claim that fails: another worker may have stored the result meanwhile.
reread_ocr : ReceiptEvent → Action Store EnrichmentResult
reread_ocr event s = or_raise (existing_enrichment_result event.receipt_id s) "RuntimeError" s

-- Whether the handler goes on to the GST stage with the result of the first part.
abbrev Stop : Type 0
Stop = Bool × EnrichmentResult

abbrev stop : Action Store EnrichmentResult → Action Store Stop
stop m = do result ← m; pure (true, result)

-- A failure of the OCR block that was finalised returns from the handler.
abbrev after_ocr : Result OcrFindings → Action Store EnrichmentResult → Action Store Stop
after_ocr (err e) m = stop m
after_ocr (ok found) m = do result ← m; pure (false, result)

run_ocr_stage : Settings → Services → ReceiptEvent → (ℕ → ℕ) → List ℕ → Action Store Stop
unfolding save_findings reread_ocr
run_ocr_stage settings services event clock bytes = do
  won ← claim event ocr (clock 3)
  let found = services.read_receipt bytes
  if won
      then after_ocr found (save_findings settings event clock found)
      else stop (reread_ocr event)

complete_image : ReceiptEvent → ℕ → Store → Store
complete_image event now s = record s {
  stages = Stage.complete_stage event.receipt_id image_fetch now s.stages;
}

use_image : Settings → Services → ReceiptEvent → (ℕ → ℕ) → Fetched → Action Store Stop
unfolding run_ocr_stage on_error complete_image
use_image settings services event clock (image bytes) = do
  modify (complete_image event (clock 2))
  run_ocr_stage settings services event clock bytes
use_image settings services event clock (bad_image e) =
    stop (do fail event image_fetch e true (clock 7); finalize event image_fetch e (clock 8))
use_image settings services event clock (broken e) = stop (on_error event image_fetch clock e)

abbrev is_done : Option StageStatus → Bool
is_done (some completed) = true
is_done _ = false

-- `image_stage != "COMPLETED" and not claim_stage(…)` raises.
claim_image : ReceiptEvent → (ℕ → ℕ) → Action Store Unit
claim_image event clock s =
    elim (is_done (Stage.stage_status event.receipt_id image_fetch s.stages)) [
      | true ↦ (ok tt, s)
      | false ↦ (do won ← claim event image_fetch (clock 1); raise_if (not won) "RuntimeError") s
    ]

-- The branch for a receipt that has no result yet.
first_reading : Settings → Services → ReceiptEvent → (ℕ → ℕ) → Action Store Stop
unfolding claim_image use_image fetch_and_verify
first_reading settings services event clock = do
  claim_image event clock
  use_image settings services event clock
      (fetch_and_verify settings services event (services.fetch_receipt_image event))

abbrev outcome_status : GstOutcome → EnrichmentStatus
outcome_status GstOutcome.needs_human_review = needs_human_review
outcome_status GstOutcome.gst_anomaly = gst_anomaly
outcome_status GstOutcome.verified_gst = verified_gst

save_validation :
    Settings → Services → ReceiptEvent → (ℕ → ℕ) → GstValidation → Action Store EnrichmentResult
save_validation settings services event clock v =
    save_gst_result event (outcome_status v.outcome) v.credit_payload (not settings.credit_disabled)
      (services.encrypt_audit event v.audit) (clock 6)

validate_and_save :
    Settings → Services → ReceiptEvent → (ℕ → ℕ) → Result GstContext → Action Store EnrichmentResult
unfolding save_validation
validate_and_save settings services event clock (err e) = raise e
validate_and_save settings services event clock (ok context) =
    save_validation settings services event clock
      (validate_gst services.build_aafi services.fetch_gst context)

-- A claim of the GST stage that fails.
abbrev if_checked : Option EnrichmentResult → Action Store EnrichmentResult
if_checked none = raise "RuntimeError"
if_checked (some result) =
    if is_checked result.gst_status then pure result else raise "RuntimeError"

reread_gst : ReceiptEvent → Action Store EnrichmentResult
reread_gst event s = if_checked (existing_enrichment_result event.receipt_id s) s

run_gst_stage : Settings → Services → ReceiptEvent → (ℕ → ℕ) → Action Store EnrichmentResult
unfolding validate_and_save on_error reread_gst
run_gst_stage settings services event clock = do
  won ← claim event gst (clock 5)
  let attempt = validate_and_save settings services event clock (services.load_gst_context event)
  if won then catch attempt (on_error event gst clock) else reread_gst event

after_reading : Settings → Services → ReceiptEvent → (ℕ → ℕ) → Stop → Action Store EnrichmentResult
unfolding run_gst_stage
after_reading settings services event clock (true, result) = pure result
after_reading settings services event clock (false, result) =
    if settings.gst_disabled then pure result else run_gst_stage settings services event clock

-- With `existing` as read at the start.
resume :
    Settings
    → Services
    → ReceiptEvent
    → (ℕ → ℕ)
    → Option EnrichmentResult
    → Action Store EnrichmentResult
unfolding first_reading after_reading
resume settings services event clock none = do
  found ← first_reading settings services event clock
  after_reading settings services event clock found
resume settings services event clock (some result) =
    if settings.gst_disabled || is_checked result.gst_status
    then pure result
    else after_reading settings services event clock (false, result)

unfoldable pub process_receipt_event :
    Settings → Services → ReceiptEvent → (ℕ → ℕ) → Action Store EnrichmentResult
unfolding resume
process_receipt_event settings services event clock s =
    resume settings services event clock (existing_enrichment_result event.receipt_id s) s
