-- ===== src/Workflow/Outcome.antt =====
-- What a call of `process_receipt_event` (services/enrichment/app/workflow.py) leaves behind,
-- however it ends.
use challanse_website.Stage
use challanse_website.Stage.{StageKind, ocr, gst, image_fetch}
use challanse_website.Gst.{GstContext}
use challanse_website.Pipeline.{
  ReceiptEvent, EnrichmentResult, Store, is_checked, processing, EnrichmentStatus,
}
use challanse_website.Storage.{existing_enrichment_result, OcrFindings, save_gst_result}
use challanse_website.Storage.Saved.{
  HasCallback, finalize-existing, ocr-existing, gst-existing, gst-HasCallback, ocr-HasCallback,
  finalize-HasCallback, gst-raises, ocr-outbox,
}
use challanse_website.Workflow.{
  Settings, Services, process_receipt_event, on_error, save_findings, reread_ocr, run_ocr_stage,
  use_image, first_reading, validate_and_save, reread_gst, run_gst_stage, after_reading, resume,
  Fetched, image, bad_image, broken, fail, finalize, complete_image, fetch_and_verify, Stop,
  after_ocr,
}
use challanse_website.Prelude.{
  ℕ, String, ◌≡◌, refl, inl, inr, Bool, true, false, Option, none, some, List, arith, ◌||◌, ◌∙◌,
  Bool-cases, Option-cases, Result, ok, err, pure, handle_with, continue,
}

-- Of a call that began with the outbox of `s₀`: a result that is returned is the one stored; a raise
-- has queued nothing; and no final result is without its callback.
abbrev pub Leaves : ℕ → Store → Result EnrichmentResult × Store → Type 0
Leaves r s₀ (ok result, s) = (existing_enrichment_result r s ≡ some result) × HasCallback r s
Leaves r s₀ (err e, s) = (s.outbox ≡ s₀.outbox) × HasCallback r s

-- The same of the part before the GST stage; a result that goes on to that stage has queued nothing.
abbrev LeavesStop : Bool → ℕ → Store → Result Stop × Store → Type 0
LeavesStop gst_disabled r s₀ (ok (b, result), s) =
    (existing_enrichment_result r s ≡ some result)
    × HasCallback r s
    × (b ≡ false → gst_disabled ≡ false → s.outbox ≡ s₀.outbox)
LeavesStop gst_disabled r s₀ (err e, s) = (s.outbox ≡ s₀.outbox) × HasCallback r s

stop_outcome :
    (d : Bool) (r : ℕ) (s₀ : Store) (o : Result EnrichmentResult × Store)
    → Leaves r s₀ o
    → LeavesStop d r s₀ (continue (λ (x : EnrichmentResult). pure (true, x)) o)
stop_outcome d r s₀ (ok result, s) h = (h.0, h.1, λ ended. cc)
stop_outcome d r s₀ (err e, s) h = h

abbrev with_claim : ReceiptEvent → StageKind → ℕ → Store → Store
with_claim event k now s = record s {
  stages = (Stage.claim_stage event.organization_id event.receipt_id k now s.stages).1;
}

module _ (event : ReceiptEvent) (clock : ℕ → ℕ) (s₀ : Store) where
  finalize-Leaves :
      (k : StageKind) (e : String) (now : ℕ) (s : Store)
      → Leaves event.receipt_id s₀ (finalize event k e now s)
  finalize-Leaves k e now s =
      (finalize-existing event k e now s, finalize-HasCallback event k e now s)

  on_error-Leaves :
      (k : StageKind) (e : String) (s : Store)
      → s.outbox ≡ s₀.outbox
      → HasCallback event.receipt_id s
      → Leaves event.receipt_id s₀ (on_error event k clock e s)
  unfolding on_error
  on_error-Leaves k e s same h =
      elim (Bool-cases (Stage.fail_stage event.receipt_id k e false (clock 7) s.stages).0) [
        | inl gone ↦ rw gone (finalize-Leaves k e (clock 8) _)
        | inr again ↦ rw again (same, h)
      ]

  reread_ocr-Leaves :
      (s : Store)
      → s.outbox ≡ s₀.outbox
      → HasCallback event.receipt_id s
      → Leaves event.receipt_id s₀ (reread_ocr event s)
  unfolding reread_ocr
  reread_ocr-Leaves s same h = elim (Option-cases (existing_enrichment_result event.receipt_id s)) [
    | inl missing ↦ rw missing (same, h)
    | inr (result, found) ↦ rw found (found, h)
  ]

  reread_gst-Leaves :
      (s : Store)
      → s.outbox ≡ s₀.outbox
      → HasCallback event.receipt_id s
      → Leaves event.receipt_id s₀ (reread_gst event s)
  unfolding reread_gst
  reread_gst-Leaves s same h = ground arith

  module _ (settings : Settings) (services : Services) where
    abbrev LeavesPart : Result Stop × Store → Type 0
    LeavesPart = LeavesStop settings.gst_disabled event.receipt_id s₀

    save_findings-LeavesStop :
        (found : Result OcrFindings) (s : Store)
        → s.outbox ≡ s₀.outbox
        → HasCallback event.receipt_id s
        → existing_enrichment_result event.receipt_id s ≡ none
        → LeavesPart (after_ocr found (save_findings settings event clock found) s)
    unfolding save_findings
    save_findings-LeavesStop (err e) s same h new =
        stop_outcome settings.gst_disabled event.receipt_id s₀ (on_error event ocr clock e s)
          (on_error-Leaves ocr e s same h)
    save_findings-LeavesStop (ok found) s same h new = (
      ocr-existing event _ found settings.gst_disabled (clock 4) s new,
      ocr-HasCallback event _ found settings.gst_disabled (clock 4) s (ground arith),
      λ goes_on enabled. rw enabled (ocr-outbox event processing found (clock 4) s ∙ same),
    )

    run_ocr-LeavesStop :
        (bytes : List ℕ) (s : Store)
        → s.outbox ≡ s₀.outbox
        → HasCallback event.receipt_id s
        → existing_enrichment_result event.receipt_id s ≡ none
        → LeavesPart (run_ocr_stage settings services event clock bytes s)
    unfolding run_ocr_stage existing_enrichment_result
    run_ocr-LeavesStop bytes s same h new =
        elim (Bool-cases
          (Stage.claim_stage event.organization_id event.receipt_id ocr (clock 3) s.stages).0) [
            | inl won ↦ rw won (
                save_findings-LeavesStop (services.read_receipt bytes)
                  (with_claim event ocr (clock 3) s) same h new)
            | inr lost ↦ rw lost (
                stop_outcome settings.gst_disabled event.receipt_id s₀ _
                  (reread_ocr-Leaves (with_claim event ocr (clock 3) s) same h))
          ]

    use_image-LeavesStop :
        (fetched : Fetched) (s : Store)
        → s.outbox ≡ s₀.outbox
        → HasCallback event.receipt_id s
        → existing_enrichment_result event.receipt_id s ≡ none
        → LeavesPart (use_image settings services event clock fetched s)
    unfolding use_image existing_enrichment_result
    use_image-LeavesStop (image bytes) s same h new =
        run_ocr-LeavesStop bytes (complete_image event (clock 2) s) same h new
    use_image-LeavesStop (bad_image e) s same h new =
        let s' = (fail event image_fetch e true (clock 7) s).1 in
        stop_outcome settings.gst_disabled event.receipt_id s₀
          (finalize event image_fetch e (clock 8) s') (finalize-Leaves image_fetch e (clock 8) s')
    use_image-LeavesStop (broken e) s same h new =
        stop_outcome settings.gst_disabled event.receipt_id s₀ _
          (on_error-Leaves image_fetch e s same h)

    first_reading-LeavesStop :
        (s : Store)
        → s.outbox ≡ s₀.outbox
        → HasCallback event.receipt_id s
        → existing_enrichment_result event.receipt_id s ≡ none
        → LeavesPart (first_reading settings services event clock s)
    unfolding first_reading existing_enrichment_result
    first_reading-LeavesStop s same h new =
        let fetched =
          fetch_and_verify settings services event (services.fetch_receipt_image event) in
        ground (
          arith,
          use_image-LeavesStop fetched s same h new,
          use_image-LeavesStop fetched (with_claim event image_fetch (clock 1) s) same h new,
        )

    save_gst-Leaves :
        (status : EnrichmentStatus) (credit : Option String) (enabled : Bool)
        (encrypted : Result String) (now : ℕ) (s : Store) (o : Result EnrichmentResult × Store)
        → save_gst_result event status credit enabled encrypted now s ≡ o
        → s.outbox ≡ s₀.outbox
        → HasCallback event.receipt_id s
        → Leaves event.receipt_id s₀ o
    save_gst-Leaves status credit enabled encrypted now s (ok result, s') e same h = (
      gst-existing event status credit enabled encrypted now s s' result e,
      rw e at (gst-HasCallback event status credit enabled encrypted now s h),
    )
    save_gst-Leaves status credit enabled encrypted now s (err x, s') e same h =
        rw (gst-raises event status credit enabled encrypted now s s' x e) (same, h)

    validate_and_save-Leaves :
        (context : Result GstContext) (s : Store)
        → s.outbox ≡ s₀.outbox
        → HasCallback event.receipt_id s
        → Leaves event.receipt_id s₀ (validate_and_save settings services event clock context s)
    unfolding validate_and_save
    validate_and_save-Leaves (err e) s same h = (same, h)
    validate_and_save-Leaves (ok context) s same h =
        save_gst-Leaves _ _ _ _ (clock 6) s _ refl same h

    caught-Leaves :
        (o : Result EnrichmentResult × Store)
        → Leaves event.receipt_id s₀ o
        → Leaves event.receipt_id s₀ (handle_with (on_error event gst clock) o)
    caught-Leaves (ok result, s) h = h
    caught-Leaves (err e, s) (same, h) = on_error-Leaves gst e s same h

    run_gst-Leaves :
        (s : Store)
        → s.outbox ≡ s₀.outbox
        → HasCallback event.receipt_id s
        → Leaves event.receipt_id s₀ (run_gst_stage settings services event clock s)
    unfolding run_gst_stage
    run_gst-Leaves s same h =
        elim (Bool-cases
          (Stage.claim_stage event.organization_id event.receipt_id gst (clock 5) s.stages).0) [
            | inl won ↦ rw won (
                caught-Leaves _ (
                  validate_and_save-Leaves (services.load_gst_context event)
                    (with_claim event gst (clock 5) s) same h))
            | inr lost ↦ rw lost (reread_gst-Leaves (with_claim event gst (clock 5) s) same h)
          ]

    after_reading-Leaves :
        (o : Result Stop × Store)
        → LeavesPart o
        → Leaves event.receipt_id s₀ (continue (after_reading settings services event clock) o)
    unfolding after_reading
    after_reading-Leaves (err e, s) h = h
    after_reading-Leaves (ok (true, result), s) h = (h.0, h.1)
    after_reading-Leaves (ok (false, result), s) (stored, h, quiet) =
        elim (Bool-cases settings.gst_disabled) [
          | inl off ↦ rw off (stored, h)
          | inr on ↦ rw on (run_gst-Leaves s (quiet refl on) h)
        ]

    resume-Leaves :
        (existing : Option EnrichmentResult)
        → existing_enrichment_result event.receipt_id s₀ ≡ existing
        → HasCallback event.receipt_id s₀
        → Leaves event.receipt_id s₀ (resume settings services event clock existing s₀)
    unfolding resume
    resume-Leaves none new h =
        after_reading-Leaves (first_reading settings services event clock s₀)
          (first_reading-LeavesStop s₀ refl h new)
    resume-Leaves (some result) found h =
        elim (Bool-cases (settings.gst_disabled || is_checked result.gst_status)) [
          | inl finished ↦ rw finished (found, h)
          | inr open_stage ↦
              rw open_stage (after_reading-Leaves (ok (false, result), s₀) (found, h, λ b d. refl))
        ]

-- From tables in which the receipt has no final result without a callback: a result that the call
-- returns is the one now stored for the receipt; a call that raises has put nothing in the outbox;
-- and either way the receipt still has no final result without a callback in the outbox.
pub process-Leaves :
    (settings : Settings) (services : Services) (event : ReceiptEvent) (clock : ℕ → ℕ) (s : Store)
    → HasCallback event.receipt_id s
    → Leaves event.receipt_id s (process_receipt_event settings services event clock s)
unfolding process_receipt_event
process-Leaves settings services event clock s h =
    resume-Leaves event clock s settings services (existing_enrichment_result event.receipt_id s)
      refl h

-- From tables in which the receipt has no final result without a callback, a call that has returned a
-- result, with GST disabled or checked, can be repeated at any time and with any answers of the
-- services: it returns the same result and changes no table.
pub process_again :
    (settings : Settings) (services services' : Services) (event : ReceiptEvent)
    (clock clock' : ℕ → ℕ) (s : Store) {s' : Store} {result : EnrichmentResult}
    → HasCallback event.receipt_id s
    → process_receipt_event settings services event clock s ≡ (ok result, s')
    → settings.gst_disabled || is_checked result.gst_status ≡ true
    → process_receipt_event settings services' event clock' s' ≡ (ok result, s')
unfolding process_receipt_event
process_again settings services services' event clock clock' s {s'} {result} h e finished =
    let left = process-Leaves settings services event clock s h in
    let (stored, rest) = rw e at left in rw (stored, finished)
