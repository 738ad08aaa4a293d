-- ===== src/Workflow/Calm.antt =====
-- What a call of `process_receipt_event` (services/enrichment/app/workflow.py) leaves alone: the local
-- queue. It may draw ids.
use challanse_website.Stage
use challanse_website.Stage.{StageKind, ocr, gst, image_fetch}
use challanse_website.Gst.{GstContext, validate_gst}
use challanse_website.Pipeline.{ReceiptEvent, EnrichmentResult, Store, is_checked, processing}
use challanse_website.Storage.{
  OcrFindings, save_ocr_result, save_gst_result, finalize_provider_failure,
  existing_enrichment_result,
}
use challanse_website.Storage.Calm.{
  IsCalm, IsCalm-refl, IsCalm-trans, finalize-IsCalm, ocr-IsCalm, gst-IsCalm,
}
use challanse_website.Workflow.{
  Settings, Services, review_status, outcome_status, process_receipt_event, on_error, save_findings,
  save_validation, reread_ocr, run_ocr_stage, use_image, first_reading, validate_and_save,
  reread_gst, run_gst_stage, after_reading, resume, claim, claim_image, Fetched, image, bad_image,
  broken, finalize, complete_image, fetch_and_verify, Stop, after_ocr,
}
use challanse_website.Prelude.{
  not, ℕ, String, inl, inr, true, false, Option, none, some, List, arith, ◌||◌, Bool-cases,
  Option-cases, Result, ok, err, Action, pure, handle_with, continue, catch, if◌then◌else◌, ◌>>=◌,
}

-- The call has left the queue alone.
abbrev Stays : {A : Type 0} → Store → Result A × Store → Type 0
Stays s₀ o = IsCalm s₀ o.1

continue-Stays :
    {A B : Type 0} (s₀ : Store) (f : A → Action Store B) (o : Result A × Store)
    → Stays s₀ o
    → ((a : A) (s : Store) → IsCalm s₀ s → Stays s₀ (f a s))
    → Stays s₀ (continue f o)
continue-Stays s₀ f (ok a, s) h step = step a s h
continue-Stays s₀ f (err e, s) h step = h

handle-Stays :
    {A : Type 0} (s₀ : Store) (f : String → Action Store A) (o : Result A × Store)
    → Stays s₀ o
    → ((e : String) (s : Store) → IsCalm s₀ s → Stays s₀ (f e s))
    → Stays s₀ (handle_with f o)
handle-Stays s₀ f (ok a, s) h step = h
handle-Stays s₀ f (err e, s) h step = step e s h

module _ (event : ReceiptEvent) (clock : ℕ → ℕ) (s₀ : Store) where
  finalize-Stays :
      (k : StageKind) (e : String) (now : ℕ) (s : Store)
      → IsCalm s₀ s
      → Stays s₀ (finalize event k e now s)
  finalize-Stays k e now s h =
      IsCalm-trans s₀ s (finalize_provider_failure event k e now s).1 h
        (finalize-IsCalm event k e now s)

  on_error-Stays :
      (k : StageKind) (e : String) (s : Store) → IsCalm s₀ s → Stays s₀ (on_error event k clock e s)
  unfolding on_error
  on_error-Stays k e s h =
      let (terminal, stages) = Stage.fail_stage event.receipt_id k e false (clock 7) s.stages in
      elim (Bool-cases terminal) [
        | inl f ↦ rw f (finalize-Stays k e (clock 8) (record s { stages = stages }) h)
        | inr f ↦ rw f h
      ]

  module _ (settings : Settings) (services : Services) where
    save_findings-Stays :
        (found : Result OcrFindings) (s : Store)
        → IsCalm s₀ s
        → Stays s₀ (save_findings settings event clock found s)
    unfolding save_findings
    save_findings-Stays (err e) s h = on_error-Stays ocr e s h
    save_findings-Stays (ok found) s h =
        let status = if settings.gst_disabled then review_status found.confidence else processing in
        IsCalm-trans s₀ s (save_ocr_result event status found settings.gst_disabled (clock 4) s).1 h
          (ocr-IsCalm event status found settings.gst_disabled (clock 4) s)

    reread_ocr-Stays : (s : Store) → IsCalm s₀ s → Stays s₀ (reread_ocr event s)
    unfolding reread_ocr
    reread_ocr-Stays s h = elim (Option-cases (existing_enrichment_result event.receipt_id s)) [
      | inl e ↦ rw e h
      | inr (r, e) ↦ rw e h
    ]

    after_ocr-Stays :
        (found : Result OcrFindings) (m : Action Store EnrichmentResult) (s : Store)
        → Stays s₀ (m s)
        → Stays s₀ (after_ocr found m s)
    after_ocr-Stays (err e) m s h = continue-Stays s₀ _ (m s) h (λ a s k. k)
    after_ocr-Stays (ok found) m s h = continue-Stays s₀ _ (m s) h (λ a s k. k)

    run_ocr_stage-Stays :
        (bytes : List ℕ) (s : Store)
        → IsCalm s₀ s
        → Stays s₀ (run_ocr_stage settings services event clock bytes s)
    unfolding run_ocr_stage
    run_ocr_stage-Stays bytes s h =
        continue-Stays s₀
          (λ won.
            if won
            then after_ocr (services.read_receipt bytes)
                (save_findings settings event clock (services.read_receipt bytes))
            else reread_ocr event >>= (λ result. pure (true, result)))
          (claim event ocr (clock 3) s) h
          (λ won s k. elim (Bool-cases won) [
            | inl e ↦ rw e (
                after_ocr-Stays (services.read_receipt bytes)
                  (save_findings settings event clock (services.read_receipt bytes)) s
                  (save_findings-Stays (services.read_receipt bytes) s k))
            | inr e ↦
                rw e (continue-Stays s₀ _ (reread_ocr event s) (reread_ocr-Stays s k) (λ a s k. k))
          ])

    use_image-Stays :
        (fetched : Fetched) (s : Store)
        → IsCalm s₀ s
        → Stays s₀ (use_image settings services event clock fetched s)
    unfolding use_image complete_image
    use_image-Stays (image bytes) s h =
        run_ocr_stage-Stays bytes (complete_image event (clock 2) s) h
    use_image-Stays (bad_image e) s h =
        let stages = (Stage.fail_stage event.receipt_id image_fetch e true (clock 7) s.stages).1 in
        finalize-Stays image_fetch e (clock 8) (record s { stages = stages }) h
    use_image-Stays (broken e) s h =
        continue-Stays s₀ _ (on_error event image_fetch clock e s)
          (on_error-Stays image_fetch e s h) (λ a s k. k)

    claim_image-Stays : (s : Store) → IsCalm s₀ s → Stays s₀ (claim_image event clock s)
    unfolding claim_image
    claim_image-Stays s h = ground (arith, h)

    first_reading-Stays :
        (s : Store) → IsCalm s₀ s → Stays s₀ (first_reading settings services event clock s)
    unfolding first_reading
    first_reading-Stays s h =
        continue-Stays s₀ _ (claim_image event clock s) (claim_image-Stays s h) (λ u s k.
          use_image-Stays
            (fetch_and_verify settings services event (services.fetch_receipt_image event)) s k)

    validate-Stays :
        (context : Result GstContext) (s : Store)
        → IsCalm s₀ s
        → Stays s₀ (validate_and_save settings services event clock context s)
    unfolding validate_and_save save_validation
    validate-Stays (err e) s h = h
    validate-Stays (ok context) s h =
        let v = validate_gst services.build_aafi services.fetch_gst context in
        let status = outcome_status v.outcome in
        let enabled = not settings.credit_disabled in
        let encrypted = services.encrypt_audit event v.audit in
        IsCalm-trans s₀ s
          (save_gst_result event status v.credit_payload enabled encrypted (clock 6) s).1 h
          (gst-IsCalm event status v.credit_payload enabled encrypted (clock 6) s)

    reread_gst-Stays : (s : Store) → IsCalm s₀ s → Stays s₀ (reread_gst event s)
    unfolding reread_gst
    reread_gst-Stays s h = ground (arith, h)

    run_gst_stage-Stays :
        (s : Store) → IsCalm s₀ s → Stays s₀ (run_gst_stage settings services event clock s)
    unfolding run_gst_stage
    run_gst_stage-Stays s h =
        continue-Stays s₀
          (λ won.
            if won
            then catch
                (validate_and_save settings services event clock (services.load_gst_context event))
                (on_error event gst clock)
            else reread_gst event)
          (claim event gst (clock 5) s) h
          (λ won s k. elim (Bool-cases won) [
            | inr e ↦ rw e (reread_gst-Stays s k)
            | inl e ↦ rw e (
                handle-Stays s₀ (on_error event gst clock)
                  (validate_and_save settings services event clock (services.load_gst_context event)
                    s)
                  (validate-Stays (services.load_gst_context event) s k)
                  (λ e s k. on_error-Stays gst e s k))
          ])

    after_reading-Stays :
        (stop : Stop) (s : Store)
        → IsCalm s₀ s
        → Stays s₀ (after_reading settings services event clock stop s)
    unfolding after_reading
    after_reading-Stays (true, result) s h = h
    after_reading-Stays (false, result) s h = elim (Bool-cases settings.gst_disabled) [
      | inl e ↦ rw e h
      | inr e ↦ rw e (run_gst_stage-Stays s h)
    ]

    resume-Stays :
        (found : Option EnrichmentResult) (s : Store)
        → IsCalm s₀ s
        → Stays s₀ (resume settings services event clock found s)
    unfolding resume
    resume-Stays none s h =
        continue-Stays s₀ _ (first_reading settings services event clock s)
          (first_reading-Stays s h) (λ stop s k. after_reading-Stays stop s k)
    resume-Stays (some result) s h =
        elim (Bool-cases (settings.gst_disabled || is_checked result.gst_status)) [
          | inl e ↦ rw e h
          | inr e ↦ rw e (after_reading-Stays (false, result) s h)
        ]

-- The handler leaves the local queue alone.
pub process-IsCalm :
    (settings : Settings) (services : Services) (event : ReceiptEvent) (clock : ℕ → ℕ) (s : Store)
    → IsCalm s (process_receipt_event settings services event clock s).1
unfolding process_receipt_event
process-IsCalm settings services event clock s =
    resume-Stays event clock s settings services (existing_enrichment_result event.receipt_id s) s
      (IsCalm-refl s)
