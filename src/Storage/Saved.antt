-- ===== src/Storage/Saved.antt =====
-- What the transactions of services/enrichment/app/storage.py leave in the tables.
use challanse_website.Stage.{StageKind, error_prefix}
use challanse_website.Pipeline.{
  ReceiptEvent, EnrichmentStatus, EnrichmentResult, EnrichmentRow, Store, EventType, Payload,
  enrichment_callback, result_payload, AuditBody, provider_failed_terminal, ocr_completed,
  credit_delivery, credit_payload, gst_validated,
}
use challanse_website.Storage.{
  existing_enrichment_result, OcrFindings, save_ocr_result, save_gst_result,
  finalize_provider_failure, insert_event, insert_callback, same_event, new_outbox_row,
  insert_audit, failure_row, ocr_row, insert_credit, set_enrichment, finish_ocr_stages, result_of,
  ocr_result, gst_update, gst_row,
}
use challanse_website.Prelude.{
  ℕ, String, ◌≡◌, refl, sym, subst, Bool, true, false, not, Option, none, some, arith, ◌||◌,
  is_some, find?, Result, ok, err, find?-append_self, find?-append_old,
}

-- The outbox holds the event of this type and version about the receipt.
abbrev pub is_queued : ℕ → EventType → ℕ → Store → Bool
is_queued r kind version s = is_some (find? (same_event r kind version) s.outbox)

abbrev pub is_final : EnrichmentStatus → Bool
is_final EnrichmentStatus.processing = false
is_final _ = true

abbrev pub IsAnnounced : ℕ → Store → Option EnrichmentRow → Type 0
IsAnnounced r s none = Unit
IsAnnounced r s (some row) =
    is_final row.status ≡ true → is_queued r enrichment_callback row.version s ≡ true

-- The result of the receipt, unless it is still PROCESSING, has its callback in the outbox.
abbrev pub HasCallback : ℕ → Store → Type 0
HasCallback r s = IsAnnounced r s (s.enrichments r)

insert_event-queued :
    (event : ReceiptEvent) (kind : EventType) (version : ℕ) (payload : Payload) (now : ℕ)
    (s : Store)
    → is_queued event.receipt_id kind version (insert_event event kind version payload now s) ≡ true
unfolding insert_event
insert_event-queued event kind version payload now s = ground (
  arith,
  find?-append_self (same_event event.receipt_id kind version) s.outbox
      (new_outbox_row s.next_id event kind version payload now) (ground arith),
)

insert_event-keeps :
    (r : ℕ) (j : EventType) (v : ℕ) (event : ReceiptEvent) (kind : EventType) (version : ℕ)
    (payload : Payload) (now : ℕ) (s : Store)
    → is_queued r j v s ≡ true
    → is_queued r j v (insert_event event kind version payload now s) ≡ true
unfolding insert_event
insert_event-keeps r j v event kind version payload now s h = ground (
  arith,
  find?-append_old (same_event r j v) s.outbox
      (new_outbox_row s.next_id event kind version payload now),
)

pub finalize-existing :
    (event : ReceiptEvent) (k : StageKind) (e : String) (now : ℕ) (s : Store)
    → existing_enrichment_result event.receipt_id (finalize_provider_failure event k e now s).1
      ≡ some (finalize_provider_failure event k e now s).0
unfolding existing_enrichment_result finalize_provider_failure
finalize-existing event k e now s = ground arith

pub ocr-existing :
    (event : ReceiptEvent) (status : EnrichmentStatus) (found : OcrFindings) (finalize : Bool)
    (now : ℕ) (s : Store)
    → existing_enrichment_result event.receipt_id s ≡ none
    → existing_enrichment_result event.receipt_id
        (save_ocr_result event status found finalize now s).1
      ≡ some (save_ocr_result event status found finalize now s).0
unfolding existing_enrichment_result save_ocr_result
ocr-existing event status found finalize now s h = ground arith

pub gst-existing :
    (event : ReceiptEvent) (status : EnrichmentStatus) (credit : Option String) (enabled : Bool)
    (encrypted : Result String) (now : ℕ) (s s' : Store) (r : EnrichmentResult)
    → save_gst_result event status credit enabled encrypted now s ≡ (ok r, s')
    → existing_enrichment_result event.receipt_id s' ≡ some r
unfolding existing_enrichment_result save_gst_result
gst-existing event status credit enabled encrypted now s s' r h = ground arith

enrichments-insert_event :
    (event : ReceiptEvent) (kind : EventType) (version : ℕ) (payload : Payload) (now : ℕ)
    (s : Store)
    → (insert_event event kind version payload now s).enrichments ≡ s.enrichments
unfolding insert_event
enrichments-insert_event event kind version payload now s = ground arith

enrichments-insert_audit :
    (event : ReceiptEvent) (body : AuditBody) (s : Store)
    → (insert_audit event body s).enrichments ≡ s.enrichments
unfolding insert_audit
enrichments-insert_audit event body s = ground arith

outbox-insert_audit :
    (event : ReceiptEvent) (body : AuditBody) (s : Store)
    → (insert_audit event body s).outbox ≡ s.outbox
unfolding insert_audit
outbox-insert_audit event body s = ground arith

insert_callback-HasCallback :
    (event : ReceiptEvent) (result : EnrichmentResult) (now : ℕ) (s : Store) (row : EnrichmentRow)
    → s.enrichments event.receipt_id ≡ some row
    → row.version ≡ result.version
    → HasCallback event.receipt_id (insert_callback event result now s)
unfolding insert_callback
insert_callback-HasCallback event result now s row at same =
    let p =
      enrichments-insert_event event enrichment_callback result.version (result_payload result) now
        s in
    let q =
      insert_event-queued event enrichment_callback result.version (result_payload result) now s in
    ground arith

pub finalize-HasCallback :
    (event : ReceiptEvent) (k : StageKind) (e : String) (now : ℕ) (s : Store)
    → HasCallback event.receipt_id (finalize_provider_failure event k e now s).1
unfolding finalize_provider_failure
finalize-HasCallback event k e now s =
    let row = failure_row (s.enrichments event.receipt_id) event e now in
    let s₁ = set_enrichment event.receipt_id row s in
    let s₂ = insert_audit event (provider_failed_terminal k (error_prefix e)) s₁ in
    insert_callback-HasCallback event (result_of event.receipt_id row) now s₂ row (ground arith)
      refl

pub ocr-HasCallback :
    (event : ReceiptEvent) (status : EnrichmentStatus) (found : OcrFindings) (finalize : Bool)
    (now : ℕ) (s : Store)
    → finalize || not (is_final status) ≡ true
    → HasCallback event.receipt_id (save_ocr_result event status found finalize now s).1
unfolding save_ocr_result
ocr-HasCallback event status found true now s h =
    let row = ocr_row (s.enrichments event.receipt_id) event status found now in
    let s₁ = set_enrichment event.receipt_id row s in
    let s₂ =
      insert_audit event
        (ocr_completed status found.confidence (is_some found.gps_latitude) found.provider_version)
        s₁ in
    let s₃ = finish_ocr_stages event now s₂ in
    insert_callback-HasCallback event (ocr_result event status found row.version) now s₃ row
      (ground arith) refl
ocr-HasCallback event status found false now s h = ground arith

IsAnnounced-mono :
    (r : ℕ) (e : Option EnrichmentRow) (s s' : Store)
    → ((v : ℕ)
        → is_queued r enrichment_callback v s ≡ true
        → is_queued r enrichment_callback v s' ≡ true)
    → IsAnnounced r s e
    → IsAnnounced r s' e
IsAnnounced-mono r none s s' keep h = tt
IsAnnounced-mono r (some row) s s' keep h = λ final. keep row.version (h final)

insert_event-HasCallback :
    (event : ReceiptEvent) (kind : EventType) (version : ℕ) (payload : Payload) (now : ℕ) (r : ℕ)
    (s : Store)
    → HasCallback r s
    → HasCallback r (insert_event event kind version payload now s)
insert_event-HasCallback event kind version payload now r s h =
    let s' = insert_event event kind version payload now s in
    subst (λ (f : ℕ → Option EnrichmentRow). IsAnnounced r s' (f r))
      (sym (enrichments-insert_event event kind version payload now s))
      (IsAnnounced-mono r (s.enrichments r) s s'
        (λ v. insert_event-keeps r enrichment_callback v event kind version payload now s) h)

insert_credit-HasCallback :
    (event : ReceiptEvent) (version : ℕ) (credit : Option String) (enabled : Bool) (now : ℕ)
    (s : Store)
    → HasCallback event.receipt_id s
    → HasCallback event.receipt_id (insert_credit event version credit enabled now s)
insert_credit-HasCallback event version none enabled now s h = h
insert_credit-HasCallback event version (some payload) false now s h = h
insert_credit-HasCallback event version (some payload) true now s h =
    insert_event-HasCallback event credit_delivery version (credit_payload payload) now
      event.receipt_id s h

gst_update-HasCallback :
    (event : ReceiptEvent) (status : EnrichmentStatus) (credit : Option String) (enabled : Bool)
    (encrypted : Result String) (now : ℕ) (old : Option EnrichmentRow) (s : Store)
    → HasCallback event.receipt_id s
    → HasCallback event.receipt_id (gst_update event status credit enabled encrypted now old s).1
unfolding save_gst_result
gst_update-HasCallback event status credit enabled encrypted now none s h = h
gst_update-HasCallback event status credit enabled (err e) now (some row) s h = h
gst_update-HasCallback event status credit enabled (ok ciphertext) now (some row) s h =
    let row' = gst_row row status now in
    let s₁ = set_enrichment event.receipt_id row' s in
    let s₂ = insert_audit event (gst_validated status ciphertext) s₁ in
    let s₃ = insert_callback event (result_of event.receipt_id row') now s₂ in
    insert_credit-HasCallback event row'.version credit enabled now s₃ (
      insert_callback-HasCallback event (result_of event.receipt_id row') now s₂ row' (ground arith)
        refl)

pub gst-HasCallback :
    (event : ReceiptEvent) (status : EnrichmentStatus) (credit : Option String) (enabled : Bool)
    (encrypted : Result String) (now : ℕ) (s : Store)
    → HasCallback event.receipt_id s
    → HasCallback event.receipt_id (save_gst_result event status credit enabled encrypted now s).1
unfolding save_gst_result
gst-HasCallback event status credit enabled encrypted now s h =
    gst_update-HasCallback event status credit enabled encrypted now
      (s.enrichments event.receipt_id) s h

pub gst-raises :
    (event : ReceiptEvent) (status : EnrichmentStatus) (credit : Option String) (enabled : Bool)
    (encrypted : Result String) (now : ℕ) (s s' : Store) (e : String)
    → save_gst_result event status credit enabled encrypted now s ≡ (err e, s')
    → s' ≡ s
unfolding save_gst_result
gst-raises event status credit enabled encrypted now s s' e h = ground arith

-- An OCR result that is not final queues nothing.
pub ocr-outbox :
    (event : ReceiptEvent) (status : EnrichmentStatus) (found : OcrFindings) (now : ℕ) (s : Store)
    → (save_ocr_result event status found false now s).1.outbox ≡ s.outbox
unfolding save_ocr_result
ocr-outbox event status found now s = ground arith
