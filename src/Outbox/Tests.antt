-- ===== src/Outbox/Tests.antt =====
-- The dispatcher on an outbox with two events.
use challanse_website.Stage.Run.{empty}
use challanse_website.Pipeline.{
  EnrichmentResult, EnrichmentStatus, not_checked, EventType, result_payload, OutboxStatus,
  OutboxRow, Projection, ReceiptStatus, Store,
}
use challanse_website.Outbox.{
  claim_outbox_events, Delivery, memory, dispatch_outbox_once, mark_outbox_delivered, dispatch_all,
  dispatch_event, candidates,
}
use challanse_website.Outbox.Lease.{claims_disjoint}
use challanse_website.Outbox.Settle.{ids, IsReleased, dispatch_releases}
use challanse_website.Outbox.Projected.{KeepsDecision, dispatch-KeepsDecision}
use challanse_website.Prelude.{
  ◌≡◌, refl, ◌≢◌, true, none, some, [], ◌∷◌, arith, ◌==◌, All, sort_by, ok, if◌then◌else◌, nat_eq,
}

abbrev result : EnrichmentResult
result = record {
  receipt_id = 7;
  status = EnrichmentStatus.ready_for_review;
  ocr_confidence = some 95_000;
  raw_ocr_json = "{}";
  gst_status = not_checked;
  version = 1;
}

abbrev callback : OutboxRow
callback = record {
  id = 0;
  organization_id = 1;
  aggregate_id = 7;
  event_type = EventType.enrichment_callback;
  event_version = 1;
  payload = result_payload result;
  status = OutboxStatus.pending;
  attempts = 0;
  available_at = 5;
  locked_until = none;
  delivered_at = none;
  last_error_code = none;
  created_at = 5;
}

abbrev receipt : Projection
receipt = record {
  organization_id = 1;
  status = ReceiptStatus.received;
  enrichment_status = EnrichmentStatus.queued;
  ocr_confidence = none;
  raw_ocr_json = "{}";
  gst_status = not_checked;
}

abbrev tables : Store
tables = record {
  stages = empty;
  enrichments = λ r. none;
  audits = [];
  outbox = callback ∷ record callback { id = 1; aggregate_id = 8; created_at = 4 } ∷ [];
  receipts = λ r. if r == 7 then some receipt else none;
  queue = [];
  next_id = 2;
}

abbrev delivery : Delivery
delivery = record {
  event_queue_provider = memory;
  credit_disabled = true;
  send_receipt = λ e. ok tt;
  send_credit = λ c. ok tt;
}

-- The event of the receipt that is there is delivered, the other one has to wait.
dispatch_two : (dispatch_outbox_once delivery 20 10 (λ i. 11) tables).0 ≡ 1
unfolding dispatch_outbox_once claim_outbox_events dispatch_all dispatch_event sort_by candidates
    mark_outbox_delivered
dispatch_two = refl

claims_disjoint_example :
    let (first, s') = claim_outbox_events 20 10 tables in
    let (second, s'') = claim_outbox_events 20 100_000_000 s' in
    All (λ e. All (λ f. e.id ≢ f.id) first) second
claims_disjoint_example = claims_disjoint 20 20 10 100_000_000 tables (omega arith)

dispatch_releases_example :
    let after = (dispatch_outbox_once delivery 20 10 (λ i. 11) tables).1 in
    (ids after.outbox ≡ ids tables.outbox)
    × All (IsReleased delivery (claim_outbox_events 20 10 tables).0) after.outbox
dispatch_releases_example = dispatch_releases delivery 20 10 (λ i. 11) tables

dispatch-KeepsDecision_example :
    KeepsDecision
      (some receipt)
      ((dispatch_outbox_once delivery 20 10 (λ i. 11) tables).1.receipts 7)
dispatch-KeepsDecision_example = dispatch-KeepsDecision delivery 20 10 (λ i. 11) tables 7
