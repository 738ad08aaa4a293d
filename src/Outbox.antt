-- ===== src/Outbox.antt =====
-- services/enrichment/app/outbox.py: events are claimed under a lock, delivered, and marked.
pub mod Lease
pub mod Settle
pub mod Kept
pub mod Queued
pub mod Projected
mod Tests
use challanse_website.Stage
use challanse_website.Stage.{
  Stages, StageKind, StageRow, StageStatus, minutes, set_stage, error_prefix, edge_callback,
  new_row,
}
use challanse_website.LocalQueue.{can_claim, seconds, is_locked_status, enqueue_local}
use challanse_website.Pipeline.{
  ReceiptEvent, EnrichmentStatus, EnrichmentResult, EventType, enrichment_callback,
  receipt_enrichment_queue, Payload, result_payload, event_payload, credit_payload, OutboxStatus,
  OutboxRow, Projection, ReceiptStatus, received, needs_review, Store,
}
use challanse_website.Prelude.{
  ℕ, suc, String, Bool, true, false, Option, none, some, List, [], ◌∷◌, map, min, ◌+◌, ◌^◌, ◌&&◌,
  leb, ◌==◌, select, update, take, sort_by, by_key, exists_in, Result, ok, err, Action, transaction,
  if◌then◌else◌, nat_eq,
}

-- `OutboxEvent`; the destination and the idempotency key follow from the other fields.
pub record OutboxEvent : Type 0 where
  pub id : ℕ
  pub organization_id : ℕ
  pub aggregate_id : ℕ
  pub event_type : EventType
  pub payload : Payload
  pub attempts : ℕ

-- `_delivery_stage`
delivery_stage : EventType → Option StageKind
delivery_stage EventType.enrichment_callback = some edge_callback
delivery_stage EventType.credit_delivery = some StageKind.credit_delivery
delivery_stage EventType.receipt_enrichment_queue = none

abbrev pub is_candidate : ℕ → OutboxRow → Bool
is_candidate now row = can_claim row.status row.available_at row.locked_until now

abbrev pub has_id : List OutboxRow → OutboxRow → Bool
has_id rows row = exists_in (λ c. c.id == row.id) rows

abbrev pub locked_row : ℕ → OutboxRow → OutboxRow
locked_row now row = record row {
  status = OutboxStatus.processing;
  attempts = row.attempts + 1;
  locked_until = some (now + minutes 2);
}

abbrev pub event_of : OutboxRow → OutboxEvent
event_of row = record {
  id = row.id;
  organization_id = row.organization_id;
  aggregate_id = row.aggregate_id;
  event_type = row.event_type;
  payload = row.payload;
  attempts = row.attempts;
}

-- The upsert of the delivery stage, for one claimed row.
abbrev started_stage : Option StageRow → ℕ → ℕ → StageRow
started_stage none org now = record (new_row org now) { locked_until = some (now + minutes 2) }
started_stage (some row) org now = record row {
  status = StageStatus.processing;
  attempts = row.attempts + 1;
  last_error_code = none;
  locked_until = some (now + minutes 2);
  updated_at = now;
}

start_stage : Option StageKind → OutboxEvent → ℕ → Stages → Stages
start_stage none event now t = t
start_stage (some k) event now t =
    set_stage event.aggregate_id k
      (started_stage (t event.aggregate_id k) event.organization_id now) t

start_stages : List OutboxEvent → ℕ → Stages → Stages
unfolding start_stage delivery_stage
start_stages [] now t = t
start_stages (event ∷ events) now t =
    start_stages events now (start_stage (delivery_stage event.event_type) event now t)

-- The candidates of the common table expression.
unfoldable pub candidates : ℕ → ℕ → List OutboxRow → List OutboxRow
unfolding can_claim
candidates limit now rows =
    take limit (sort_by (by_key (λ row. row.created_at)) (select (is_candidate now) rows))

unfoldable pub claim_outbox_events : ℕ → ℕ → Store → List OutboxEvent × Store
unfolding start_stages
claim_outbox_events limit now s =
    let outbox = update (has_id (candidates limit now s.outbox)) (locked_row now) s.outbox in
    let events = map event_of (select (has_id (candidates limit now s.outbox)) outbox) in
    (events, record s { outbox = outbox; stages = start_stages events now s.stages })

-- An UPDATE of the delivery stage, if there is such a row.
abbrev update_row : (StageRow → StageRow) → Option StageRow → ℕ → StageKind → Stages → Stages
update_row f none r k t = t
update_row f (some row) r k t = set_stage r k (f row) t

abbrev update_stage : (StageRow → StageRow) → Option StageKind → OutboxEvent → Stages → Stages
update_stage f none event t = t
update_stage f (some k) event t = update_row f (t event.aggregate_id k) event.aggregate_id k t

abbrev is_held : OutboxEvent → OutboxRow → Bool
is_held event row = row.id == event.id && is_locked_status row.status

unfoldable pub mark_outbox_delivered : OutboxEvent → ℕ → Store → Store
unfolding delivery_stage
mark_outbox_delivered event now s = record s {
  outbox =
      update (is_held event)
        (λ row. record row {
          status = OutboxStatus.delivered;
          delivered_at = some now;
          locked_until = none;
        })
        s.outbox;
  stages =
      update_stage
        (λ row. record row {
          status = StageStatus.completed;
          completed_at = some now;
          locked_until = none;
          updated_at = now;
        })
        (delivery_stage event.event_type) event s.stages;
}

-- The pause before the next try, in microseconds.
unfoldable pub retry_delay : ℕ → ℕ
retry_delay attempts = seconds (min 3600 (2 ^ min attempts 10))

abbrev is_last : OutboxEvent → Bool
is_last event = leb 10 event.attempts

unfoldable pub mark_outbox_failed : OutboxEvent → String → ℕ → Store → Store
unfolding delivery_stage retry_delay
mark_outbox_failed event error_code now s = record s {
  outbox =
      update (is_held event)
        (λ row. record row {
          status =
              (if is_last event
                then OutboxStatus.failed_terminal
                else OutboxStatus.failed_retryable);
          last_error_code = some (error_prefix error_code);
          locked_until = none;
          available_at = now + retry_delay row.attempts;
        })
        s.outbox;
  stages =
      update_stage
        (λ row. record row {
          status =
              (if is_last event then StageStatus.failed_terminal else StageStatus.failed_retryable);
          last_error_code = some (error_prefix error_code);
          locked_until = none;
          updated_at = now;
        })
        (delivery_stage event.event_type) event s.stages;
}

unfoldable pub mark_outbox_disabled : OutboxEvent → ℕ → Store → Store
unfolding delivery_stage
mark_outbox_disabled event now s = record s {
  outbox =
      update (λ row. row.id == event.id)
        (λ row. record row { status = OutboxStatus.disabled; locked_until = none }) s.outbox;
  stages =
      update_stage
        (λ row. record row { status = StageStatus.disabled; locked_until = none; updated_at = now })
        (delivery_stage event.event_type) event s.stages;
}

abbrev is_reviewable : EnrichmentStatus → Bool
is_reviewable EnrichmentStatus.ready_for_review = true
is_reviewable EnrichmentStatus.needs_human_review = true
is_reviewable EnrichmentStatus.verified_gst = true
is_reviewable EnrichmentStatus.gst_anomaly = true
is_reviewable EnrichmentStatus.failed_terminal = true
is_reviewable _ = false

-- `CASE WHEN status = 'RECEIVED' THEN %s ELSE status END`
abbrev next_status : ReceiptStatus → ReceiptStatus → ReceiptStatus
next_status ReceiptStatus.received status = status
next_status old status = old

unfoldable pub project_row : EnrichmentResult → Projection → Projection
project_row result row = record row {
  status = next_status row.status (if is_reviewable result.status then needs_review else received);
  enrichment_status = result.status;
  ocr_confidence = result.ocr_confidence;
  raw_ocr_json = result.raw_ocr_json;
  gst_status = result.gst_status;
}

abbrev project_found : OutboxEvent → EnrichmentResult → Option Projection → Action Store (Unit {0})
project_found event result none s = (err "RuntimeError", s)
project_found event result (some row) s =
    if row.organization_id == event.organization_id
    then (
      ok tt,
      record s {
        receipts =
            λ r. if event.aggregate_id == r then some (project_row result row) else s.receipts r;
      },
    )
    else (err "RuntimeError", s)

project_payload : OutboxEvent → Payload → Action Store (Unit {0})
unfolding project_row
project_payload event (result_payload result) s =
    project_found event result (s.receipts event.aggregate_id) s
project_payload event (event_payload e) s = (err "ValidationError", s)
project_payload event (credit_payload c) s = (err "ValidationError", s)

unfoldable pub project_enrichment_result : OutboxEvent → Action Store (Unit {0})
unfolding project_payload
project_enrichment_result event = project_payload event event.payload

-- `get_event_queue()` by `event_queue_provider`.
pub data QueueProvider : Type 0 where
  memory sqs postgres disabled_queue : QueueProvider

-- Where events go: the configured queue, whether credit is disabled, and the answers of the
-- queues outside.
pub record Delivery : Type 0 where
  pub event_queue_provider : QueueProvider
  pub credit_disabled : Bool
  pub send_receipt : ReceiptEvent → Result (Unit {0})
  pub send_credit : String → Result (Unit {0})

enqueue : Delivery → QueueProvider → ReceiptEvent → ℕ → Action Store (Unit {0})
enqueue d memory event now s = (ok tt, s)
enqueue d sqs event now s = (d.send_receipt event, s)
enqueue d postgres event now s = (ok tt, enqueue_local event now s)
enqueue d disabled_queue event now s = (err "RuntimeError", s)

enqueue_payload : Delivery → Payload → ℕ → Action Store (Unit {0})
unfolding enqueue
enqueue_payload d (event_payload e) now s = enqueue d d.event_queue_provider e now s
enqueue_payload d (result_payload r) now s = (err "ValidationError", s)
enqueue_payload d (credit_payload c) now s = (err "ValidationError", s)

send_credit_payload : Delivery → Payload → Action Store (Unit {0})
send_credit_payload d (credit_payload c) s = (d.send_credit c, s)
send_credit_payload d _ s = (err "TypeError", s)

-- The branches of the `try` block that deliver.
deliver : Delivery → OutboxEvent → EventType → ℕ → Action Store (Unit {0})
unfolding project_enrichment_result enqueue_payload send_credit_payload
deliver d event EventType.enrichment_callback now = project_enrichment_result event
deliver d event EventType.receipt_enrichment_queue now = enqueue_payload d event.payload now
deliver d event EventType.credit_delivery now = send_credit_payload d event.payload

abbrev is_credit : EventType → Bool
is_credit EventType.credit_delivery = true
is_credit _ = false

-- Whether the event counts as delivered, and the tables after it is marked.
abbrev marked : OutboxEvent → ℕ → Result (Unit {0}) × Store → ℕ × Store
marked event now (ok u, s) = (1, mark_outbox_delivered event now s)
marked event now (err e, s) = (0, mark_outbox_failed event e now s)

unfoldable pub dispatch_event : Delivery → OutboxEvent → ℕ → Store → ℕ × Store
unfolding deliver
dispatch_event d event now s =
    if is_credit event.event_type && d.credit_disabled
    then (0, mark_outbox_disabled event now s)
    else marked event now (transaction (deliver d event event.event_type now) s)

-- The loop; the transactions of the i-th event come at `clock i`.
unfoldable pub dispatch_all : Delivery → List OutboxEvent → (ℕ → ℕ) → Store → ℕ × Store
dispatch_all d [] clock s = (0, s)
dispatch_all d (event ∷ events) clock s =
    let (one, s₁) = dispatch_event d event (clock 0) s in
    let (rest, s₂) = dispatch_all d events (λ i. clock (suc i)) s₁ in (one + rest, s₂)

unfoldable pub dispatch_outbox_once : Delivery → ℕ → ℕ → (ℕ → ℕ) → Store → ℕ × Store
dispatch_outbox_once d limit now clock s =
    let (events, s₁) = claim_outbox_events limit now s in dispatch_all d events clock s₁
