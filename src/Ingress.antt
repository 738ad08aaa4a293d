-- ===== src/Ingress.antt =====
-- The ingress of receipt events: PostgresIngressStore of services/enrichment/app/ingress.py and the
-- route `receipt_event` of services/enrichment/app/main.py.
pub mod Rows
pub mod Owned
pub mod Kept
pub mod Once
mod Tests
use challanse_website.Pipeline.{ReceiptEvent}
use challanse_website.Prelude.{
  ℕ, String, Bool, true, false, not, Option, none, some, List, [], ◌∷◌, ◌++◌, ◌&&◌, ◌||◌, ◌==◌,
  ◌!=◌, find?, update, delete, exists_in, is_some, Result, ok, err, Action, if◌then◌else◌, nat_eq,
  string_eq,
}

pub data IngressStatus : Type 0 where
  reserved queued : IngressStatus

-- A row of `service_ingress_requests`, newest first
pub record IngressRow : Type 0 where
  pub request_id : String
  pub organization_id : ℕ
  pub receipt_id : ℕ
  pub key_id : String
  pub content_sha256 : String
  pub status : IngressStatus
  pub task_id : Option String

pub record IngressReservation : Type 0 where
  pub duplicate : Bool
  pub status : IngressStatus
  pub task_id : Option String
  pub request_id : String

-- A request whose signature was verified (`ServiceRequest`)
pub record ServiceRequest : Type 0 where
  pub request_id : String
  pub key_id : String
  pub content_sha256 : String

-- The table, and what the queue has taken
pub record Gate : Type 0 where
  pub requests : List IngressRow
  pub enqueued : List ReceiptEvent

abbrev pub is_reserved : IngressStatus → Bool
is_reserved reserved = true
is_reserved queued = false

-- `WHERE request_id = …`, of the rows that the organization sees
abbrev pub has_request : ℕ → String → IngressRow → Bool
has_request organization id row = row.organization_id == organization && row.request_id == id

abbrev pub has_receipt : ℕ → ℕ → IngressRow → Bool
has_receipt organization receipt row =
    row.organization_id == organization && row.receipt_id == receipt

-- The primary key and the unique receipts of the table, of any organization
abbrev pub conflicts : ServiceRequest → ReceiptEvent → IngressRow → Bool
conflicts q event row = row.request_id == q.request_id || row.receipt_id == event.receipt_id

abbrev pub reservation_of : IngressRow → IngressReservation
reservation_of row = record {
  duplicate = true;
  status = row.status;
  task_id = row.task_id;
  request_id = row.request_id;
}

abbrev pub differs : ServiceRequest → IngressRow → Bool
differs q row = row.key_id != q.key_id || row.content_sha256 != q.content_sha256

abbrev pub new_ingress : ServiceRequest → ReceiptEvent → IngressRow
new_ingress q event = record {
  request_id = q.request_id;
  organization_id = event.organization_id;
  receipt_id = event.receipt_id;
  key_id = q.key_id;
  content_sha256 = q.content_sha256;
  status = reserved;
  task_id = none;
}

-- The row that is read again after an insertion that did nothing.
abbrev pub reserve_concurrent : ServiceRequest → Option IngressRow → Result IngressReservation
reserve_concurrent q none = err "ingress_reservation_conflict"
reserve_concurrent q (some row) =
    if row.request_id == q.request_id && differs q row
    then err "request_id_reused_with_different_content"
    else ok (reservation_of row)

-- `ORDER BY request_id = … DESC`: the row of the request before the row of the receipt
abbrev pub either_row : Option IngressRow → Option IngressRow → Option IngressRow
either_row (some row) other = some row
either_row none other = other

-- `INSERT … ON CONFLICT DO NOTHING`
abbrev pub reserve_insert : ServiceRequest → ReceiptEvent → Action Gate IngressReservation
reserve_insert q event s =
    if exists_in (conflicts q event) s.requests
    then (
      reserve_concurrent q (
          either_row (find? (has_request event.organization_id q.request_id) s.requests)
            (find? (has_receipt event.organization_id event.receipt_id) s.requests)),
      s,
    )
    else (
      ok (record {
        duplicate = false;
        status = reserved;
        task_id = none;
        request_id = q.request_id;
      }),
      record s { requests = new_ingress q event ∷ s.requests },
    )

abbrev pub reserve_receipt :
    ServiceRequest → ReceiptEvent → Option IngressRow → Action Gate IngressReservation
reserve_receipt q event (some row) s = (ok (reservation_of row), s)
reserve_receipt q event none s = reserve_insert q event s

abbrev pub reserve_request :
    ServiceRequest → ReceiptEvent → Option IngressRow → Action Gate IngressReservation
reserve_request q event (some row) s =
    if differs q row
    then (err "request_id_reused_with_different_content", s)
    else (ok (record (reservation_of row) { request_id = q.request_id }), s)
reserve_request q event none s =
    reserve_receipt q event (find? (has_receipt event.organization_id event.receipt_id) s.requests)
      s

unfoldable pub reserve : ServiceRequest → ReceiptEvent → Action Gate IngressReservation
reserve q event s =
    reserve_request q event (find? (has_request event.organization_id q.request_id) s.requests) s

unfoldable pub mark_queued : String → String → Gate → Gate
mark_queued id task s = record s {
  requests =
      update (λ row. row.request_id == id)
        (λ row. record row { status = queued; task_id = some task }) s.requests;
}

unfoldable pub release : String → Gate → Gate
release id s = record s {
  requests = delete (λ row. row.request_id == id && is_reserved row.status) s.requests;
}

-- The answer of the route, with its task
pub data Answer : Type 0 where
  accepted duplicate_of : String → Answer

-- What the functions outside the repository answer: SHA-256, pydantic's parser, and the text of an id.
pub record Wire : Type 0 where
  pub sha256 : String → String
  pub parse_event : String → Option ReceiptEvent
  pub text_of_id : ℕ → String

abbrev pub task_or : String → Option String → String
task_or default none = default
task_or default (some task) = task

-- `event_queue.enqueue(event)`, which answers so
abbrev pub enqueue_reserved : ReceiptEvent → String → Result String → Action Gate Answer
enqueue_reserved event id (err e) s = (err "event_queue_unavailable", release id s)
enqueue_reserved event id (ok task) s =
    (ok (accepted task), mark_queued id task (record s { enqueued = s.enqueued ++ event ∷ [] }))

module _ (wire : Wire) where
  abbrev pub after_reserve :
      ReceiptEvent → Result String → Result IngressReservation × Gate → Result Answer × Gate
  unfolding mark_queued release
  after_reserve event enqueue (err e, s) = (err e, s)
  after_reserve event enqueue (ok r, s) =
      if r.duplicate && not (is_reserved r.status)
      then (ok (duplicate_of (task_or (wire.text_of_id event.receipt_id) r.task_id)), s)
      else enqueue_reserved event r.request_id enqueue s

  abbrev pub receive_event :
      ServiceRequest → Option ReceiptEvent → Result String → Action Gate Answer
  unfolding after_reserve reserve
  receive_event q none enqueue s = (err "invalid_receipt_event", s)
  receive_event q (some event) enqueue s = after_reserve event enqueue (reserve q event s)

  -- The route after the signature was verified; `enqueue` is what the queue answers.
  unfoldable pub receipt_event : String → String → String → Result String → Action Gate Answer
  unfolding receive_event
  receipt_event request_id key_id raw enqueue s =
      receive_event
        (record { request_id = request_id; key_id = key_id; content_sha256 = wire.sha256 raw })
        (wire.parse_event raw) enqueue s
