-- ===== src/LocalQueue.antt =====
-- services/enrichment/app/queueing.py: the queues of receipt events, and the PostgreSQL queue of
-- the local pilot (table `local_receipt_queue`). The proofs are in the modules below.
pub mod Ended
pub mod Lease
pub mod Unique
use challanse_website.Stage.{minutes, lock_expired, error_prefix}
use challanse_website.Pipeline.{
  ReceiptEvent, OutboxStatus, pending, processing, delivered, failed_retryable, failed_terminal,
  QueueRow, Store,
}
use challanse_website.Prelude.{
  ℕ, String, Bool, true, false, Option, none, some, [], ◌∷◌, ◌++◌, min, ◌+◌, ◌*◌, ◌^◌, ◌&&◌, ◌||◌,
  leb, ◌==◌, List, select, sort_by, by_key, update, exists_in, if◌then◌else◌, nat_eq,
}

abbrev pub seconds : ℕ → ℕ
seconds n = n * 1_000_000

abbrev pub is_due_status : OutboxStatus → Bool
is_due_status OutboxStatus.pending = true
is_due_status OutboxStatus.failed_retryable = true
is_due_status _ = false

abbrev pub is_locked_status : OutboxStatus → Bool
is_locked_status OutboxStatus.processing = true
is_locked_status _ = false

-- The WHERE clause that the outbox and the local queue share.
unfoldable pub can_claim : OutboxStatus → ℕ → Option ℕ → ℕ → Bool
can_claim status available_at locked_until now =
    (is_due_status status && leb available_at now)
    || (is_locked_status status && lock_expired locked_until now)

abbrev pub same_receipt : ReceiptEvent → QueueRow → Bool
same_receipt event row =
    row.organization_id == event.organization_id && row.receipt_id == event.receipt_id

abbrev pub new_queue_row : ℕ → ReceiptEvent → ℕ → QueueRow
new_queue_row id event now = record {
  id = id;
  organization_id = event.organization_id;
  receipt_id = event.receipt_id;
  payload = event;
  status = pending;
  attempts = 0;
  available_at = now;
  locked_until = none;
  delivered_at = none;
  last_error_code = none;
  created_at = now;
}

-- `PostgresEventQueue.enqueue`: a conflict replaces the payload alone.
unfoldable pub enqueue_local : ReceiptEvent → ℕ → Store → Store
enqueue_local event now s =
    if exists_in (same_receipt event) s.queue
    then record s {
      queue = update (same_receipt event) (λ row. record row { payload = event }) s.queue;
      next_id = s.next_id + 1;
    }
    else record s {
      queue = s.queue ++ new_queue_row s.next_id event now ∷ [];
      next_id = s.next_id + 1;
    }

-- `LocalQueueMessage`
pub record LocalQueueMessage : Type 0 where
  pub id : ℕ
  pub event : ReceiptEvent
  pub attempts : ℕ

abbrev pub is_candidate : ℕ → QueueRow → Bool
is_candidate now row = can_claim row.status row.available_at row.locked_until now

abbrev pub locked_row : ℕ → QueueRow → QueueRow
locked_row now row = record row {
  status = processing;
  attempts = row.attempts + 1;
  locked_until = some (now + minutes 3);
}

-- `ORDER BY created_at LIMIT 1`
abbrev pub oldest : List QueueRow → Option QueueRow
oldest [] = none
oldest (row ∷ rows) = some row

-- The candidate of the common table expression.
unfoldable pub candidate : ℕ → List QueueRow → Option QueueRow
unfolding can_claim
candidate now rows =
    oldest (sort_by (by_key (λ row. row.created_at)) (select (is_candidate now) rows))

-- The update of the row that was chosen, and the message of it.
unfoldable pub claim_first : Option QueueRow → ℕ → Store → Option LocalQueueMessage × Store
claim_first none now s = (none, s)
claim_first (some row) now s = (
  some (record { id = row.id; event = row.payload; attempts = row.attempts + 1 }),
  record s { queue = update (λ q. q.id == row.id) (locked_row now) s.queue },
)

unfoldable pub claim_local_message : ℕ → Store → Option LocalQueueMessage × Store
unfolding claim_first candidate
claim_local_message now s = claim_first (candidate now s.queue) now s

abbrev pub is_open : LocalQueueMessage → QueueRow → Bool
is_open message row = row.id == message.id && is_locked_status row.status

unfoldable pub complete_local_message : LocalQueueMessage → ℕ → Store → Store
complete_local_message message now s = record s {
  queue =
      update (is_open message)
        (λ row. record row { status = delivered; delivered_at = some now; locked_until = none })
        s.queue;
}

abbrev pub failed_row : LocalQueueMessage → String → ℕ → QueueRow → QueueRow
failed_row message error_code now row = record row {
  status = (if leb 10 message.attempts then failed_terminal else failed_retryable);
  last_error_code = some (error_prefix error_code);
  locked_until = none;
  available_at = now + seconds (min 300 (2 ^ min row.attempts 8));
}

unfoldable pub fail_local_message : LocalQueueMessage → String → ℕ → Store → Store
fail_local_message message error_code now s = record s {
  queue = update (is_open message) (failed_row message error_code now) s.queue;
}
