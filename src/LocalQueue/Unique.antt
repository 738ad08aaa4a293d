-- ===== src/LocalQueue/Unique.antt =====
-- The local queue holds each receipt once (services/enrichment/app/queueing.py), whatever the workers
-- and the dispatchers do.
use challanse_website.Pipeline.{ReceiptEvent, QueueRow, Store, delivered}
use challanse_website.LocalQueue.{
  LocalQueueMessage, same_receipt, new_queue_row, enqueue_local, claim_first, candidate, locked_row,
  claim_local_message, is_open, complete_local_message, failed_row, fail_local_message,
}
use challanse_website.Prelude.{
  ℕ, String, ◌≡◌, refl, inl, inr, Bool, false, Option, none, some, List, [], ◌∷◌, ◌++◌, arith, ◌+◌,
  ◌≤◌, ◌==◌, Bool-cases, length, select, update, exists_in, length-append, select-append, nat_eq,
}

-- The calls that change the queue.
pub data QueueOp : Type 0 where
  enqueue : ReceiptEvent → ℕ → QueueOp
  claim : ℕ → QueueOp
  complete : LocalQueueMessage → ℕ → QueueOp
  fail : LocalQueueMessage → String → ℕ → QueueOp

unfoldable pub step : QueueOp → Store → Store
step (enqueue event now) s = enqueue_local event now s
step (claim now) s = (claim_local_message now s).1
step (complete message now) s = complete_local_message message now s
step (fail message code now) s = fail_local_message message code now s

unfoldable pub run : List QueueOp → Store → Store
unfolding step
run [] s = s
run (op ∷ ops) s = run ops (step op s)

-- How many rows the queue has for the receipt of the event.
abbrev pub copies : ReceiptEvent → List QueueRow → ℕ
copies event rows = length (select (same_receipt event) rows)

copies-update :
    (event : ReceiptEvent) (p : QueueRow → Bool) (f : QueueRow → QueueRow) (rows : List QueueRow)
    → ((row : QueueRow) → same_receipt event (f row) ≡ same_receipt event row)
    → copies event (update p f rows) ≡ copies event rows
copies-update event p f [] h = refl
copies-update event p f (row ∷ rows) h = ground (arith, h row, copies-update event p f rows h)

copies-absent :
    (event : ReceiptEvent) (rows : List QueueRow)
    → exists_in (same_receipt event) rows ≡ false
    → copies event rows ≡ 0
copies-absent event [] h = refl
copies-absent event (row ∷ rows) h = ground (arith, h, copies-absent event rows)

copies-append :
    (event : ReceiptEvent) (rows : List QueueRow) (row : QueueRow)
    → copies event (rows ++ row ∷ []) ≡ copies event rows + copies event (row ∷ [])
copies-append event rows row =
    rw (select-append (same_receipt event) rows (row ∷ []))
      (length-append (select (same_receipt event) rows) (select (same_receipt event) (row ∷ [])))

-- The two events name the same receipt.
same_receipt-subst :
    (event other : ReceiptEvent) (rows : List QueueRow)
    → other.organization_id ≡ event.organization_id
    → other.receipt_id ≡ event.receipt_id
    → copies other rows ≡ copies event rows
same_receipt-subst event other [] h k = refl
same_receipt-subst event other (row ∷ rows) h k =
    ground (arith, h, k, same_receipt-subst event other rows h k)

claim_first-copies :
    (event : ReceiptEvent) (now : ℕ) (s : Store) (found : Option QueueRow)
    → copies event (claim_first found now s).1.queue ≡ copies event s.queue
unfolding claim_first
claim_first-copies event now s none = refl
claim_first-copies event now s (some row) =
    copies-update event (λ q. q.id == row.id) (locked_row now) s.queue (λ row. refl)

step-copies :
    (event : ReceiptEvent) (op : QueueOp) (s : Store)
    → copies event s.queue ≤ 1
    → copies event (step op s).queue ≤ 1
unfolding step enqueue_local claim_local_message complete_local_message fail_local_message
step-copies event (enqueue other now) s h =
    elim (Bool-cases (exists_in (same_receipt other) s.queue)) [
      | inl e ↦ rw e (
          rw
            (copies-update event (same_receipt other) (λ row. record row { payload = other })
              s.queue (λ row. refl))
            h)
      | inr e ↦ rw e (
          rw (copies-append event s.queue (new_queue_row s.next_id other now)) (
            ground
              (arith, h, copies-absent other s.queue e, same_receipt-subst event other s.queue)))
    ]
step-copies event (claim now) s h = rw (claim_first-copies event now s (candidate now s.queue)) h
step-copies event (complete message now) s h =
    rw
      (copies-update event (is_open message)
        (λ row. record row { status = delivered; delivered_at = some now; locked_until = none })
        s.queue (λ row. refl))
      h
step-copies event (fail message code now) s h =
    rw (copies-update event (is_open message) (failed_row message code now) s.queue (λ row. refl)) h

-- However the dispatchers and the workers call the queue, from a queue that holds no receipt twice
-- each receipt of an organization stands in it once at most.
run-copies :
    (ops : List QueueOp) (event : ReceiptEvent) (s : Store)
    → copies event s.queue ≤ 1
    → copies event (run ops s).queue ≤ 1
unfolding run
run-copies [] event s h = h
run-copies (op ∷ ops) event s h = run-copies ops event (step op s) (step-copies event op s h)
