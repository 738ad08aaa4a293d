-- ===== src/Worker/Served.antt =====
-- What a turn of the local worker (services/enrichment/app/local_worker.py) has done to its message
-- when it ends.
use challanse_website.Pipeline.{EnrichmentResult, QueueRow, Store}
use challanse_website.Storage.{existing_enrichment_result}
use challanse_website.Storage.Saved.{HasCallback}
use challanse_website.LocalQueue.{
  LocalQueueMessage, claim_first, candidate, claim_local_message, complete_local_message,
  fail_local_message,
}
use challanse_website.LocalQueue.Ended.{
  Holds, IsClaimed, IsDelivered, IsFailed, claim-Holds, complete-Holds, fail-Holds,
}
use challanse_website.Outbox.{Delivery}
use challanse_website.Outbox.Kept.{IsKept, IsKept-trans, dispatch-IsKept, HasCallback-kept}
use challanse_website.Outbox.Queued.{dispatch-Holds}
use challanse_website.Storage.Calm.{IsCalm}
use challanse_website.Workflow.Calm.{process-IsCalm}
use challanse_website.Workflow.{Settings, Services, process_receipt_event}
use challanse_website.Workflow.Outcome.{process-Leaves, Leaves}
use challanse_website.Worker.{Times, dispatch, finish_message, serve_message, worker_turn}
use challanse_website.Prelude.{
  ℕ, String, arith, ◌<◌, ◌≡◌, refl, ◌∙◌, Option, none, some, Result, ok, err,
}

-- If the handler returned a result, the message's row is delivered, and the result is stored; if it
-- raised, the row has failed with its error, and nothing is queued in the outbox. Either way the
-- receipt has no final result without its callback.
abbrev pub IsServed :
    LocalQueueMessage → Times → Store → Result EnrichmentResult × Store → Store → Type 0
IsServed message times before (ok result, s) after =
    Holds (IsDelivered times.end_message) message.id after
    × (existing_enrichment_result message.event.receipt_id after ≡ some result)
    × HasCallback message.event.receipt_id after
IsServed message times before (err e, s) after =
    Holds (IsFailed message.attempts e times.end_message) message.id after
    × (after.outbox ≡ before.outbox)
    × HasCallback message.event.receipt_id after

complete-IsKept :
    (message : LocalQueueMessage) (now : ℕ) (s : Store)
    → IsKept s (complete_local_message message now s)
unfolding complete_local_message
complete-IsKept message now s = record { enrichments = λ r. refl; queued = λ r k v. refl }

fail-IsKept :
    (message : LocalQueueMessage) (code : String) (now : ℕ) (s : Store)
    → IsKept s (fail_local_message message code now s)
unfolding fail_local_message
fail-IsKept message code now s = record { enrichments = λ r. refl; queued = λ r k v. refl }

existing-kept :
    (r : ℕ) (s s' : Store)
    → IsKept s s'
    → existing_enrichment_result r s' ≡ existing_enrichment_result r s
unfolding existing_enrichment_result
existing-kept r s s' kept = rw kept.enrichments refl

calm-Holds :
    (P : QueueRow → Type 0) (i : ℕ) (s s' : Store) → IsCalm s s' → Holds P i s → Holds P i s'
calm-Holds P i s s' (same, le) h = record {
  rows = rw same h.rows;
  present = rw same h.present;
  drawn = omega (arith, h.drawn, le);
}

finish-IsServed :
    (d : Delivery) (message : LocalQueueMessage) (times : Times) (before : Store)
    (o : Result EnrichmentResult × Store)
    → Leaves message.event.receipt_id before o
    → Holds IsClaimed message.id o.1
    → IsServed message times before o (finish_message d message times o)
unfolding finish_message
finish-IsServed d message times before (ok result, s) (stored, announced) claimed =
    let r = message.event.receipt_id in
    let s₁ = complete_local_message message times.end_message s in
    let s₂ = dispatch d times.dispatch_last times.last_events s₁ in
    let kept =
      IsKept-trans s s₁ s₂ (complete-IsKept message times.end_message s)
        (dispatch-IsKept d 20 times.dispatch_last times.last_events s₁) in
    (
      dispatch-Holds (IsDelivered times.end_message) (λ row event h. h) message.id d 20
          times.dispatch_last times.last_events s₁
          (complete-Holds message times.end_message s claimed),
      existing-kept r s s₂ kept ∙ stored,
      HasCallback-kept r s s₂ kept announced,
    )
finish-IsServed d message times before (err e, s) (same, announced) claimed = (
  fail-Holds message e times.end_message s claimed,
  unfold fail_local_message in same,
  HasCallback-kept message.event.receipt_id s (fail_local_message message e times.end_message s)
      (fail-IsKept message e times.end_message s) announced,
)

claim_first-IsKept :
    (now : ℕ) (s : Store) (found : Option QueueRow) → IsKept s (claim_first found now s).1
unfolding claim_first
claim_first-IsKept now s none = record { enrichments = λ r. refl; queued = λ r k v. refl }
claim_first-IsKept now s (some row) = record { enrichments = λ r. refl; queued = λ r k v. refl }

claim-IsKept : (now : ℕ) (s : Store) → IsKept s (claim_local_message now s).1
unfolding claim_local_message
claim-IsKept now s = claim_first-IsKept now s (candidate now s.queue)

-- In a turn of the local worker that claims a message whose receipt has no final result without a
-- callback, and whose id no later draw repeats: if the handler returned a result, the row of the
-- message is there, DELIVERED at the end of the turn and unlocked, and that result is the one
-- stored for the receipt; if it raised, the row is there, unlocked, with the error,
-- FAILED_TERMINAL after ten attempts and otherwise FAILED_RETRYABLE and due within 300 seconds,
-- and the outbox is as before the handler. Either way the receipt has no final result without its
-- callback.
pub turn-IsServed :
    (settings : Settings) (services : Services) (d : Delivery) (times : Times) (s : Store)
    (message : LocalQueueMessage)
    → HasCallback message.event.receipt_id s
    → (claim_local_message times.claim_message
        (dispatch d times.dispatch_first times.first_events s)).0
      ≡ some message
    → let before =
        (claim_local_message times.claim_message
          (dispatch d times.dispatch_first times.first_events s)).1 in
      message.id < before.next_id
      → IsServed message times before
          (process_receipt_event settings services message.event times.process before)
          (worker_turn settings services d times s)
unfolding worker_turn serve_message
turn-IsServed settings services d times s message announced claimed drawn =
    let s₁ = dispatch d times.dispatch_first times.first_events s in
    let before = (claim_local_message times.claim_message s₁).1 in
    let o = process_receipt_event settings services message.event times.process before in
    let kept =
      IsKept-trans s s₁ before (dispatch-IsKept d 20 times.dispatch_first times.first_events s)
        (claim-IsKept times.claim_message s₁) in
    rw claimed (
      finish-IsServed d message times before o
        (process-Leaves settings services message.event times.process before
          (HasCallback-kept message.event.receipt_id s before kept announced))
        (calm-Holds IsClaimed message.id before o.1
          (process-IsCalm settings services message.event times.process before)
          (claim-Holds times.claim_message s₁ message claimed drawn)))
