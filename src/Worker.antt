-- ===== src/Worker.antt =====
-- services/enrichment/app/local_worker.py: one turn of the loop of `run_worker` that dispatches the
-- outbox and serves one message of the local queue. The health record, the acceptance test threads
-- and the waiting are left out. The proofs are in the modules below.
pub mod Served
mod Tests
use challanse_website.Pipeline.{EnrichmentResult, Store}
use challanse_website.LocalQueue.{
  LocalQueueMessage, claim_local_message, complete_local_message, fail_local_message,
}
use challanse_website.Outbox.{Delivery, dispatch_outbox_once}
use challanse_website.Workflow.{Settings, Services, process_receipt_event}
use challanse_website.Prelude.{ℕ, Option, none, some, Result, ok, err}

-- When the transactions of a turn run: the claims at the two dispatches, those that settle their
-- events, those of the handler, the claim of the message and its end.
pub record Times : Type 0 where
  pub dispatch_first : ℕ
  pub first_events : ℕ → ℕ
  pub claim_message : ℕ
  pub process : ℕ → ℕ
  pub end_message : ℕ
  pub dispatch_last : ℕ
  pub last_events : ℕ → ℕ

-- `dispatch_outbox_once(settings)`, with its default limit
abbrev pub dispatch : Delivery → ℕ → (ℕ → ℕ) → Store → Store
dispatch d now clock s = (dispatch_outbox_once d 20 now clock s).1

-- What follows the handler: the message is completed and the outbox dispatched, or it is failed.
unfoldable pub finish_message :
    Delivery → LocalQueueMessage → Times → Result EnrichmentResult × Store → Store
finish_message d message times (ok result, s) =
    dispatch d times.dispatch_last times.last_events
      (complete_local_message message times.end_message s)
finish_message d message times (err e, s) = fail_local_message message e times.end_message s

unfoldable pub serve_message :
    Settings → Services → Delivery → Times → Option LocalQueueMessage → Store → Store
unfolding finish_message
serve_message settings services d times none s = s
serve_message settings services d times (some message) s =
    finish_message d message times
      (process_receipt_event settings services message.event times.process s)

unfoldable pub worker_turn : Settings → Services → Delivery → Times → Store → Store
unfolding serve_message
worker_turn settings services d times s =
    let (message, s₁) =
      claim_local_message times.claim_message
        (dispatch d times.dispatch_first times.first_events s) in
    serve_message settings services d times message s₁
