-- ===== src/Worker/Tests.antt =====
-- A turn of the worker on a queue of one message.
use challanse_website.Pipeline.{ReceiptEvent, Store}
use challanse_website.Stage.Run.{empty}
use challanse_website.Image.{webp}
use challanse_website.LocalQueue.{
  LocalQueueMessage, enqueue_local, claim_local_message, claim_first, candidate, can_claim,
}
use challanse_website.Outbox.{
  Delivery, postgres, dispatch_outbox_once, dispatch_all, claim_outbox_events, candidates,
}
use challanse_website.Workflow.{Settings, Services, process_receipt_event}
use challanse_website.Worker.{Times, dispatch, worker_turn}
use challanse_website.Worker.Served.{IsServed, turn-IsServed}
use challanse_website.Prelude.{refl, arith, true, none, [], ◌∷◌, sort_by, ok, err}

abbrev event : ReceiptEvent
event = record {
  receipt_id = 7;
  organization_id = 1;
  site_id = 2;
  image_key = "1/2/2026-01-01/7.webp";
  vendor_id = "cement";
  captured_at_unix = 1;
  site_captured_quantity = 40_000;
  image_sha256 = "abc";
  image_bytes = 3;
}

abbrev tables : Store
tables = record {
  stages = empty;
  enrichments = λ r. none;
  audits = [];
  outbox = [];
  receipts = λ r. none;
  queue = [];
  next_id = 0;
}

abbrev waiting : Store
waiting = enqueue_local event 0 tables

abbrev message : LocalQueueMessage
message = record { id = 0; event = event; attempts = 1 }

abbrev services : Services
services = record {
  fetch_receipt_image = λ e. ok (1 ∷ 2 ∷ 3 ∷ []);
  sha256 = λ b. "abc";
  decode = λ b. webp;
  read_receipt = λ b. ok (record {
    raw_json = "{}";
    raw_text = "Challan";
    confidence = 95_000;
    provider_version = "v1";
    gps_latitude = none;
    gps_longitude = none;
  });
  load_gst_context = λ e. err "RuntimeError";
  fetch_gst = λ g t. err "RuntimeError";
  build_aafi = λ c i. "";
  encrypt_audit = λ e a. err "RuntimeError";
}

abbrev settings : Settings
settings = record { gst_disabled = true; credit_disabled = true; image_byte_limit = 5_000_000 }

abbrev delivery : Delivery
delivery = record {
  event_queue_provider = postgres;
  credit_disabled = true;
  send_receipt = λ e. ok tt;
  send_credit = λ c. ok tt;
}

abbrev times : Times
times = record {
  dispatch_first = 1;
  first_events = λ i. 2;
  claim_message = 3;
  process = λ i. 4;
  end_message = 5;
  dispatch_last = 6;
  last_events = λ i. 7;
}

turn-IsServed_example :
    let before =
      (claim_local_message times.claim_message
        (dispatch delivery times.dispatch_first times.first_events waiting)).1 in
    IsServed message times before
      (process_receipt_event settings services event times.process before)
      (worker_turn settings services delivery times waiting)
unfolding claim_local_message claim_first candidate can_claim enqueue_local sort_by
    dispatch_outbox_once dispatch_all claim_outbox_events candidates
turn-IsServed_example =
    turn-IsServed settings services delivery times waiting message tt refl (omega arith)
