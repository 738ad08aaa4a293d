-- ===== src/Ingress/Tests.antt =====
-- Two requests for one receipt.
use challanse_website.Pipeline.{ReceiptEvent}
use challanse_website.Ingress.{
  Gate, Wire, accepted, reserve, mark_queued, release, after_reserve, receive_event, receipt_event,
}
use challanse_website.Ingress.Once.{IsNotAccepted, run, enqueued_once}
use challanse_website.Prelude.{
  ℕ, ◌≡◌, refl, none, some, [], ◌∷◌, ◌==◌, ok, err, nat_eq, string_eq, if◌then◌else◌,
}

abbrev event : ℕ → ReceiptEvent
event receipt = record {
  receipt_id = receipt;
  organization_id = 2;
  site_id = 3;
  image_key = "k";
  vendor_id = "v";
  captured_at_unix = 0;
  site_captured_quantity = 1000;
  image_sha256 = "h";
  image_bytes = 10;
}

-- The contents "a" and "b" are of one receipt.
abbrev wire : Wire
wire = record {
  sha256 = λ t. t;
  parse_event =
      λ raw. if raw == "a" then some (event 7) else if raw == "b" then some (event 7) else none;
  text_of_id = λ id. "7";
}

abbrev empty_gate : Gate
empty_gate = record { requests = []; enqueued = [] }

enqueued_once_example :
    let after =
      run wire
        (λ x y h. h)
        (("r2", "k", "c", ok "t2") ∷ [])
        (receipt_event wire "r1" "k" "a" (ok "t1") empty_gate).1 in
    let reply = receipt_event wire "r3" "k" "b" (ok "t3") after in
    IsNotAccepted wire (λ x y h. h) reply.0 × (reply.1 ≡ after)
unfolding receipt_event receive_event after_reserve reserve mark_queued release
enqueued_once_example =
    enqueued_once wire (λ x y h. h) "r1" "k" "a" "r3" "k" "b" (ok "t1") (ok "t3") empty_gate
      (event 7) (event 7) "t1" (("r2", "k", "c", ok "t2") ∷ []) (tt, tt) refl refl refl refl refl

-- If the queue does not take the event, the request is free to come again.
retried :
    (receipt_event wire "r1" "k" "a"
      (ok "t1")
      (receipt_event wire "r1" "k" "a" (err "down") empty_gate).1).0
    ≡ ok (accepted "t1")
unfolding receipt_event receive_event after_reserve reserve mark_queued release
retried = refl
