-- ===== src/Reviews/Tests.antt =====
-- Reviews of one receipt.
use challanse_website.Devices.Enroll.{controller}
use challanse_website.Pipeline.{needs_review, verified}
use challanse_website.Reviews.{
  Reviewer, ReviewRequest, ReviewAction, verify, reject, ReviewedReceipt, VerifiedRow, Desk, Texts,
  review_found, review_receipt,
}
use challanse_website.Reviews.Versions.{ReviewCall, run, stale_review_conflicts}
use challanse_website.Reviews.Sync.{IsInSyncAt, run-IsInSync}
use challanse_website.Prelude.{
  ℕ, String, ◌≡◌, refl, none, some, List, [], ◌∷◌, arith, ◌==◌, err, nat_eq, if◌then◌else◌,
}

abbrev texts : Texts
texts = record {
  upper = λ t. t;
  chain_sha256 = λ previous event. String.◌∷◌ "h" event;
  review_json = λ row q status version. "{}";
}

abbrev reviewer : Reviewer
reviewer = record {
  user_id = 1;
  organization_id = 2;
  site_id = 3;
  role = controller;
  email = "r@example.org";
  issuer = "https://id.example.org";
  subject = "r";
}

abbrev request : ReviewAction → ℕ → ReviewRequest
request action version = record {
  action = action;
  version = version;
  challan_number = "C-1";
  po_number = "PO-1";
  material_code = "CEM";
  material_description = "Cement";
  verified_quantity = 40000;
  unit = "BAG";
  notes = "counted";
}

abbrev received : ReviewedReceipt
received = record {
  organization_id = 2;
  site_id = 3;
  status = needs_review;
  findings = record {
    challan_number = "";
    po_number = "";
    material_code = "";
    material_description = "";
    verified_quantity = none;
    unit = "";
    notes = "";
  };
  version = 1;
}

abbrev desk : Desk
desk = record {
  receipts = λ i. if i == 7 then some received else none;
  verified_receipts = [];
  audit_events = [];
  next_id = 100;
}

abbrev verified_desk : Desk
verified_desk = (review_receipt texts reviewer 7 (request verify 1) "access" 10 desk).1

abbrev calls : List ReviewCall
calls =
    record {
      reviewer = reviewer;
      receipt_id = 7;
      request = request verify 1;
      source_class = "access";
      now = 10;
    }
    ∷ record {
      reviewer = reviewer;
      receipt_id = 7;
      request = request reject 2;
      source_class = "access";
      now = 20;
    }
    ∷ []

stale_review_conflicts_example :
    let s' = run texts calls verified_desk in
    review_receipt texts reviewer 7 (request reject 1) "access" 30 s' ≡ (err "VERSION_CONFLICT", s')
unfolding review_receipt review_found
stale_review_conflicts_example =
    stale_review_conflicts texts reviewer reviewer 7 (request verify 1) (request reject 1) "access"
      "access" 10 30 desk (verified, 2) calls refl refl refl

run-IsInSync_example : IsInSyncAt texts 7 (run texts calls desk)
run-IsInSync_example = run-IsInSync texts calls 7 desk (λ h. ground (arith, h))

abbrev listed : VerifiedRow
listed = record {
  receipt_id = 7;
  organization_id = 2;
  site_id = 3;
  po_number = "PO-1";
  material_code = "CEM";
  verified_quantity = 40000;
  unit = "BAG";
  reviewer_id = "r@example.org";
  review_version = 2;
}

abbrev verified_receipt : ReviewedReceipt
verified_receipt = record received { status = verified; version = 2 }
