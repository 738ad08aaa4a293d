-- ===== src/Reconciliation/Tests.antt =====
-- Imports and reviews of a few rows.
use challanse_website.Reviews.{of_receipt, upsert_verified}
use challanse_website.Reconciliation.{
  Csv, thousandths, RawRow, PurchaseOrderRow, Books, normalize_unit, parse_tally_csv,
  import_tally_csv,
}
use challanse_website.Reconciliation.Deltas.{
  VerifiedReviewEvent, record_verified_review, reconciliation_for_site, delta_rows, first_of_each,
}
use challanse_website.Reconciliation.Orders.{IsComplete, Unique, parse_tally_csv-AreOrders}
use challanse_website.Reconciliation.Imports.{ImportCall, run_imports, import_again}
use challanse_website.Reconciliation.Received.{record_all, record_again}
use challanse_website.Reconciliation.Convergence.{AllAgree, record_all-any_order}
use mathlib.Core.List.{Permᴰ}
use challanse_website.Prelude.{
  arith, find?, ℕ, String, ◌≡◌, refl, true, false, some, List, [], ◌∷◌, ◌<◌, ◌==◌, nat_eq,
  string_eq, if◌then◌else◌, ok, All, length, sort_by, insert_by,
}

abbrev raw : String → String → RawRow
raw material unit = record {
  po_number = some "PO-1";
  material_code = some material;
  quantity = some "50";
  unit = some unit;
}

-- Two files: "a" with two orders, and "b" with the first of them.
abbrev file : String → List RawRow
file content =
    if content == "a" then raw "CEM" "BAGS" ∷ raw "ROD" "MT" ∷ [] else raw "CEM" "BAGS" ∷ []

abbrev csv : Csv
csv = record {
  fieldnames = λ content. "po_number" ∷ "material_code" ∷ "quantity" ∷ "unit" ∷ [];
  raw_rows = file;
  strip = λ t. t;
  upper = λ t. t;
  float = λ t. some (thousandths 50000);
  unix_lines = λ t. t;
  sha256 = λ t. t;
}

abbrev order : String → String → PurchaseOrderRow
order material unit = record {
  po_number = "PO-1";
  material_code = material;
  quantity = 50000;
  unit = unit;
}

abbrev orders : List PurchaseOrderRow
orders = order "CEM" "BAG" ∷ order "ROD" "MT" ∷ []

abbrev books : Books
books = record { tally_imports = []; tally_import_rows = []; verified_receipts = []; next_id = 10 }

abbrev review : ℕ → ℕ → ℕ → VerifiedReviewEvent
review id quantity version = record {
  receipt_id = id;
  organization_id = 2;
  site_id = 3;
  po_number = "PO-1";
  material_code = "CEM";
  verified_quantity = quantity;
  unit = "BAGS";
  reviewer_id = "r@example.org";
  review_version = version;
}

parse_tally_csv-AreOrders_example :
    (0 < length orders) × (length orders ≡ 2) × All IsComplete orders × Unique orders
unfolding parse_tally_csv normalize_unit
parse_tally_csv-AreOrders_example = parse_tally_csv-AreOrders csv "a" orders refl

abbrev calls : List ImportCall
calls = record { organization_id = 2; site_id = 3; imported_by = "y"; now = 6; content = "b" } ∷ []

import_again_example :
    let after = run_imports csv calls (import_tally_csv csv 2 3 "x" 5 "a" books).1 in
    import_tally_csv csv 2 3 "z" 9 "a" after ≡ (ok (10, true, 2), after)
unfolding import_tally_csv parse_tally_csv normalize_unit
import_again_example = import_again csv 2 3 "x" "z" 5 9 "a" books 10 false 2 calls refl

record_again_example :
    let after =
      record_all csv (review 7 40000 3 ∷ []) (record_verified_review csv (review 7 30000 2) []) in
    record_verified_review csv (review 7 30000 2) after ≡ after
record_again_example = record_again csv (review 7 30000 2) (review 7 40000 3 ∷ []) []

abbrev reviews : List VerifiedReviewEvent
reviews = review 7 30000 2 ∷ review 7 40000 3 ∷ []

reviews-AllAgree : AllAgree reviews
reviews-AllAgree = (
  ((λ r. (refl, refl, λ v. refl)), ((λ r. (refl, refl, λ v. ground (arith, v))), tt)),
  (((λ r. (refl, refl, λ v. ground (arith, v))), ((λ r. (refl, refl, λ v. refl)), tt)), tt),
)

record_all-any_order_example :
    find? (of_receipt 7) (record_all csv reviews [])
    ≡ find? (of_receipt 7) (record_all csv (review 7 40000 3 ∷ review 7 30000 2 ∷ []) [])
record_all-any_order_example =
    record_all-any_order csv reviews (review 7 40000 3 ∷ review 7 30000 2 ∷ []) [] 7
      ∣ Permᴰ.swap refl refl ∣₁ reviews-AllAgree

-- What the site received beyond an order is reported.
over_delivery :
    reconciliation_for_site
      (λ x y. true)
      2
      3
      (record (import_tally_csv csv 2 3 "x" 5 "b" books).1 {
        verified_receipts = record_verified_review csv (review 7 60000 2) [];
      })
    ≡ record { order = order "CEM" "BAG"; site_received = 60000; is_over = true } ∷ []
unfolding reconciliation_for_site delta_rows first_of_each import_tally_csv parse_tally_csv
    normalize_unit record_verified_review upsert_verified sort_by insert_by
over_delivery = refl
