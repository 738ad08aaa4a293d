-- ===== src/Reconciliation/Deltas.antt =====
-- What a site received against its orders: `record_verified_review`, `delta_rows` and
-- `reconciliation_for_site` of services/enrichment/app/reconciliation.py.
use challanse_website.Reviews.{VerifiedRow, upsert_verified}
use challanse_website.Prelude.{
  ℕ, String, Bool, ◌&&◌, List, [], ◌∷◌, map, ◌+◌, ltb, leb, ◌==◌, ◌!=◌, if◌then◌else◌, nat_eq,
  string_eq, select, delete, sort_by,
}
use challanse_website.Reconciliation.{
  Books, Csv, PurchaseOrderRow, TallyImport, TallyRow, normalize_unit, same_order,
}

-- `VerifiedReviewEvent`, what the statement reads of it
pub record VerifiedReviewEvent : Type 0 where
  pub receipt_id : ℕ
  pub organization_id : ℕ
  pub site_id : ℕ
  pub po_number : String
  pub material_code : String
  pub verified_quantity : ℕ
  pub unit : String
  pub reviewer_id : String
  pub review_version : ℕ

abbrev pub event_row : Csv → VerifiedReviewEvent → VerifiedRow
event_row csv e = record {
  receipt_id = e.receipt_id;
  organization_id = e.organization_id;
  site_id = e.site_id;
  po_number = csv.upper e.po_number;
  material_code = csv.upper e.material_code;
  verified_quantity = e.verified_quantity;
  unit = normalize_unit csv e.unit;
  reviewer_id = e.reviewer_id;
  review_version = e.review_version;
}

unfoldable pub record_verified_review :
    Csv → VerifiedReviewEvent → List VerifiedRow → List VerifiedRow
record_verified_review csv e rows = upsert_verified (event_row csv e) rows

-- A row of the answer
pub record Delta : Type 0 where
  pub order : PurchaseOrderRow
  pub site_received : ℕ
  pub is_over : Bool

-- `WHERE site_id = … GROUP BY …`, the rows of a group, of those that the tenant sees
abbrev pub in_group : ℕ → ℕ → PurchaseOrderRow → VerifiedRow → Bool
in_group organization site order row =
    row.organization_id == organization
    && row.site_id == site
    && row.po_number == order.po_number
    && row.material_code == order.material_code
    && row.unit == order.unit

abbrev pub sum_verified : List VerifiedRow → ℕ
sum_verified [] = 0
sum_verified (row ∷ rows) = row.verified_quantity + sum_verified rows

-- `received.get(key, 0.0)`: a group without rows is not in the answer of the query.
abbrev pub received_of : ℕ → ℕ → List VerifiedRow → PurchaseOrderRow → ℕ
received_of organization site rows order =
    sum_verified (select (in_group organization site order) rows)

unfoldable pub delta_rows : (PurchaseOrderRow → ℕ) → List PurchaseOrderRow → List Delta
delta_rows received [] = []
delta_rows received (row ∷ rows) =
    record { order = row; site_received = received row; is_over = ltb row.quantity (received row) }
    ∷ delta_rows received rows

-- `JOIN tally_imports`: the time of the import of a row
abbrev pub imported_at : List TallyImport → TallyRow → ℕ
imported_at [] row = 0
imported_at (i ∷ is) row =
    let rest = imported_at is row in if i.id == row.import_id then i.imported_at else rest

-- `ORDER BY r.po_number, r.material_code, r.unit, i.imported_at DESC`, by the collation of the database
abbrev pub listed_before : (String → String → Bool) → List TallyImport → TallyRow → TallyRow → Bool
listed_before text_le imports x y =
    if x.order.po_number != y.order.po_number
    then text_le x.order.po_number y.order.po_number
    else if x.order.material_code != y.order.material_code
    then text_le x.order.material_code y.order.material_code
    else if x.order.unit != y.order.unit
    then text_le x.order.unit y.order.unit
    else leb (imported_at imports y) (imported_at imports x)

-- `DISTINCT ON (r.po_number, r.material_code, r.unit)`
unfoldable pub first_of_each : List PurchaseOrderRow → List PurchaseOrderRow
first_of_each [] = []
first_of_each (x ∷ xs) = x ∷ delete (same_order x) (first_of_each xs)

abbrev pub at_site : ℕ → ℕ → TallyRow → Bool
at_site organization site row = row.organization_id == organization && row.site_id == site

abbrev pub current_orders : (String → String → Bool) → ℕ → ℕ → Books → List PurchaseOrderRow
current_orders text_le organization site s = first_of_each (
    map (λ r. r.order)
      (sort_by (listed_before text_le s.tally_imports)
        (select (at_site organization site) s.tally_import_rows)))

unfoldable pub reconciliation_for_site : (String → String → Bool) → ℕ → ℕ → Books → List Delta
reconciliation_for_site text_le organization site s =
    delta_rows (received_of organization site s.verified_receipts)
      (current_orders text_le organization site s)
