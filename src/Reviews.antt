-- ===== src/Reviews.antt =====
-- The decisions of reviewers: `review_receipt` of services/enrichment/app/authoritative.py.
pub mod Versions
pub mod Sync
mod Tests
use challanse_website.Audit.{AuditEvent, Happening, append_event}
use challanse_website.Devices.Enroll.{Role}
use challanse_website.Pipeline.{ReceiptStatus, verified, rejected}
use challanse_website.Prelude.{
  ℕ, String, Bool, true, false, Option, none, some, List, [], ◌∷◌, ◌++◌, ◌+◌, ◌&&◌, ltb, ◌==◌, ◌!=◌,
  find?, update, exists_in, Result, ok, err, Action, if◌then◌else◌, nat_eq, string_eq,
}

-- `ReviewerContext`
pub record Reviewer : Type 0 where
  pub user_id : ℕ
  pub organization_id : ℕ
  pub site_id : ℕ
  pub role : Role
  pub email : String
  pub issuer : String
  pub subject : String

pub data ReviewAction : Type 0 where
  verify reject : ReviewAction

-- The fields that a reviewer fills in.
pub record Findings : Type 0 where
  pub challan_number : String
  pub po_number : String
  pub material_code : String
  pub material_description : String
  pub verified_quantity : Option ℕ
  pub unit : String
  pub notes : String

-- `ReceiptReviewRequest`
pub record ReviewRequest : Type 0 where
  pub action : ReviewAction
  pub version : ℕ
  pub challan_number : String
  pub po_number : String
  pub material_code : String
  pub material_description : String
  pub verified_quantity : ℕ
  pub unit : String
  pub notes : String

-- The columns of `receipts` that a review reads and writes.
pub record ReviewedReceipt : Type 0 where
  pub organization_id : ℕ
  pub site_id : ℕ
  pub status : ReceiptStatus
  pub findings : Findings
  pub version : ℕ

-- A row of `verified_receipts`.
pub record VerifiedRow : Type 0 where
  pub receipt_id : ℕ
  pub organization_id : ℕ
  pub site_id : ℕ
  pub po_number : String
  pub material_code : String
  pub verified_quantity : ℕ
  pub unit : String
  pub reviewer_id : String
  pub review_version : ℕ

-- The tables: `receipts` by its primary key, the decisions and the audit events.
pub record Desk : Type 0 where
  pub receipts : ℕ → Option ReviewedReceipt
  pub verified_receipts : List VerifiedRow
  pub audit_events : List AuditEvent
  pub next_id : ℕ

-- What the functions outside the repository answer: `str.upper`, the SHA-256 of a link of the audit
-- chain, and the canonical JSON of a review, of the row before, the request, the new status and
-- the new version.
pub record Texts : Type 0 where
  pub upper : String → String
  pub chain_sha256 : String → String → String
  pub review_json : ReviewedReceipt → ReviewRequest → ReceiptStatus → ℕ → String

abbrev pub next_status : ReviewAction → ReceiptStatus
next_status verify = verified
next_status reject = rejected

abbrev pub findings_of : ReviewRequest → Findings
findings_of q = record {
  challan_number = q.challan_number;
  po_number = q.po_number;
  material_code = q.material_code;
  material_description = q.material_description;
  verified_quantity = some q.verified_quantity;
  unit = q.unit;
  notes = q.notes;
}

-- `WHERE id = … AND site_id = …`, of the row with the id
abbrev pub own_receipt : Reviewer → Option ReviewedReceipt → Option ReviewedReceipt
own_receipt reviewer none = none
own_receipt reviewer (some row) = if row.site_id == reviewer.site_id then some row else none

abbrev pub set_receipt :
    ℕ → ReviewedReceipt → (ℕ → Option ReviewedReceipt) → ℕ → Option ReviewedReceipt
set_receipt id row receipts i = if i == id then some row else receipts i

abbrev pub of_receipt : ℕ → VerifiedRow → Bool
of_receipt id row = row.receipt_id == id

-- `INSERT … ON CONFLICT (receipt_id) DO UPDATE … WHERE review_version < excluded.review_version`; the
-- columns of the tenant and the site are not updated.
abbrev pub overwrite : VerifiedRow → VerifiedRow → VerifiedRow
overwrite new row =
    if ltb row.review_version new.review_version
    then record row {
      po_number = new.po_number;
      material_code = new.material_code;
      verified_quantity = new.verified_quantity;
      unit = new.unit;
      reviewer_id = new.reviewer_id;
      review_version = new.review_version;
    }
    else row

unfoldable pub upsert_verified : VerifiedRow → List VerifiedRow → List VerifiedRow
upsert_verified new rows =
    if exists_in (of_receipt new.receipt_id) rows
    then update (of_receipt new.receipt_id) (overwrite new) rows
    else rows ++ new ∷ []

module _ (texts : Texts) where
  abbrev pub verified_row : Reviewer → ℕ → ReviewRequest → ℕ → VerifiedRow
  verified_row reviewer id q version = record {
    receipt_id = id;
    organization_id = reviewer.organization_id;
    site_id = reviewer.site_id;
    po_number = texts.upper q.po_number;
    material_code = texts.upper q.material_code;
    verified_quantity = q.verified_quantity;
    unit = texts.upper q.unit;
    reviewer_id = reviewer.email;
    review_version = version;
  }

  abbrev pub store_verified :
      ReviewAction → Reviewer → ℕ → ReviewRequest → ℕ → List VerifiedRow → List VerifiedRow
  store_verified verify reviewer id q version rows =
      upsert_verified (verified_row reviewer id q version) rows
  store_verified reject reviewer id q version rows = rows

  abbrev pub reviewed : ReviewRequest → ReviewedReceipt → ReviewedReceipt
  reviewed q row = record row {
    status = next_status q.action;
    findings = findings_of q;
    version = row.version + 1;
  }

  abbrev pub review_event : Reviewer → ℕ → ReviewRequest → String → ReviewedReceipt → ℕ → Happening
  review_event reviewer id q source_class previous event_id = record {
    id = event_id;
    organization_id = reviewer.organization_id;
    site_id = reviewer.site_id;
    receipt_id = some id;
    event_type = "REVIEWED";
    actor_id = reviewer.user_id;
    event_json = texts.review_json previous q (next_status q.action) (previous.version + 1);
    source_class = source_class;
  }

  -- The transaction with the row that it has locked; the answer is the new status and version.
  unfoldable pub review_found :
      Reviewer
      → ℕ
      → ReviewRequest
      → String
      → ℕ
      → Option ReviewedReceipt
      → Action Desk (ReceiptStatus × ℕ)
  unfolding upsert_verified
  review_found reviewer id q source_class now none s = (err "RECEIPT_NOT_FOUND", s)
  review_found reviewer id q source_class now (some previous) s =
      if previous.version != q.version then (err "VERSION_CONFLICT", s) else (
        ok (next_status q.action, previous.version + 1),
        record s {
          receipts = set_receipt id (reviewed q previous) s.receipts;
          verified_receipts =
              store_verified q.action reviewer id q (previous.version + 1) s.verified_receipts;
          audit_events =
              append_event texts.chain_sha256
                (review_event reviewer id q source_class previous s.next_id) now s.audit_events;
          next_id = s.next_id + 1;
        },
      )

  unfoldable pub review_receipt :
      Reviewer → ℕ → ReviewRequest → String → ℕ → Action Desk (ReceiptStatus × ℕ)
  unfolding review_found
  review_receipt reviewer id q source_class now s =
      review_found reviewer id q source_class now (own_receipt reviewer (s.receipts id)) s
