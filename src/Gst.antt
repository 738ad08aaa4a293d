-- ===== src/Gst.antt =====
-- services/enrichment/app/gst.py: the comparison of a receipt with its e-invoice.
use challanse_website.Prelude.{
  ℕ, String, ◌≡◌, refl, inl, inr, Bool, Option, none, some, arith, ◌+◌, ◌-◌, ◌*◌, ◌≤◌, ◌||◌, leb,
  ◌==◌, Bool-cases, Result, ok, err, if◌then◌else◌, nat_eq, string_eq,
}

abbrev distance : ℕ → ℕ → ℕ
distance a b = (a - b) + (b - a)

-- `quantities_match` with the tolerance 0.02, on quantities in thousandths.
pub quantities_match : ℕ → ℕ → Bool
quantities_match site invoice =
    if site == 0 then invoice == 0 else leb (distance invoice site * 50) site

-- `GstReceiptContext`, the fields that decide the outcome; an empty text is not a number.
pub record GstContext : Type 0 where
  pub vendor_gst_number : String
  pub developer_gst_number : String
  pub timestamp_unix : ℕ
  pub site_captured_quantity : Option ℕ

pub record GstInvoice : Type 0 where
  pub irn_hash : String
  pub e_invoice_quantity : ℕ

pub data GstOutcome : Type 0 where
  needs_human_review gst_anomaly verified_gst : GstOutcome

-- `audit` is empty where no invoice was read; the credit payload is there for a verified one.
pub record GstValidation : Type 0 where
  pub outcome : GstOutcome
  pub audit : Option GstInvoice
  pub credit_payload : Option String

abbrev unread : GstValidation
unread = record { outcome = needs_human_review; audit = none; credit_payload = none }

-- `build_aafi` hashes and formats what the context and the invoice hold.
module _ (build_aafi : GstContext → GstInvoice → String) where
  compare_invoice : GstContext → ℕ → Result GstInvoice → GstValidation
  unfolding quantities_match
  compare_invoice context quantity (err e) = unread
  compare_invoice context quantity (ok invoice) =
      if quantities_match quantity invoice.e_invoice_quantity
      then record {
        outcome = verified_gst;
        audit = some invoice;
        credit_payload = some (build_aafi context invoice);
      }
      else record { outcome = gst_anomaly; audit = some invoice; credit_payload = none }

  validate_quantity : (String → ℕ → Result GstInvoice) → GstContext → Option ℕ → GstValidation
  unfolding compare_invoice
  validate_quantity fetch_gst context none = unread
  validate_quantity fetch_gst context (some quantity) =
      if context.vendor_gst_number == "" || context.developer_gst_number == ""
      then unread
      else compare_invoice context quantity
          (fetch_gst context.vendor_gst_number context.timestamp_unix)

  unfoldable pub validate_gst : (String → ℕ → Result GstInvoice) → GstContext → GstValidation
  unfolding validate_quantity
  validate_gst fetch_gst context =
      validate_quantity fetch_gst context context.site_captured_quantity

compare_invoice_credit :
    (build_aafi : GstContext → GstInvoice → String) (context : GstContext) (quantity : ℕ)
    (r : Result GstInvoice) (payload : String)
    → (compare_invoice build_aafi context quantity r).credit_payload ≡ some payload
    → (invoice : GstInvoice) × (r ≡ ok invoice)
      × (invoice.e_invoice_quantity * 50 ≤ quantity * 51)
      × (quantity * 49 ≤ invoice.e_invoice_quantity * 50)
unfolding compare_invoice
compare_invoice_credit build_aafi context quantity (err e) payload h = cc
compare_invoice_credit build_aafi context quantity (ok invoice) payload h =
    (invoice, refl, ground arith, ground arith)

validate_quantity_credit :
    (build_aafi : GstContext → GstInvoice → String) (fetch_gst : String → ℕ → Result GstInvoice)
    (context : GstContext) (q : Option ℕ) (payload : String)
    → (validate_quantity build_aafi fetch_gst context q).credit_payload ≡ some payload
    → (quantity : ℕ) × (invoice : GstInvoice) × (q ≡ some quantity)
      × (fetch_gst context.vendor_gst_number context.timestamp_unix ≡ ok invoice)
      × (invoice.e_invoice_quantity * 50 ≤ quantity * 51)
      × (quantity * 49 ≤ invoice.e_invoice_quantity * 50)
unfolding validate_quantity
validate_quantity_credit build_aafi fetch_gst context none payload h = cc
validate_quantity_credit build_aafi fetch_gst context (some quantity) payload h =
    elim (Bool-cases (context.vendor_gst_number == "" || context.developer_gst_number == "")) [
      | inl empty ↦ cc (rw empty at h)
      | inr given ↦
          let (invoice, fetched, upper, lower) =
            compare_invoice_credit build_aafi context quantity
              (fetch_gst context.vendor_gst_number context.timestamp_unix) payload
              (rw given at h) in
          (quantity, invoice, refl, fetched, upper, lower)
    ]

-- Credit is offered only for an invoice that was fetched and whose quantity is within two per cent
-- of the quantity on site; a quantity of zero matches only zero.
credit_needs_match :
    (build_aafi : GstContext → GstInvoice → String) (fetch_gst : String → ℕ → Result GstInvoice)
    (context : GstContext) (payload : String)
    → (validate_gst build_aafi fetch_gst context).credit_payload ≡ some payload
    → (quantity : ℕ) × (invoice : GstInvoice) × (context.site_captured_quantity ≡ some quantity)
      × (fetch_gst context.vendor_gst_number context.timestamp_unix ≡ ok invoice)
      × (invoice.e_invoice_quantity * 50 ≤ quantity * 51)
      × (quantity * 49 ≤ invoice.e_invoice_quantity * 50)
unfolding validate_gst
credit_needs_match build_aafi fetch_gst context payload h =
    validate_quantity_credit build_aafi fetch_gst context context.site_captured_quantity payload h
