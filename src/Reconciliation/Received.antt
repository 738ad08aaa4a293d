-- ===== src/Reconciliation/Received.antt =====
-- What recorded reviews do to the quantities received:
-- `record_verified_review` and `reconciliation_for_site` of services/enrichment/app/reconciliation.py.
use challanse_website.Reviews.{VerifiedRow, of_receipt, overwrite, upsert_verified}
use challanse_website.Reconciliation.{Csv, PurchaseOrderRow}
use challanse_website.Reconciliation.Deltas.{
  VerifiedReviewEvent, event_row, record_verified_review, in_group, sum_verified, received_of,
}
use challanse_website.Prelude.{
  ℕ, ◌≡◌, refl, sym, ◌∙◌, subst, inl, inr, Bool, true, false, List, [], ◌∷◌, ◌++◌, arith, ◌+◌, ◌≤◌,
  Bool-cases, nat_beq_iff, nat_eq, string_eq, exists_in, exists_in-append, update, select,
  if◌then◌else◌, All, All-append_one,
}

sum_verified-append :
    (p : VerifiedRow → Bool) (rows : List VerifiedRow) (row : VerifiedRow)
    → sum_verified (select p (rows ++ row ∷ []))
      ≡ sum_verified (select p rows) + (if p row then row.verified_quantity else 0)
sum_verified-append p [] row = ground arith
sum_verified-append p (x ∷ rows) row = ground (arith, sum_verified-append p rows row)

-- A review of a receipt that had none adds its quantity to what is received on its own order at its
-- own site, and to no other.
first_review_counts :
    (csv : Csv) (e : VerifiedReviewEvent) (rows : List VerifiedRow) (organization site : ℕ)
    (order : PurchaseOrderRow)
    → exists_in (of_receipt e.receipt_id) rows ≡ false
    → received_of organization site (record_verified_review csv e rows) order
      ≡ received_of organization site rows order
        + (if in_group organization site order (event_row csv e) then e.verified_quantity else 0)
unfolding record_verified_review upsert_verified
first_review_counts csv e rows organization site order h =
    rw h (sum_verified-append (in_group organization site order) rows (event_row csv e))

-- The row of the receipt, if the row is one, is of this version or a newer one.
abbrev pub IsAsNew : ℕ → ℕ → VerifiedRow → Type 0
IsAsNew id version row = of_receipt id row ≡ true → version ≤ row.review_version

-- A review of this version or a newer one is recorded for the receipt.
abbrev pub IsRecorded : ℕ → ℕ → List VerifiedRow → Type 0
IsRecorded id version rows = (exists_in (of_receipt id) rows ≡ true) × All (IsAsNew id version) rows

exists_in-overwrite :
    (id : ℕ) (new : VerifiedRow) (rows : List VerifiedRow)
    → exists_in (of_receipt id) (update (of_receipt new.receipt_id) (overwrite new) rows)
      ≡ exists_in (of_receipt id) rows
exists_in-overwrite id new [] = refl
exists_in-overwrite id new (x ∷ rows) = ground (arith, exists_in-overwrite id new rows)

none-IsAsNew :
    (id version : ℕ) (rows : List VerifiedRow)
    → exists_in (of_receipt id) rows ≡ false
    → All (IsAsNew id version) rows
none-IsAsNew id version [] h = tt
none-IsAsNew id version (x ∷ rows) h =
    ((λ k. ground (arith, h, k)), none-IsAsNew id version rows (ground (arith, h)))

overwrite-IsAsNew :
    (id version : ℕ) (new : VerifiedRow) (rows : List VerifiedRow)
    → All (IsAsNew id version) rows
    → All (IsAsNew id version) (update (of_receipt new.receipt_id) (overwrite new) rows)
overwrite-IsAsNew id version new [] h = tt
overwrite-IsAsNew id version new (x ∷ rows) h =
    let rest = overwrite-IsAsNew id version new rows h.1 in
    let here : IsAsNew id version x = h.0 in
    elim (Bool-cases (of_receipt new.receipt_id x)) [
      | inl e ↦ rw e ((λ k. ground (arith, here, k)), rest)
      | inr e ↦ rw e (here, rest)
    ]

upsert-IsRecorded :
    (id version : ℕ) (new : VerifiedRow) (rows : List VerifiedRow)
    → IsRecorded id version rows
    → IsRecorded id version (upsert_verified new rows)
unfolding upsert_verified
upsert-IsRecorded id version new rows h =
    elim (Bool-cases (exists_in (of_receipt new.receipt_id) rows)) [
      | inl e ↦
          rw e (exists_in-overwrite id new rows ∙ h.0, overwrite-IsAsNew id version new rows h.1)
      | inr e ↦ rw e (
        rw (exists_in-append (of_receipt id) rows new) (rw h.0 refl),
        All-append_one (IsAsNew id version) rows new h.1 (λ k. absurd (
            let same : new.receipt_id ≡ id = (nat_beq_iff new.receipt_id id).0 k in
            let there : exists_in (of_receipt new.receipt_id) rows ≡ true =
              subst (λ i. exists_in (of_receipt i) rows ≡ true) (sym same) h.0 in
            ground (arith, e, there))),
      )
    ]

rows-IsAsNew :
    (new : VerifiedRow) (rows : List VerifiedRow)
    → All
        (IsAsNew new.receipt_id new.review_version)
        (update (of_receipt new.receipt_id) (overwrite new) rows)
rows-IsAsNew new [] = tt
rows-IsAsNew new (x ∷ rows) =
    let rest = rows-IsAsNew new rows in
    elim (Bool-cases (of_receipt new.receipt_id x)) [
      | inl e ↦ rw e ((λ k. ground arith), rest)
      | inr e ↦ rw e ((λ k. ground (arith, e, k)), rest)
    ]

own-IsRecorded :
    (new : VerifiedRow) (rows : List VerifiedRow)
    → IsRecorded new.receipt_id new.review_version (upsert_verified new rows)
unfolding upsert_verified
own-IsRecorded new rows = elim (Bool-cases (exists_in (of_receipt new.receipt_id) rows)) [
  | inl e ↦ rw e (exists_in-overwrite new.receipt_id new rows ∙ e, rows-IsAsNew new rows)
  | inr e ↦ rw e (
    exists_in-append (of_receipt new.receipt_id) rows new
        ∙ ground (arith, (nat_beq_iff new.receipt_id new.receipt_id).1 refl),
    All-append_one (IsAsNew new.receipt_id new.review_version) rows new
        (none-IsAsNew new.receipt_id new.review_version rows e) (λ k. omega arith),
  )
]

update-as_new :
    (new : VerifiedRow) (rows : List VerifiedRow)
    → All (IsAsNew new.receipt_id new.review_version) rows
    → update (of_receipt new.receipt_id) (overwrite new) rows ≡ rows
update-as_new new [] h = refl
update-as_new new (x ∷ rows) h =
    let rest = update-as_new new rows h.1 in
    let here : IsAsNew new.receipt_id new.review_version x = h.0 in
    elim (Bool-cases (of_receipt new.receipt_id x)) [
      | inl e ↦ let le = here e in ground (arith, e, le, rest)
      | inr e ↦ ground (arith, e, rest)
    ]

upsert-as_new :
    (new : VerifiedRow) (rows : List VerifiedRow)
    → IsRecorded new.receipt_id new.review_version rows
    → upsert_verified new rows ≡ rows
unfolding upsert_verified
upsert-as_new new rows h = rw h.0 (update-as_new new rows h.1)

-- Events that arrive one after the other.
unfoldable pub record_all : Csv → List VerifiedReviewEvent → List VerifiedRow → List VerifiedRow
record_all csv [] rows = rows
record_all csv (e ∷ es) rows = record_all csv es (record_verified_review csv e rows)

record_all-IsRecorded :
    (csv : Csv) (es : List VerifiedReviewEvent) (id version : ℕ) (rows : List VerifiedRow)
    → IsRecorded id version rows
    → IsRecorded id version (record_all csv es rows)
unfolding record_all record_verified_review
record_all-IsRecorded csv [] id version rows h = h
record_all-IsRecorded csv (e ∷ es) id version rows h =
    record_all-IsRecorded csv es id version (record_verified_review csv e rows)
      (upsert-IsRecorded id version (event_row csv e) rows h)

-- A review that was recorded and arrives again, after whatever other reviews came in between, changes
-- nothing: neither a redelivery nor a review that is overtaken brings an old quantity back.
pub record_again :
    (csv : Csv) (e : VerifiedReviewEvent) (between : List VerifiedReviewEvent)
    (rows : List VerifiedRow)
    → let after = record_all csv between (record_verified_review csv e rows) in
      record_verified_review csv e after ≡ after
unfolding record_verified_review
record_again csv e between rows =
    upsert-as_new (event_row csv e) (record_all csv between (record_verified_review csv e rows)) (
      record_all-IsRecorded csv between e.receipt_id e.review_version
        (record_verified_review csv e rows) (own-IsRecorded (event_row csv e) rows))
