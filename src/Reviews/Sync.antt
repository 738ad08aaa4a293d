-- ===== src/Reviews/Sync.antt =====
-- The receipts that are VERIFIED and the table of verified receipts, under `review_receipt`
-- (services/enrichment/app/authoritative.py).
use challanse_website.Pipeline.{verified, rejected}
use challanse_website.Reviews.{
  Reviewer, ReviewRequest, ReviewAction, verify, reject, ReviewedReceipt, VerifiedRow, Desk, Texts,
  own_receipt, of_receipt, overwrite, upsert_verified, verified_row, store_verified, reviewed,
  review_found, review_receipt,
}
use challanse_website.Reviews.Versions.{ReviewCall, call, own_some, run}
use challanse_website.Prelude.{
  ℕ, String, ◌≡◌, refl, sym, ap, subst, inl, inr, Bool, true, false, Option, none, some, List, [],
  ◌∷◌, arith, ◌+◌, ◌≤◌, ◌<◌, ◌==◌, ◌!=◌, Bool-cases, nat_beq_iff, find?, find?-append_none,
  find?-append_other, find?-update_found, find?-update_other, exists_in, ok, nat_eq,
}

exists_in-find? :
    (p : VerifiedRow → Bool) (rows : List VerifiedRow) (v : VerifiedRow)
    → find? p rows ≡ some v
    → exists_in p rows ≡ true
exists_in-find? p [] v h = ground (arith, h)
exists_in-find? p (x ∷ rows) v h = ground (arith, h, exists_in-find? p rows v)

find?-none_exists :
    (p : VerifiedRow → Bool) (rows : List VerifiedRow)
    → find? p rows ≡ none
    → exists_in p rows ≡ false
find?-none_exists p [] h = refl
find?-none_exists p (x ∷ rows) h = ground (arith, h, find?-none_exists p rows)

-- The columns that an upsert writes.
abbrev pub Matches : VerifiedRow → VerifiedRow → Type 0
Matches new v =
    (v.po_number ≡ new.po_number)
    × (v.material_code ≡ new.material_code)
    × (v.verified_quantity ≡ new.verified_quantity)
    × (v.unit ≡ new.unit)
    × (v.reviewer_id ≡ new.reviewer_id)
    × (v.review_version ≡ new.review_version)

-- The row of the receipt after an upsert that is newer than what is there.
upsert-own :
    (new : VerifiedRow) (rows : List VerifiedRow) (found : Option VerifiedRow)
    → find? (of_receipt new.receipt_id) rows ≡ found
    → ((v : VerifiedRow) → found ≡ some v → v.review_version < new.review_version)
    → (v : VerifiedRow) × (find? (of_receipt new.receipt_id) (upsert_verified new rows) ≡ some v)
      × Matches new v
unfolding upsert_verified
upsert-own new rows none at h = rw (find?-none_exists (of_receipt new.receipt_id) rows at) (
  new,
  find?-append_none (of_receipt new.receipt_id) rows new at
      ((nat_beq_iff new.receipt_id new.receipt_id).1 refl),
  (refl, refl, refl, refl, refl, refl),
)
upsert-own new rows (some w) at h =
    let newer = h w refl in
    rw (exists_in-find? (of_receipt new.receipt_id) rows w at) (
      overwrite new w,
      find?-update_found (of_receipt new.receipt_id) (overwrite new) rows w (λ y. ground arith) at,
      ground (arith, newer),
    )

upsert-other :
    (new : VerifiedRow) (rows : List VerifiedRow) (id : ℕ)
    → id == new.receipt_id ≡ false
    → find? (of_receipt id) (upsert_verified new rows) ≡ find? (of_receipt id) rows
unfolding upsert_verified
upsert-other new rows id h = elim (Bool-cases (exists_in (of_receipt new.receipt_id) rows)) [
  | inl e ↦ rw e (
      find?-update_other (of_receipt id) (of_receipt new.receipt_id) (overwrite new) rows
        (λ y k. ground (arith, h, k)) (λ y k. ground (arith, h, k)))
  | inr e ↦ rw e (find?-append_other (of_receipt id) rows new (ground (arith, h)))
]

-- A receipt that is VERIFIED has its row, of its version, with the quantity and the texts in upper case;
-- and no row of a receipt is newer than the receipt.
abbrev pub IsListed : Texts → ReviewedReceipt → Option VerifiedRow → Type 0
IsListed texts row none = row.status ≡ verified → ⊥
IsListed texts row (some v) =
    (v.review_version ≤ row.version)
    × (row.status ≡ verified
        → (v.review_version ≡ row.version)
          × (some v.verified_quantity ≡ row.findings.verified_quantity)
          × (v.po_number ≡ texts.upper row.findings.po_number)
          × (v.material_code ≡ texts.upper row.findings.material_code)
          × (v.unit ≡ texts.upper row.findings.unit))

abbrev pub IsInSync : Texts → Option ReviewedReceipt → Option VerifiedRow → Type 0
IsInSync texts none found = found ≡ none
IsInSync texts (some row) found = IsListed texts row found

abbrev pub IsInSyncAt : Texts → ℕ → Desk → Type 0
IsInSyncAt texts id s = IsInSync texts (s.receipts id) (find? (of_receipt id) s.verified_receipts)

IsListed-bound :
    (texts : Texts) (row : ReviewedReceipt) (found : Option VerifiedRow) (v : VerifiedRow)
    → IsListed texts row found
    → found ≡ some v
    → v.review_version < row.version + 1
IsListed-bound texts row none v h e = ground (arith, e)
IsListed-bound texts row (some w) v h e =
    let le : w.review_version ≤ row.version = h.0 in ground (arith, e, le)

IsListed-rejected :
    (texts : Texts) (q : ReviewRequest) (row : ReviewedReceipt) (found : Option VerifiedRow)
    → q.action ≡ reject
    → IsListed texts row found
    → IsListed texts (reviewed texts q row) found
IsListed-rejected texts q row none e h = λ k. ground (arith, e, k)
IsListed-rejected texts q row (some v) e h = (omega (arith, h.0), λ k. ground (arith, e, k))

store-IsListed :
    (texts : Texts) (reviewer : Reviewer) (id : ℕ) (q : ReviewRequest) (row : ReviewedReceipt)
    (rows : List VerifiedRow) (action : ReviewAction)
    → q.action ≡ action
    → IsListed texts row (find? (of_receipt id) rows)
    → IsListed texts
        (reviewed texts q row)
        (find? (of_receipt id) (store_verified texts action reviewer id q (row.version + 1) rows))
store-IsListed texts reviewer id q row rows reject e h =
    IsListed-rejected texts q row (find? (of_receipt id) rows) e h
store-IsListed texts reviewer id q row rows verify e h =
    let new = verified_row texts reviewer id q (row.version + 1) in
    let (v, found, (po, material, quantity, unit, who, version)) =
      upsert-own new rows (find? (of_receipt id) rows) refl
        (λ v k. IsListed-bound texts row (find? (of_receipt id) rows) v h k) in
    rw found (omega (arith, version), λ k. (version, ap some quantity, po, material, unit))

store-other :
    (texts : Texts) (reviewer : Reviewer) (id i : ℕ) (q : ReviewRequest) (version : ℕ)
    (rows : List VerifiedRow) (action : ReviewAction)
    → i == id ≡ false
    → find? (of_receipt i) (store_verified texts action reviewer id q version rows)
      ≡ find? (of_receipt i) rows
store-other texts reviewer id i q version rows reject h = refl
store-other texts reviewer id i q version rows verify h =
    upsert-other (verified_row texts reviewer id q version) rows i h

module _ (texts : Texts) where
  review_found-IsInSync :
      (reviewer : Reviewer) (id : ℕ) (q : ReviewRequest) (source : String) (now : ℕ)
      (found : Option ReviewedReceipt) (i : ℕ) (s : Desk)
      → own_receipt reviewer (s.receipts id) ≡ found
      → IsInSyncAt texts i s
      → IsInSyncAt texts i (review_found texts reviewer id q source now found s).1
  unfolding review_found
  review_found-IsInSync reviewer id q source now none i s at h = h
  review_found-IsInSync reviewer id q source now (some row) i s at h =
      elim (Bool-cases (row.version != q.version)) [
        | inl e ↦ rw e h
        | inr e ↦ rw e (elim (Bool-cases (i == id)) [
          | inl same ↦
              let here : i ≡ id = (nat_beq_iff i id).0 same in
              let there = own_some reviewer (s.receipts id) row at in
              let old : IsListed texts row (find? (of_receipt id) s.verified_receipts) =
                subst (λ found. IsInSync texts found (find? (of_receipt id) s.verified_receipts))
                  there.0 (subst (λ j. IsInSyncAt texts j s) here h) in
              let new =
                store-IsListed texts reviewer id q row s.verified_receipts q.action refl old in
              rw same (
                subst
                  (λ j. IsListed texts (reviewed texts q row) (
                    find? (of_receipt j) (
                      store_verified texts q.action reviewer id q (row.version + 1)
                        s.verified_receipts)))
                  (sym here) new)
          | inr other ↦ rw other (
              rw
                (store-other texts reviewer id i q (row.version + 1) s.verified_receipts q.action
                  other)
                h)
        ])
      ]

  call-IsInSync :
      (c : ReviewCall) (i : ℕ) (s : Desk)
      → IsInSyncAt texts i s
      → IsInSyncAt texts i (call texts c s).1
  unfolding review_receipt
  call-IsInSync c i s h =
      review_found-IsInSync c.reviewer c.receipt_id c.request c.source_class c.now
        (own_receipt c.reviewer (s.receipts c.receipt_id)) i s refl h

  -- Whatever reviewers decide, in any order: a receipt that is VERIFIED keeps its row in the verified
  -- receipts, which carries the version of the receipt, its quantity, and its texts in upper case, and
  -- no row of the verified receipts is newer than its receipt.
  pub run-IsInSync :
      (cs : List ReviewCall) (i : ℕ) (s : Desk)
      → IsInSyncAt texts i s
      → IsInSyncAt texts i (run texts cs s)
  unfolding run
  run-IsInSync [] i s h = h
  run-IsInSync (c ∷ cs) i s h = run-IsInSync cs i (call texts c s).1 (call-IsInSync c i s h)

  -- A receipt that is rejected after it was verified keeps the row that it had in the verified
  -- receipts, so it counts on in the reconciliation.
  rejected_still_listed :
      (reviewer : Reviewer) (id : ℕ) (q : ReviewRequest) (source : String) (now : ℕ) (s : Desk)
      (row : ReviewedReceipt) (v : VerifiedRow)
      → s.receipts id ≡ some row
      → row.site_id ≡ reviewer.site_id
      → q.action ≡ reject
      → q.version ≡ row.version
      → find? (of_receipt id) s.verified_receipts ≡ some v
      → let reply = review_receipt texts reviewer id q source now s in
        (reply.0 ≡ ok (rejected, row.version + 1))
        × (find? (of_receipt id) reply.1.verified_receipts ≡ some v)
  unfolding review_receipt review_found
  rejected_still_listed reviewer id q source now s row v at site action version listed =
      rw at (rw site (rw version (rw action (ground (arith, listed)))))
