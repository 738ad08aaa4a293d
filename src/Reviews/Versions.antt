-- ===== src/Reviews/Versions.antt =====
-- Optimistic locking: what `review_receipt` (services/enrichment/app/authoritative.py) does to the
-- versions of receipts.
use challanse_website.Pipeline.{ReceiptStatus}
use challanse_website.Reviews.{
  Reviewer, ReviewRequest, ReviewedReceipt, Desk, Texts, own_receipt, review_found, review_receipt,
}
use challanse_website.Prelude.{
  ℕ, String, ◌≡◌, refl, ap, ◌∙◌, subst, inl, inr, true, Option, none, some, List, [], ◌∷◌, arith,
  ◌<◌, ◌==◌, ◌!=◌, Bool-cases, nat_beq_iff, Result, ok, err, nat_eq,
}

-- A call of `review_receipt`.
pub record ReviewCall : Type 0 where
  pub reviewer : Reviewer
  pub receipt_id : ℕ
  pub request : ReviewRequest
  pub source_class : String
  pub now : ℕ

-- The receipt of a site is there, with a version beyond `v`.
abbrev pub IsPast : ℕ → ℕ → Option ReviewedReceipt → Type 0
IsPast site v none = ⊥
IsPast site v (some row) = (row.site_id ≡ site) × (v < row.version)

pub own_some :
    (reviewer : Reviewer) (found : Option ReviewedReceipt) (row : ReviewedReceipt)
    → own_receipt reviewer found ≡ some row
    → (found ≡ some row) × (row.site_id ≡ reviewer.site_id)
own_some reviewer none row h = ground (arith, h)
own_some reviewer (some x) row h = elim (Bool-cases (x.site_id == reviewer.site_id)) [
  | inl e ↦ let k : some x ≡ some row = rw e at h in (k, ground (arith, k, e))
  | inr e ↦ ground (arith, rw e at h)
]

module _ (texts : Texts) where
  abbrev pub call : ReviewCall → Desk → Result (ReceiptStatus × ℕ) × Desk
  call c s = review_receipt texts c.reviewer c.receipt_id c.request c.source_class c.now s

  unfoldable pub run : List ReviewCall → Desk → Desk
  run [] s = s
  run (c ∷ cs) s = run cs (call c s).1

  review_found-IsPast :
      (reviewer : Reviewer) (id : ℕ) (q : ReviewRequest) (source : String) (now : ℕ)
      (found : Option ReviewedReceipt) (site v i : ℕ) (s : Desk)
      → own_receipt reviewer (s.receipts id) ≡ found
      → IsPast site v (s.receipts i)
      → IsPast site v ((review_found texts reviewer id q source now found s).1.receipts i)
  unfolding review_found
  review_found-IsPast reviewer id q source now none site v i s at h = h
  review_found-IsPast reviewer id q source now (some row) site v i s at h =
      elim (Bool-cases (row.version != q.version)) [
        | inl e ↦ rw e h
        | inr e ↦ rw e (elim (Bool-cases (i == id)) [
          | inl same ↦
              let there = own_some reviewer (s.receipts id) row at in
              let old : IsPast site v (some row) =
                subst (IsPast site v) (ap s.receipts ((nat_beq_iff i id).0 same) ∙ there.0) h in
              rw same (old.0, omega (arith, old.1))
          | inr other ↦ rw other h
        ])
      ]

  call-IsPast :
      (c : ReviewCall) (site v i : ℕ) (s : Desk)
      → IsPast site v (s.receipts i)
      → IsPast site v ((call c s).1.receipts i)
  unfolding review_receipt
  call-IsPast c site v i s h =
      review_found-IsPast c.reviewer c.receipt_id c.request c.source_class c.now
        (own_receipt c.reviewer (s.receipts c.receipt_id)) site v i s refl h

  run-IsPast :
      (cs : List ReviewCall) (site v i : ℕ) (s : Desk)
      → IsPast site v (s.receipts i)
      → IsPast site v ((run cs s).receipts i)
  unfolding run
  run-IsPast [] site v i s h = h
  run-IsPast (c ∷ cs) site v i s h =
      run-IsPast cs site v i (call c s).1 (call-IsPast c site v i s h)

  IsPast-conflicts :
      (reviewer : Reviewer) (id : ℕ) (q : ReviewRequest) (source : String) (now : ℕ) (s : Desk)
      (there : Option ReviewedReceipt)
      → IsPast reviewer.site_id q.version there
      → review_found texts reviewer id q source now (own_receipt reviewer there) s
        ≡ (err "VERSION_CONFLICT", s)
  unfolding review_found
  IsPast-conflicts reviewer id q source now s none h = absurd h
  IsPast-conflicts reviewer id q source now s (some row) h = ground (arith, h)

  review_found-stores :
      (reviewer : Reviewer) (id : ℕ) (q : ReviewRequest) (source : String) (now : ℕ)
      (found : Option ReviewedReceipt) (s : Desk) (a : ReceiptStatus × ℕ)
      → own_receipt reviewer (s.receipts id) ≡ found
      → (review_found texts reviewer id q source now found s).0 ≡ ok a
      → IsPast reviewer.site_id q.version
          ((review_found texts reviewer id q source now found s).1.receipts id)
  unfolding review_found
  review_found-stores reviewer id q source now none s a at h = ground (arith, h)
  review_found-stores reviewer id q source now (some row) s a at h =
      elim (Bool-cases (row.version != q.version)) [
        | inl e ↦ ground (arith, rw e at h)
        | inr e ↦
            let there = own_some reviewer (s.receipts id) row at in
            let same : id == id ≡ true = (nat_beq_iff id id).1 refl in
            rw e (rw same (there.1, ground (arith, e)))
      ]

  -- After a review of a receipt is accepted, every review of the same receipt at the same site that
  -- still carries the version it was made on is refused as a conflict and changes nothing, whatever
  -- reviews of any receipts came in between: a decision is never overwritten unseen.
  pub stale_review_conflicts :
      (reviewer reviewer' : Reviewer) (id : ℕ) (q q' : ReviewRequest) (source source' : String)
      (now later : ℕ) (s : Desk) (a : ReceiptStatus × ℕ) (between : List ReviewCall)
      → (review_receipt texts reviewer id q source now s).0 ≡ ok a
      → reviewer'.site_id ≡ reviewer.site_id
      → q'.version ≡ q.version
      → let s' = run between (review_receipt texts reviewer id q source now s).1 in
        review_receipt texts reviewer' id q' source' later s' ≡ (err "VERSION_CONFLICT", s')
  unfolding review_receipt
  stale_review_conflicts reviewer reviewer' id q q' source source' now later s a between h site
        version =
      let s₁ = (review_receipt texts reviewer id q source now s).1 in
      let stored =
        review_found-stores reviewer id q source now (own_receipt reviewer (s.receipts id)) s a refl
          h in
      let past = run-IsPast between reviewer.site_id q.version id s₁ stored in
      IsPast-conflicts reviewer' id q' source' later (run between s₁) ((run between s₁).receipts id)
        (rw (site, version) past)
