-- ===== src/Reconciliation/Convergence.antt =====
-- That the recorded reviews do not depend on the order in which they arrive
-- (`record_verified_review` of services/enrichment/app/reconciliation.py).
use mathlib.Core.List.{Perm, Permᴰ}
use mathlib.Core.Logic.{∥∥₁_elim}
use mathlib.Core.HLevel.{hedberg}
use challanse_website.Reviews.{VerifiedRow, of_receipt, overwrite, upsert_verified}
use challanse_website.Reconciliation.{Csv}
use challanse_website.Reconciliation.Deltas.{VerifiedReviewEvent, event_row, record_verified_review}
use challanse_website.Reconciliation.Received.{record_all}
use challanse_website.Prelude.{
  ℕ, String, string_eq, ◌≡◌, refl, sym, ap, ◌∙◌, subst, inl, inr, true, false, Option, none, some,
  List, [], ◌∷◌, ◌++◌, arith, ◌==◌, Bool-cases, nat_beq_iff, nat_eq, find?, update, exists_in,
  if◌then◌else◌, All, All-mono,
}

String-set : IsSet String
String-set = hedberg (λ x y. elim (Bool-cases (x == y)) [
  | inl e ↦ yes ((string_eq.same_iff x y).0 e)
  | inr e ↦ no (λ p. let k = (string_eq.same_iff x y).1 p in ground (arith, e, k))
])

-- Two reviews of one receipt are of one site, and of one version only if they are the same.
abbrev pub Agree : VerifiedReviewEvent → VerifiedReviewEvent → Type 0
Agree d e =
    d.receipt_id ≡ e.receipt_id
    → (d.organization_id ≡ e.organization_id)
      × (d.site_id ≡ e.site_id)
      × (d.review_version ≡ e.review_version → d ≡ e)

abbrev pub AllAgree : List VerifiedReviewEvent → Type 0
AllAgree es = All (λ e. All (Agree e) es) es

-- What a review makes of the row of a receipt: the newer of the two.
abbrev newer : VerifiedRow → Option VerifiedRow → Option VerifiedRow
newer new none = some new
newer new (some row) = some (overwrite new row)

abbrev merge : ℕ → VerifiedRow → Option VerifiedRow → Option VerifiedRow
merge id new old = if of_receipt id new then newer new old else old

find?-append :
    (id : ℕ) (new : VerifiedRow) (rows : List VerifiedRow)
    → exists_in (of_receipt new.receipt_id) rows ≡ false
    → find? (of_receipt id) (rows ++ new ∷ []) ≡ merge id new (find? (of_receipt id) rows)
find?-append id new [] h = ground arith
find?-append id new (x ∷ rows) h =
    let rest = find?-append id new rows (ground (arith, h)) in
    elim (Bool-cases (of_receipt id x)) [ inl e ↦ ground (arith, e, h) | inr e ↦ rw e rest ]

-- A row of another receipt is left alone.
find?-other :
    (id : ℕ) (new : VerifiedRow) (rows : List VerifiedRow)
    → of_receipt id new ≡ false
    → find? (of_receipt id) (update (of_receipt new.receipt_id) (overwrite new) rows)
      ≡ find? (of_receipt id) rows
find?-other id new [] h = refl
find?-other id new (x ∷ rows) h = ground (arith, h, find?-other id new rows h)

find?-own :
    (id : ℕ) (new : VerifiedRow) (rows : List VerifiedRow)
    → of_receipt id new ≡ true
    → exists_in (of_receipt new.receipt_id) rows ≡ true
    → find? (of_receipt id) (update (of_receipt new.receipt_id) (overwrite new) rows)
      ≡ newer new (find? (of_receipt id) rows)
find?-own id new [] own h = ground (arith, h)
find?-own id new (x ∷ rows) own h = elim (Bool-cases (of_receipt id x)) [
  | inl e ↦ ground (arith, own, e)
  | inr e ↦ ground (arith, own, e, find?-own id new rows own (ground (arith, own, e, h)))
]

-- The row of each receipt after a review, by the row before
find?-upsert :
    (id : ℕ) (new : VerifiedRow) (rows : List VerifiedRow)
    → find? (of_receipt id) (upsert_verified new rows) ≡ merge id new (find? (of_receipt id) rows)
unfolding upsert_verified
find?-upsert id new rows = elim (Bool-cases (exists_in (of_receipt new.receipt_id) rows)) [
  | inr e ↦ rw e (find?-append id new rows e)
  | inl e ↦ rw e (elim (Bool-cases (of_receipt id new)) [
    | inl f ↦ rw f (find?-own id new rows f e)
    | inr f ↦ rw f (find?-other id new rows f)
  ])
]

overwrite-commute :
    (csv : Csv) (d e : VerifiedReviewEvent) (row : VerifiedRow)
    → (d.review_version ≡ e.review_version → d ≡ e)
    → overwrite (event_row csv d) (overwrite (event_row csv e) row)
      ≡ overwrite (event_row csv e) (overwrite (event_row csv d) row)
overwrite-commute csv d e row same = elim (Bool-cases (d.review_version == e.review_version)) [
  | inl k ↦
      subst
        (λ x.
          overwrite (event_row csv d) (overwrite (event_row csv x) row)
          ≡ overwrite (event_row csv x) (overwrite (event_row csv d) row))
        (same ((nat_beq_iff d.review_version e.review_version).0 k)) refl
  | inr k ↦ ground (arith, k)
]

-- The first of the two reviews that arrives may be the first of its receipt.
newer-commute :
    (csv : Csv) (d e : VerifiedReviewEvent) (old : Option VerifiedRow)
    → d.receipt_id ≡ e.receipt_id
    → (d.organization_id ≡ e.organization_id)
      × (d.site_id ≡ e.site_id)
      × (d.review_version ≡ e.review_version → d ≡ e)
    → newer (event_row csv d) (newer (event_row csv e) old)
      ≡ newer (event_row csv e) (newer (event_row csv d) old)
newer-commute csv d e (some row) receipt (organization, site, same) =
    ap some (overwrite-commute csv d e row same)
newer-commute csv d e none receipt (organization, site, same) =
    elim (Bool-cases (d.review_version == e.review_version)) [
      | inl k ↦
          subst
            (λ x.
              newer (event_row csv d) (newer (event_row csv x) none)
              ≡ newer (event_row csv x) (newer (event_row csv d) none))
            (same ((nat_beq_iff d.review_version e.review_version).0 k)) refl
      | inr k ↦ ground (arith, k, receipt, organization, site)
    ]

merge-commute :
    (csv : Csv) (id : ℕ) (d e : VerifiedReviewEvent) (old : Option VerifiedRow)
    → Agree d e
    → merge id (event_row csv d) (merge id (event_row csv e) old)
      ≡ merge id (event_row csv e) (merge id (event_row csv d) old)
merge-commute csv id d e old agree = elim (Bool-cases (of_receipt id (event_row csv d))) [
  | inr f ↦ rw f refl
  | inl f ↦ elim (Bool-cases (of_receipt id (event_row csv e))) [
    | inr g ↦ rw g refl
    | inl g ↦ rw f (
        rw g (
          let receipt : d.receipt_id ≡ e.receipt_id =
            (nat_beq_iff d.receipt_id id).0 f ∙ sym ((nat_beq_iff e.receipt_id id).0 g) in
          newer-commute csv d e old receipt (agree receipt)))
  ]
]

module _ (csv : Csv) (id : ℕ) where
  abbrev merge_all : List VerifiedReviewEvent → Option VerifiedRow → Option VerifiedRow
  merge_all [] old = old
  merge_all (e ∷ es) old = merge_all es (merge id (event_row csv e) old)

  find?-record_all :
      (es : List VerifiedReviewEvent) (rows : List VerifiedRow)
      → find? (of_receipt id) (record_all csv es rows) ≡ merge_all es (find? (of_receipt id) rows)
  unfolding record_all record_verified_review
  find?-record_all [] rows = refl
  find?-record_all (e ∷ es) rows =
      find?-record_all es (record_verified_review csv e rows)
      ∙ ap (merge_all es) (find?-upsert id (event_row csv e) rows)

All-perm {κ} :
    (P : VerifiedReviewEvent → Type κ) {ds es : List VerifiedReviewEvent}
    → Permᴰ ds es
    → All P ds
    → All P es
All-perm P Permᴰ.nil h = h
All-perm P (Permᴰ.cons same p) h = (subst P same h.0, All-perm P p h.1)
All-perm P (Permᴰ.swap first second) h = (subst P second h.1.0, (subst P first h.0, h.1.1))
All-perm P (Permᴰ.trans p q) h = All-perm P q (All-perm P p h)

AllAgree-perm : {ds es : List VerifiedReviewEvent} → Permᴰ ds es → AllAgree ds → AllAgree es
AllAgree-perm {ds} {es} p h =
    All-perm (λ e. All (Agree e) es) p
      (All-mono (λ e. All (Agree e) ds) (λ e. All (Agree e) es) ds (λ e. All-perm (Agree e) p) h)

merge_all-perm :
    (csv : Csv) (id : ℕ) {ds es : List VerifiedReviewEvent} (old : Option VerifiedRow)
    → Permᴰ ds es
    → AllAgree ds
    → merge_all csv id ds old ≡ merge_all csv id es old
merge_all-perm csv id old Permᴰ.nil h = refl
merge_all-perm csv id old (Permᴰ.cons {a} {b} {l₁} {l₂} same p) h =
    merge_all-perm csv id (merge id (event_row csv a) old) p
      (All-mono (λ e. All (Agree e) (a ∷ l₁)) (λ e. All (Agree e) l₁) l₁ (λ e all. all.1) h.1)
    ∙ ap (λ e. merge_all csv id l₂ (merge id (event_row csv e) old)) same
merge_all-perm csv id old (Permᴰ.swap {a} {b} {a'} {l = l} first second) h =
    let agree : Agree b a = h.1.0.0 in
    ap (merge_all csv id l) (merge-commute csv id b a old agree)
    ∙ ap (λ e. merge_all csv id l (merge id (event_row csv a) (merge id (event_row csv e) old)))
        second
    ∙ ap (λ e. merge_all csv id l (merge id (event_row csv e) (merge id (event_row csv a') old)))
        first
merge_all-perm csv id old (Permᴰ.trans p q) h =
    merge_all-perm csv id old p h ∙ merge_all-perm csv id old q (AllAgree-perm p h)

-- Reviews may arrive in any order: the row of each receipt is the same afterwards. Those of one
-- receipt are of one site, and of one version only if they are the same review.
pub record_all-any_order :
    (csv : Csv) (ds es : List VerifiedReviewEvent) (rows : List VerifiedRow) (id : ℕ)
    → Perm ds es
    → AllAgree ds
    → find? (of_receipt id) (record_all csv ds rows)
      ≡ find? (of_receipt id) (record_all csv es rows)
record_all-any_order csv ds es rows id p h = ∥∥₁_elim p (hlevel String-set) (λ q.
    find?-record_all csv id ds rows
    ∙ merge_all-perm csv id (find? (of_receipt id) rows) q h
    ∙ sym (find?-record_all csv id es rows))
