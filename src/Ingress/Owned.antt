-- ===== src/Ingress/Owned.antt =====
-- Which request owns a receipt: the calls of the store of services/enrichment/app/ingress.py that the
-- route `receipt_event` of services/enrichment/app/main.py makes.
use challanse_website.Ingress.{queued, IngressRow, has_receipt}
use challanse_website.Ingress.Rows.{mark_rows, of_receipt, Unique, IsQueuedRow, IsQueued}
use challanse_website.Prelude.{
  ℕ, String, ◌≡◌, refl, sym, ap, ◌∙◌, subst, inl, inr, Bool, true, false, none, some, List, [], ◌∷◌,
  arith, ◌==◌, Bool-cases, nat_beq_iff, nat_eq, string_eq, find?, exists_in, exists_in-update, All,
}

pub find?-exists :
    (p q : IngressRow → Bool) (rows : List IngressRow) (x : IngressRow)
    → find? p rows ≡ some x
    → q x ≡ true
    → exists_in q rows ≡ true
find?-exists p q [] x h t = ground (arith, h)
find?-exists p q (y ∷ ys) x h t = elim (Bool-cases (p y)) [
  | inl e ↦
      let k : some y ≡ some x = rw e at h in
      let here : q y ≡ true = ground (arith, k, t) in rw here refl
  | inr e ↦ let rest = find?-exists p q ys x (rw e at h) t in ground (arith, rest)
]

-- The receipt of every row that has it is of one request.
abbrev pub IsOf : ℕ → String → IngressRow → Type 0
IsOf receipt id row = of_receipt receipt row ≡ true → row.request_id ≡ id

pub none-All :
    (receipt : ℕ) (id : String) (rows : List IngressRow)
    → exists_in (of_receipt receipt) rows ≡ false
    → All (IsOf receipt id) rows
none-All receipt id [] h = tt
none-All receipt id (x ∷ xs) h =
    ((λ k. ground (arith, h, k)), none-All receipt id xs (ground (arith, h)))

pub Unique-IsOf :
    (p : IngressRow → Bool) (receipt : ℕ) (rows : List IngressRow) (x : IngressRow)
    → Unique rows
    → find? p rows ≡ some x
    → of_receipt receipt x ≡ true
    → All (IsOf receipt x.request_id) rows
Unique-IsOf p receipt [] x u h t = tt
Unique-IsOf p receipt (y ∷ ys) x u h t = elim (Bool-cases (p y)) [
  | inl e ↦
      let k : some y ≡ some x = rw e at h in
      let same : y ≡ x = ground (arith, k) in
      let at : y.receipt_id ≡ receipt =
        ap (λ (r : IngressRow). r.receipt_id) same ∙ (nat_beq_iff x.receipt_id receipt).0 t in
      (
        (λ own. ap (λ (r : IngressRow). r.request_id) same),
        none-All receipt x.request_id ys (subst (λ r. exists_in (of_receipt r) ys ≡ false) at u.0),
      )
  | inr e ↦
      let found : find? p ys ≡ some x = rw e at h in
      (
        (λ own. absurd (
            let at : y.receipt_id ≡ receipt = (nat_beq_iff y.receipt_id receipt).0 own in
            let there : exists_in (of_receipt y.receipt_id) ys ≡ true =
              find?-exists p (of_receipt y.receipt_id) ys x found
                (subst (λ r. of_receipt r x ≡ true) (sym at) t) in
            ground (arith, there, u.0))),
        Unique-IsOf p receipt ys x u.1 found t,
      )
]

-- A row of the receipt of its organization, and the request of all rows of the receipt
abbrev pub Owns : ℕ → ℕ → String → List IngressRow → Type 0
Owns organization receipt id rows =
    (exists_in (has_receipt organization receipt) rows ≡ true) × All (IsOf receipt id) rows

pub mark-IsQueued :
    (organization receipt : ℕ) (id task : String) (rows : List IngressRow)
    → Owns organization receipt id rows
    → IsQueued organization receipt (mark_rows id task rows)
mark-IsQueued organization receipt id task rows (there, own) = (
  exists_in-update (has_receipt organization receipt) (λ row. row.request_id == id)
        (λ row. record row { status = queued; task_id = some task }) rows (λ row. refl)
      ∙ there,
  marked receipt id task rows own,
)
  where
    marked :
        (receipt : ℕ) (id task : String) (rows : List IngressRow)
        → All (IsOf receipt id) rows
        → All (IsQueuedRow receipt) (mark_rows id task rows)
    marked receipt id task [] own = tt
    marked receipt id task (x ∷ xs) own =
        let rest = marked receipt id task xs own.1 in
        elim (Bool-cases (x.request_id == id)) [
          | inl e ↦ rw e ((λ k. refl), rest)
          | inr e ↦ rw e (
            (λ k. absurd (
                let e' = (string_eq.same_iff x.request_id id).1 (own.0 k) in
                let clash : true ≡ false = sym e' ∙ e in ground (arith, clash))),
            rest,
          )
        ]

pub inserted :
    (organization receipt : ℕ) (rows : List IngressRow) (x : IngressRow)
    → exists_in (has_receipt organization receipt) rows ≡ true
    → exists_in (has_receipt organization receipt) (x ∷ rows) ≡ true
inserted organization receipt rows x h = ground (arith, h)

pub none-exists :
    (p : IngressRow → Bool) (rows : List IngressRow)
    → find? p rows ≡ none
    → exists_in p rows ≡ false
none-exists p [] h = refl
none-exists p (x ∷ xs) h = ground (arith, h, none-exists p xs)

pub receipt-exists :
    (organization receipt : ℕ) (rows : List IngressRow)
    → exists_in (has_receipt organization receipt) rows ≡ true
    → exists_in (of_receipt receipt) rows ≡ true
receipt-exists organization receipt [] h = ground (arith, h)
receipt-exists organization receipt (x ∷ xs) h =
    ground (arith, h, receipt-exists organization receipt xs)
