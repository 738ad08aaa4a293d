-- ===== src/Ingress/Rows.antt =====
-- What the calls of the ingress store and the route `receipt_event` keep of the table
-- `service_ingress_requests` (services/enrichment/app/ingress.py, services/enrichment/app/main.py).
use challanse_website.Pipeline.{ReceiptEvent}
use challanse_website.Ingress.{
  queued, IngressRow, IngressReservation, ServiceRequest, Gate, is_reserved, has_request,
  has_receipt, conflicts, differs, new_ingress, reserve, Wire, after_reserve, enqueue_reserved,
  receive_event, receipt_event,
}
use challanse_website.Prelude.{
  ℕ, String, ◌≡◌, refl, ◌∙◌, inl, inr, Bool, true, false, not, some, List, [], ◌∷◌, arith, ◌&&◌,
  ◌==◌, Bool-cases, Option-cases, nat_eq, string_eq, find?, update, delete, exists_in,
  exists_in-update, All, Result, ok, err,
}

abbrev pub mark_rows : String → String → List IngressRow → List IngressRow
mark_rows id task rows =
    update (λ row. row.request_id == id)
      (λ row. record row { status = queued; task_id = some task }) rows

abbrev pub release_rows : String → List IngressRow → List IngressRow
release_rows id rows = delete (λ row. row.request_id == id && is_reserved row.status) rows

abbrev pub of_receipt : ℕ → IngressRow → Bool
of_receipt receipt row = row.receipt_id == receipt

-- Each receipt has one row at most.
abbrev pub Unique : List IngressRow → Type 0
Unique [] = Unit
Unique (x ∷ xs) = (exists_in (of_receipt x.receipt_id) xs ≡ false) × Unique xs

pub Unique-mark :
    (id task : String) (rows : List IngressRow) → Unique rows → Unique (mark_rows id task rows)
Unique-mark id task [] h = tt
Unique-mark id task (x ∷ xs) h =
    let rest = Unique-mark id task xs h.1 in
    let same =
      exists_in-update (of_receipt x.receipt_id) (λ (row : IngressRow). row.request_id == id)
        (λ row. record row { status = queued; task_id = some task }) xs (λ row. refl) in
    elim (Bool-cases (x.request_id == id)) [
      | inl e ↦ rw e (same ∙ h.0, rest)
      | inr e ↦ rw e (same ∙ h.0, rest)
    ]

pub exists_in-delete :
    (p q : IngressRow → Bool) (rows : List IngressRow)
    → exists_in p rows ≡ false
    → exists_in p (delete q rows) ≡ false
exists_in-delete p q [] h = refl
exists_in-delete p q (x ∷ xs) h = ground (arith, h, exists_in-delete p q xs)

pub Unique-delete :
    (p : IngressRow → Bool) (rows : List IngressRow) → Unique rows → Unique (delete p rows)
Unique-delete p [] h = tt
Unique-delete p (x ∷ xs) h = elim (Bool-cases (p x)) [
  | inl e ↦ rw e (Unique-delete p xs h.1)
  | inr e ↦ rw e (exists_in-delete (of_receipt x.receipt_id) p xs h.0, Unique-delete p xs h.1)
]

pub conflicts-receipt :
    (q : ServiceRequest) (event : ReceiptEvent) (rows : List IngressRow)
    → exists_in (conflicts q event) rows ≡ false
    → exists_in (of_receipt event.receipt_id) rows ≡ false
conflicts-receipt q event [] h = refl
conflicts-receipt q event (x ∷ xs) h = ground (arith, h, conflicts-receipt q event xs)

pub All-delete :
    (P : IngressRow → Type 0) (p : IngressRow → Bool) (rows : List IngressRow)
    → All P rows
    → All P (delete p rows)
All-delete P p [] h = tt
All-delete P p (x ∷ xs) h = elim (Bool-cases (p x)) [
  | inl e ↦ rw e (All-delete P p xs h.1)
  | inr e ↦ rw e (h.0, All-delete P p xs h.1)
]

-- The receipt is queued: it has a row of its organization, and every row of it is QUEUED.
abbrev pub IsQueuedRow : ℕ → IngressRow → Type 0
IsQueuedRow receipt row = of_receipt receipt row ≡ true → row.status ≡ queued

abbrev pub IsQueued : ℕ → ℕ → List IngressRow → Type 0
IsQueued organization receipt rows =
    (exists_in (has_receipt organization receipt) rows ≡ true) × All (IsQueuedRow receipt) rows

pub IsQueued-release :
    (organization receipt : ℕ) (id : String) (rows : List IngressRow)
    → IsQueued organization receipt rows
    → IsQueued organization receipt (release_rows id rows)
IsQueued-release organization receipt id rows (there, all_queued) = (
  kept organization receipt id rows all_queued there,
  All-delete (IsQueuedRow receipt) (λ row. row.request_id == id && is_reserved row.status) rows
      all_queued,
)
  where
    kept :
        (organization receipt : ℕ) (id : String) (rows : List IngressRow)
        → All (IsQueuedRow receipt) rows
        → exists_in (has_receipt organization receipt) rows ≡ true
        → exists_in (has_receipt organization receipt) (release_rows id rows) ≡ true
    kept organization receipt id [] all_queued there = ground (arith, there)
    kept organization receipt id (x ∷ xs) all_queued there =
        ground (arith, all_queued.0, there, kept organization receipt id xs all_queued.1)

module _ (wire : Wire) where
  -- The row is of the event that the content with its hash parses to.
  abbrev pub IsParsed : IngressRow → Type 0
  IsParsed row =
      (raw : String) × (event : ReceiptEvent) × (row.content_sha256 ≡ wire.sha256 raw)
      × (wire.parse_event raw ≡ some event)
      × (row.receipt_id ≡ event.receipt_id)
      × (row.organization_id ≡ event.organization_id)

  abbrev pub IsSound : List IngressRow → Type 0
  IsSound rows = Unique rows × All IsParsed rows

  -- What an insertion, a mark and a release keep, the route keeps.
  module _ (P : List IngressRow → Type 0)
      (inserts : (q : ServiceRequest) (event : ReceiptEvent) (raw : String) (rows : List IngressRow)
        → q.content_sha256 ≡ wire.sha256 raw
        → wire.parse_event raw ≡ some event
        → exists_in (conflicts q event) rows ≡ false
        → P rows
        → P (new_ingress q event ∷ rows))
      (marks : (id task : String) (rows : List IngressRow) → P rows → P (mark_rows id task rows))
      (releases : (id : String) (rows : List IngressRow) → P rows → P (release_rows id rows)) where
    reserve-keeps :
        (q : ServiceRequest) (event : ReceiptEvent) (raw : String) (s : Gate)
        → q.content_sha256 ≡ wire.sha256 raw
        → wire.parse_event raw ≡ some event
        → P s.requests
        → P (reserve q event s).1.requests
    unfolding reserve
    reserve-keeps q event raw s content parsed h =
        elim (Option-cases (find? (has_request event.organization_id q.request_id) s.requests)) [
          | inr (row, e) ↦
              rw e (elim (Bool-cases (differs q row)) [ inl d ↦ rw d h | inr d ↦ rw d h ])
          | inl e ↦
              rw e
                (elim (Option-cases
                  (find? (has_receipt event.organization_id event.receipt_id) s.requests)) [
                    | inr (row, f) ↦ rw f h
                    | inl f ↦ rw f (elim (Bool-cases (exists_in (conflicts q event) s.requests)) [
                      | inl c ↦ rw c h
                      | inr c ↦ rw c (inserts q event raw s.requests content parsed c h)
                    ])
                  ])
        ]

    after_reserve-keeps :
        (event : ReceiptEvent) (enqueue : Result String) (reply : Result IngressReservation × Gate)
        → P reply.1.requests
        → P (after_reserve wire event enqueue reply).1.requests
    unfolding after_reserve
    after_reserve-keeps event enqueue (err e, s) h = h
    after_reserve-keeps event enqueue (ok r, s) h =
        elim (Bool-cases (r.duplicate && not (is_reserved r.status))) [
          | inl d ↦ rw d h
          | inr d ↦ rw d (enqueued-keeps event r.request_id enqueue s h)
        ]
      where
        enqueued-keeps :
            (event : ReceiptEvent) (id : String) (enqueue : Result String) (s : Gate)
            → P s.requests
            → P (enqueue_reserved event id enqueue s).1.requests
        enqueued-keeps event id (err e) s h = releases id s.requests h
        enqueued-keeps event id (ok task) s h = marks id task s.requests h

    pub receipt_event-keeps :
        (request key raw : String) (enqueue : Result String) (s : Gate)
        → P s.requests
        → P (receipt_event wire request key raw enqueue s).1.requests
    unfolding receipt_event receive_event
    receipt_event-keeps request key raw enqueue s h = elim (Option-cases (wire.parse_event raw)) [
      | inl e ↦ rw e h
      | inr (event, e) ↦
          let q : ServiceRequest = record {
            request_id = request;
            key_id = key;
            content_sha256 = wire.sha256 raw;
          } in
          rw e (
            after_reserve-keeps event enqueue (reserve q event s)
              (reserve-keeps q event raw s refl e h))
    ]
