-- ===== src/Ingress/Kept.antt =====
-- That the route `receipt_event` of services/enrichment/app/main.py keeps a receipt with the request
-- that owns it.
use challanse_website.Pipeline.{ReceiptEvent}
use challanse_website.Ingress.{
  queued, IngressRow, IngressReservation, ServiceRequest, Gate, is_reserved, has_request,
  has_receipt, conflicts, differs, new_ingress, reserve_insert, reserve, mark_queued, release, Wire,
  accepted, after_reserve, receive_event, receipt_event,
}
use challanse_website.Ingress.Rows.{
  of_receipt, Unique, Unique-mark, Unique-delete, conflicts-receipt, All-delete, IsQueuedRow,
  IsQueued, IsQueued-release, IsParsed, IsSound, receipt_event-keeps,
}
use challanse_website.Prelude.{
  ℕ, String, ◌≡◌, refl, sym, ap, ◌∙◌, subst, inl, inr, Bool, true, false, not, none, some, List,
  arith, ◌&&◌, ◌==◌, Bool-cases, Option-cases, nat_beq_iff, nat_eq, string_eq, find?, find?-All,
  exists_in, exists_in-update, All, All-update, All-always, Result, ok, err,
}
use challanse_website.Ingress.Owned.{
  Owns, Unique-IsOf, find?-exists, inserted, mark-IsQueued, none-All, receipt-exists,
}

module _ (wire : Wire) (no_collision : (x y : String) → wire.sha256 x ≡ wire.sha256 y → x ≡ y) where
  pub IsSound-keeps :
      (request key raw : String) (enqueue : Result String) (s : Gate)
      → IsSound wire s.requests
      → IsSound wire (receipt_event wire request key raw enqueue s).1.requests
  IsSound-keeps request key raw enqueue s h =
      receipt_event-keeps wire (IsSound wire)
        (λ q event raw rows content parsed fresh (unique, each). (
          (conflicts-receipt q event rows fresh, unique),
          ((raw, event, content, parsed, refl, refl), each),
        ))
        (λ id task rows (unique, each). (
          Unique-mark id task rows unique,
          All-update (IsParsed wire) (λ row. row.request_id == id)
              (λ row. record row { status = queued; task_id = some task }) rows (λ row k p. p) each,
        ))
        (λ id rows (unique, each). (
          Unique-delete (λ row. row.request_id == id && is_reserved row.status) rows unique,
          All-delete (IsParsed wire) (λ row. row.request_id == id && is_reserved row.status) rows
              each,
        ))
        request key raw enqueue s h

  pub IsQueued-keeps :
      (organization receipt : ℕ) (request key raw : String) (enqueue : Result String) (s : Gate)
      → IsQueued organization receipt s.requests
      → IsQueued organization receipt (receipt_event wire request key raw enqueue s).1.requests
  IsQueued-keeps organization receipt request key raw enqueue s h =
      receipt_event-keeps wire (IsQueued organization receipt)
        (λ q event raw rows content parsed fresh (there, all_queued). (
          inserted organization receipt rows (new_ingress q event) there,
          (
            (λ own. absurd (
                let at : event.receipt_id ≡ receipt =
                  (nat_beq_iff event.receipt_id receipt).0 own in
                let free : exists_in (of_receipt receipt) rows ≡ false =
                  subst (λ r. exists_in (of_receipt r) rows ≡ false) at
                    (conflicts-receipt q event rows fresh) in
                let taken = receipt-exists organization receipt rows there in
                ground (arith, free, taken))),
            all_queued,
          ),
        ))
        (λ id task rows (there, all_queued). (
          exists_in-update (has_receipt organization receipt) (λ row. row.request_id == id)
                (λ row. record row { status = queued; task_id = some task }) rows (λ row. refl)
              ∙ there,
          All-update (IsQueuedRow receipt) (λ row. row.request_id == id)
              (λ row. record row { status = queued; task_id = some task }) rows
              (λ row k p own. refl) all_queued,
        ))
        (λ id rows old. IsQueued-release organization receipt id rows old) request key raw enqueue s
        h

  -- A row of the request with its content is of its receipt.
  pub request-IsOf :
      (q : ServiceRequest) (event : ReceiptEvent) (raw : String) (rows : List IngressRow)
      (row : IngressRow)
      → q.content_sha256 ≡ wire.sha256 raw
      → wire.parse_event raw ≡ some event
      → All (IsParsed wire) rows
      → find? (has_request event.organization_id q.request_id) rows ≡ some row
      → differs q row ≡ false
      → (row.receipt_id ≡ event.receipt_id)
        × (row.organization_id ≡ event.organization_id)
        × (row.request_id ≡ q.request_id)
  request-IsOf q event raw rows row content parsed each at same =
      let ((raw', event', content', parsed', receipt, organization), has) =
        find?-All (IsParsed wire) (has_request event.organization_id q.request_id) rows row each
          at in
      let equal : row.content_sha256 ≡ q.content_sha256 =
        (string_eq.same_iff row.content_sha256 q.content_sha256).0 (ground (arith, same)) in
      let raws : raw' ≡ raw = no_collision raw' raw (sym content' ∙ equal ∙ content) in
      let events : some event' ≡ some event = sym parsed' ∙ ap wire.parse_event raws ∙ parsed in
      let event_same : event' ≡ event = ground (arith, events) in
      (
        receipt ∙ ap (λ (e : ReceiptEvent). e.receipt_id) event_same,
        organization ∙ ap (λ (e : ReceiptEvent). e.organization_id) event_same,
        (string_eq.same_iff row.request_id q.request_id).0 (ground (arith, has)),
      )

  Owns-found :
      (p : IngressRow → Bool) (organization receipt : ℕ) (rows : List IngressRow) (row : IngressRow)
      → Unique rows
      → find? p rows ≡ some row
      → row.receipt_id ≡ receipt
      → row.organization_id ≡ organization
      → Owns organization receipt row.request_id rows
  Owns-found p organization receipt rows row unique at r o =
      let own : of_receipt receipt row ≡ true = (nat_beq_iff row.receipt_id receipt).1 r in
      (
        find?-exists p (has_receipt organization receipt) rows row at
            (rw ((nat_beq_iff row.organization_id organization).1 o) own),
        Unique-IsOf p receipt rows row unique at own,
      )

  insert-Owns :
      (q : ServiceRequest) (event : ReceiptEvent) (s : Gate) (r : IngressReservation)
      → find? (has_request event.organization_id q.request_id) s.requests ≡ none
      → find? (has_receipt event.organization_id event.receipt_id) s.requests ≡ none
      → (reserve_insert q event s).0 ≡ ok r
      → Owns event.organization_id event.receipt_id r.request_id
          (reserve_insert q event s).1.requests
  insert-Owns q event s r e f h = elim (Bool-cases (exists_in (conflicts q event) s.requests)) [
    | inl c ↦ let k = rw f at (rw e at (rw c at h)) in ground (arith, k)
    | inr c ↦
        let k = rw c at h in
        let at : r.request_id ≡ q.request_id = ground (arith, k) in
        rw c (
          rw ((nat_beq_iff event.organization_id event.organization_id).1 refl)
              (rw ((nat_beq_iff event.receipt_id event.receipt_id).1 refl) refl),
          (
            (λ own. sym at),
            none-All event.receipt_id r.request_id s.requests
                (conflicts-receipt q event s.requests c),
          ),
        )
  ]

  reserve-Owns :
      (q : ServiceRequest) (event : ReceiptEvent) (raw : String) (s : Gate) (r : IngressReservation)
      → q.content_sha256 ≡ wire.sha256 raw
      → wire.parse_event raw ≡ some event
      → IsSound wire s.requests
      → (reserve q event s).0 ≡ ok r
      → Owns event.organization_id event.receipt_id r.request_id (reserve q event s).1.requests
  unfolding reserve
  reserve-Owns q event raw s r content parsed (unique, each) h =
      let by_request = has_request event.organization_id q.request_id in
      let by_receipt = has_receipt event.organization_id event.receipt_id in
      elim (Option-cases (find? by_request s.requests)) [
        | inr (row, e) ↦ elim (Bool-cases (differs q row)) [
          | inl d ↦ let k = rw d at (rw e at h) in ground (arith, k)
          | inr d ↦
              let (receipt, organization, id) =
                request-IsOf q event raw s.requests row content parsed each e d in
              let k = rw d at (rw e at h) in
              let at : r.request_id ≡ q.request_id = ground (arith, k) in
              rw e (
                rw d (
                  subst (λ i. Owns event.organization_id event.receipt_id i s.requests)
                    (id ∙ sym at)
                    (Owns-found by_request event.organization_id event.receipt_id s.requests row
                      unique e receipt organization)))
        ]
        | inl e ↦ elim (Option-cases (find? by_receipt s.requests)) [
          | inr (row, f) ↦
              let k = rw f at (rw e at h) in
              let at : row.request_id ≡ r.request_id = ground (arith, k) in
              let (_, has) =
                find?-All (λ (x : IngressRow). Unit {0}) by_receipt s.requests row
                  (All-always (λ x. Unit {0}) s.requests (λ x. tt)) f in
              rw e (
                rw f (
                  subst (λ i. Owns event.organization_id event.receipt_id i s.requests) at
                    (Owns-found by_receipt event.organization_id event.receipt_id s.requests row
                      unique f
                      ((nat_beq_iff row.receipt_id event.receipt_id).0 (ground (arith, has)))
                      ((nat_beq_iff row.organization_id event.organization_id).0
                        (ground (arith, has))))))
          | inl f ↦ rw e (rw f (insert-Owns q event s r e f (rw f at (rw e at h))))
        ]
      ]

  -- The route enqueues the event only where it answers that it is accepted, and then its receipt is
  -- queued.
  enqueued-IsQueued :
      (event : ReceiptEvent) (enqueue : Result String) (reply : Result IngressReservation × Gate)
      (task : String)
      → ((r : IngressReservation)
          → reply.0 ≡ ok r
          → Owns event.organization_id event.receipt_id r.request_id reply.1.requests)
      → (after_reserve wire event enqueue reply).0 ≡ ok (accepted task)
      → IsQueued event.organization_id event.receipt_id
          (after_reserve wire event enqueue reply).1.requests
  unfolding after_reserve mark_queued release
  enqueued-IsQueued event enqueue (err e, s) task own h = ground (arith, h)
  enqueued-IsQueued event (err e) (ok r, s) task own h =
      elim (Bool-cases (r.duplicate && not (is_reserved r.status))) [
        | inl d ↦ let k = rw d at h in ground (arith, k)
        | inr d ↦ let k = rw d at h in ground (arith, k)
      ]
  enqueued-IsQueued event (ok t) (ok r, s) task own h =
      elim (Bool-cases (r.duplicate && not (is_reserved r.status))) [
        | inl d ↦ let k = rw d at h in ground (arith, k)
        | inr d ↦ rw d (
            mark-IsQueued event.organization_id event.receipt_id r.request_id t s.requests
              (own r refl))
      ]

  pub accepted-IsQueued :
      (request key raw : String) (enqueue : Result String) (s : Gate) (event : ReceiptEvent)
      (task : String)
      → IsSound wire s.requests
      → wire.parse_event raw ≡ some event
      → (receipt_event wire request key raw enqueue s).0 ≡ ok (accepted task)
      → IsQueued event.organization_id event.receipt_id
          (receipt_event wire request key raw enqueue s).1.requests
  unfolding receipt_event receive_event
  accepted-IsQueued request key raw enqueue s event task sound parsed h =
      let q : ServiceRequest = record {
        request_id = request;
        key_id = key;
        content_sha256 = wire.sha256 raw;
      } in
      rw parsed (
        enqueued-IsQueued event enqueue (reserve q event s) task
          (λ r k. reserve-Owns q event raw s r refl parsed sound k) (rw parsed at h))
