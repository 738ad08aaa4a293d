-- ===== src/Ingress/Once.antt =====
-- A receipt is enqueued once: the route `receipt_event` of services/enrichment/app/main.py on the store
-- of services/enrichment/app/ingress.py.
use challanse_website.Pipeline.{ReceiptEvent}
use challanse_website.Ingress.{
  queued, IngressReservation, ServiceRequest, Gate, has_request, has_receipt, differs, reserve,
  Wire, Answer, accepted, duplicate_of, after_reserve, receive_event, receipt_event,
}
use challanse_website.Ingress.Rows.{IsQueuedRow, IsQueued, IsSound}
use challanse_website.Prelude.{
  ℕ, String, ◌≡◌, refl, inl, inr, true, some, List, [], ◌∷◌, arith, Bool-cases, Option-cases,
  nat_beq_iff, nat_eq, string_eq, find?, find?-All, Result, ok, err,
}
use challanse_website.Ingress.Owned.{none-exists}
use challanse_website.Ingress.Kept.{IsSound-keeps, IsQueued-keeps, request-IsOf, accepted-IsQueued}

module _ (wire : Wire) (no_collision : (x y : String) → wire.sha256 x ≡ wire.sha256 y → x ≡ y) where
  -- A reservation that stands for a queued receipt
  abbrev IsSettled : IngressReservation → Type 0
  IsSettled r = (r.duplicate ≡ true) × (r.status ≡ queued)

  reserve-IsSettled :
      (q : ServiceRequest) (event : ReceiptEvent) (raw : String) (s : Gate)
      → q.content_sha256 ≡ wire.sha256 raw
      → wire.parse_event raw ≡ some event
      → IsSound wire s.requests
      → IsQueued event.organization_id event.receipt_id s.requests
      → ((r : IngressReservation) → (reserve q event s).0 ≡ ok r → IsSettled r)
        × ((reserve q event s).1 ≡ s)
  unfolding reserve
  reserve-IsSettled q event raw s content parsed (unique, each) (there, all_queued) =
      let by_request = has_request event.organization_id q.request_id in
      let by_receipt = has_receipt event.organization_id event.receipt_id in
      elim (Option-cases (find? by_request s.requests)) [
        | inr (row, e) ↦ elim (Bool-cases (differs q row)) [
          | inl d ↦ rw e (rw d ((λ r k. ground (arith, k)), refl))
          | inr d ↦
              let (receipt, organization, id) =
                request-IsOf wire no_collision q event raw s.requests row content parsed each e d in
              let (settled, has) =
                find?-All (IsQueuedRow event.receipt_id) by_request s.requests row all_queued e in
              let at = settled ((nat_beq_iff row.receipt_id event.receipt_id).1 receipt) in
              rw e (rw d ((λ r k. ground (arith, k, at)), refl))
        ]
        | inl e ↦ elim (Option-cases (find? by_receipt s.requests)) [
          | inr (row, f) ↦
              let (settled, has) =
                find?-All (IsQueuedRow event.receipt_id) by_receipt s.requests row all_queued f in
              let at = settled (ground (arith, has)) in
              rw e (rw f ((λ r k. ground (arith, k, at)), refl))
          | inl f ↦ let k = none-exists by_receipt s.requests f in absurd (ground (arith, k, there))
        ]
      ]

  -- The answer is not that the event is accepted.
  abbrev pub IsNotAccepted : Result Answer → Type 0
  IsNotAccepted (err e) = Unit
  IsNotAccepted (ok (accepted task)) = ⊥
  IsNotAccepted (ok (duplicate_of task)) = Unit

  settled-ignored :
      (event : ReceiptEvent) (enqueue : Result String) (reply : Result IngressReservation × Gate)
      (s : Gate)
      → ((r : IngressReservation) → reply.0 ≡ ok r → IsSettled r) × (reply.1 ≡ s)
      → IsNotAccepted (after_reserve wire event enqueue reply).0
        × ((after_reserve wire event enqueue reply).1 ≡ s)
  unfolding after_reserve
  settled-ignored event enqueue (err e, s') s (settled, same) = (tt, same)
  settled-ignored event enqueue (ok r, s') s (settled, same) =
      let (dup, queued_row) = settled r refl in rw (dup, queued_row) (tt, same)

  -- The requests that arrive, with what the queue answers
  unfoldable pub run : List (String × String × String × Result String) → Gate → Gate
  run [] s = s
  run ((request, key, raw, enqueue) ∷ calls) s =
      run calls (receipt_event wire request key raw enqueue s).1

  run-keeps :
      (organization receipt : ℕ) (calls : List (String × String × String × Result String))
      (s : Gate)
      → IsSound wire s.requests × IsQueued organization receipt s.requests
      → IsSound wire (run calls s).requests × IsQueued organization receipt (run calls s).requests
  unfolding run
  run-keeps organization receipt [] s h = h
  run-keeps organization receipt ((request, key, raw, enqueue) ∷ calls) s (sound, old) =
      run-keeps organization receipt calls (receipt_event wire request key raw enqueue s).1 (
        IsSound-keeps wire no_collision request key raw enqueue s sound,
        IsQueued-keeps wire no_collision organization receipt request key raw enqueue s old,
      )

  -- Once the event of a receipt was accepted and put in the queue, no request of the same organization
  -- with an event of the same receipt is put in the queue again, whatever its id, its key and its
  -- content are and whatever requests come in between: it is answered as a duplicate or refused, and
  -- changes nothing. At first each receipt has one row at most, whose hash is that of its event, and
  -- different contents have different hashes.
  pub enqueued_once :
      (request key raw request' key' raw' : String) (enqueue enqueue' : Result String) (s : Gate)
      (event event' : ReceiptEvent) (task : String)
      (between : List (String × String × String × Result String))
      → IsSound wire s.requests
      → wire.parse_event raw ≡ some event
      → wire.parse_event raw' ≡ some event'
      → event'.receipt_id ≡ event.receipt_id
      → event'.organization_id ≡ event.organization_id
      → (receipt_event wire request key raw enqueue s).0 ≡ ok (accepted task)
      → let after = run between (receipt_event wire request key raw enqueue s).1 in
        let reply = receipt_event wire request' key' raw' enqueue' after in
        IsNotAccepted reply.0 × (reply.1 ≡ after)
  unfolding receipt_event receive_event
  enqueued_once request key raw request' key' raw' enqueue enqueue' s event event' task between
        sound parsed parsed' receipt organization h =
      let first = (receipt_event wire request key raw enqueue s).1 in
      let q : ServiceRequest = record {
        request_id = request';
        key_id = key';
        content_sha256 = wire.sha256 raw';
      } in
      let (sound', old) = run-keeps event.organization_id event.receipt_id between first (
        IsSound-keeps wire no_collision request key raw enqueue s sound,
        accepted-IsQueued wire no_collision request key raw enqueue s event task sound parsed h,
      ) in
      let kept : IsQueued event'.organization_id event'.receipt_id (run between first).requests =
        rw (organization, receipt) old in
      rw parsed' (
        settled-ignored event' enqueue' (reserve q event' (run between first)) (run between first)
          (reserve-IsSettled q event' raw' (run between first) refl parsed' sound' kept))
