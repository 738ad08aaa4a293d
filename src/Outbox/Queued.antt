-- ===== src/Outbox/Queued.antt =====
-- A dispatch (services/enrichment/app/outbox.py) leaves the claimed and ended messages of the local
-- queue as they are: it gives a row a newer payload, or appends a row with a new id.
use challanse_website.Pipeline.{
  QueueRow, EventType, ReceiptEvent, Store, Payload, event_payload, result_payload, credit_payload,
  enrichment_callback, receipt_enrichment_queue, credit_delivery,
}
use challanse_website.LocalQueue.{enqueue_local, same_receipt, new_queue_row}
use challanse_website.LocalQueue.Ended.{Holds}
use challanse_website.Outbox.{
  OutboxEvent, Delivery, dispatch_event, dispatch_all, dispatch_outbox_once, claim_outbox_events,
  mark_outbox_delivered, mark_outbox_failed, mark_outbox_disabled, deliver, marked, is_credit,
  enqueue, QueueProvider, memory, sqs, postgres, disabled_queue,
}
use challanse_website.Prelude.{
  ℕ, suc, ◌≡◌, ◌≢◌, refl, ◌∙◌, inl, inr, List, [], ◌∷◌, ◌++◌, arith, ◌&&◌, ◌+◌, ◌==◌, ◌<◌,
  Bool-cases, update, All-update, All-append_one, exists_in, exists_in-update, exists_in-append,
  Result, ok, err, rollback, nat_eq,
}

-- A dispatch may give a row of the local queue a newer payload: what a message's row holds does not
-- depend on it.
abbrev pub IgnoresPayload : (QueueRow → Type 0) → Type 0
IgnoresPayload P =
    (row : QueueRow) (event : ReceiptEvent) → P row → P (record row { payload = event })

is_new : (i n : ℕ) → i < n → n ≢ i
is_new i n lt same = omega (arith, lt, same)

module _ (P : QueueRow → Type 0) (stays : IgnoresPayload P) (i : ℕ) where
  replaced-Holds :
      (event : ReceiptEvent) (s : Store)
      → Holds P i s
      → Holds P i (record s {
        queue = update (same_receipt event) (λ row. record row { payload = event }) s.queue;
        next_id = s.next_id + 1;
      })
  replaced-Holds event s h = record {
    rows =
        All-update (λ row. row.id ≡ i → P row) (same_receipt event)
          (λ row. record row { payload = event }) s.queue
          (λ row e held same. stays row event (held same)) h.rows;
    present =
        exists_in-update (λ row. row.id == i) (same_receipt event) _ s.queue (λ row. refl)
        ∙ h.present;
    drawn = omega (arith, h.drawn);
  }

  appended-Holds :
      (event : ReceiptEvent) (now : ℕ) (s : Store)
      → Holds P i s
      → Holds P i (record s {
        queue = s.queue ++ new_queue_row s.next_id event now ∷ [];
        next_id = s.next_id + 1;
      })
  appended-Holds event now s h = record {
    rows =
        All-append_one (λ row. row.id ≡ i → P row) s.queue (new_queue_row s.next_id event now)
          h.rows (λ same. absurd (is_new i s.next_id h.drawn same));
    present = ground (
      arith,
      h.present,
      exists_in-append (λ row. row.id == i) s.queue (new_queue_row s.next_id event now),
    );
    drawn = omega (arith, h.drawn);
  }

  enqueue_local-Holds :
      (event : ReceiptEvent) (now : ℕ) (s : Store)
      → Holds P i s
      → Holds P i (enqueue_local event now s)
  unfolding enqueue_local
  enqueue_local-Holds event now s h = elim (Bool-cases (exists_in (same_receipt event) s.queue)) [
    | inl e ↦ rw e (replaced-Holds event s h)
    | inr e ↦ rw e (appended-Holds event now s h)
  ]

  enqueue-Holds :
      (d : Delivery) (p : QueueProvider) (event : ReceiptEvent) (now : ℕ) (s : Store)
      → Holds P i s
      → Holds P i (enqueue d p event now s).1
  unfolding enqueue
  enqueue-Holds d memory event now s h = h
  enqueue-Holds d sqs event now s h = h
  enqueue-Holds d postgres event now s h = enqueue_local-Holds event now s h
  enqueue-Holds d disabled_queue event now s h = h

  deliver_payload-Holds :
      (d : Delivery) (event : OutboxEvent) (kind : EventType) (payload : Payload) (now : ℕ)
      (s : Store)
      → event.payload ≡ payload
      → Holds P i s
      → Holds P i (deliver d event kind now s).1
  unfolding deliver
  deliver_payload-Holds d event enrichment_callback payload now s e h = ground (arith, h)
  deliver_payload-Holds d event receipt_enrichment_queue (event_payload x) now s e h =
      rw e (enqueue-Holds d d.event_queue_provider x now s h)
  deliver_payload-Holds d event receipt_enrichment_queue (result_payload x) now s e h = rw e h
  deliver_payload-Holds d event receipt_enrichment_queue (credit_payload x) now s e h = rw e h
  deliver_payload-Holds d event credit_delivery payload now s e h = ground (arith, h)

  rollback-Holds :
      (s : Store) (o : Result (Unit {0}) × Store)
      → Holds P i s
      → Holds P i o.1
      → Holds P i (rollback s o).1
  rollback-Holds s (ok u, s') h k = k
  rollback-Holds s (err e, s') h k = h

  marked-Holds :
      (event : OutboxEvent) (now : ℕ) (o : Result (Unit {0}) × Store)
      → Holds P i o.1
      → Holds P i (marked event now o).1
  unfolding mark_outbox_delivered mark_outbox_failed
  marked-Holds event now (ok u, s) h = record {
    rows = h.rows;
    present = h.present;
    drawn = h.drawn;
  }
  marked-Holds event now (err e, s) h = record {
    rows = h.rows;
    present = h.present;
    drawn = h.drawn;
  }

  dispatch_event-Holds :
      (d : Delivery) (event : OutboxEvent) (now : ℕ) (s : Store)
      → Holds P i s
      → Holds P i (dispatch_event d event now s).1
  unfolding dispatch_event mark_outbox_disabled
  dispatch_event-Holds d event now s h =
      elim (Bool-cases (is_credit event.event_type && d.credit_disabled)) [
        | inl off ↦ rw off (record { rows = h.rows; present = h.present; drawn = h.drawn })
        | inr on ↦ rw on (
            marked-Holds event now _ (
              rollback-Holds s _ h
                (deliver_payload-Holds d event event.event_type event.payload now s refl h)))
      ]

  dispatch_all-Holds :
      (d : Delivery) (events : List OutboxEvent) (clock : ℕ → ℕ) (s : Store)
      → Holds P i s
      → Holds P i (dispatch_all d events clock s).1
  unfolding dispatch_all
  dispatch_all-Holds d [] clock s h = h
  dispatch_all-Holds d (e ∷ es) clock s h =
      dispatch_all-Holds d es (λ j. clock (suc j)) (dispatch_event d e (clock 0) s).1
        (dispatch_event-Holds d e (clock 0) s h)

  -- A dispatch keeps what the row of a message holds.
  pub dispatch-Holds :
      (d : Delivery) (limit now : ℕ) (clock : ℕ → ℕ) (s : Store)
      → Holds P i s
      → Holds P i (dispatch_outbox_once d limit now clock s).1
  unfolding dispatch_outbox_once claim_outbox_events
  dispatch-Holds d limit now clock s h =
      let (events, s₁) = claim_outbox_events limit now s in
      dispatch_all-Holds d events clock s₁
        (record { rows = h.rows; present = h.present; drawn = h.drawn })
