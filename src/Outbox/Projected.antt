-- ===== src/Outbox/Projected.antt =====
-- What the projection of a result does to a receipt (services/enrichment/app/outbox.py).
use challanse_website.Pipeline.{
  EnrichmentResult, Projection, ReceiptStatus, received, needs_review, verified, rejected, Store,
}
use challanse_website.Outbox.{
  OutboxEvent, project_row, Delivery, dispatch_event, dispatch_all, dispatch_outbox_once,
  mark_outbox_delivered, mark_outbox_failed, mark_outbox_disabled, deliver, marked, is_credit,
  claim_outbox_events,
}
use challanse_website.Prelude.{
  ℕ, suc, ◌≡◌, refl, ◌⊎◌, inl, inr, Bool, true, false, Option, none, some, List, [], ◌∷◌, arith,
  ◌&&◌, Bool-cases, Result, ok, err, transaction,
}
use challanse_website.LocalQueue.{enqueue_local}

-- The decision of a reviewer.
abbrev pub is_decided : ReceiptStatus → Bool
is_decided verified = true
is_decided rejected = true
is_decided _ = false

abbrev pub KeepsDecision : Option Projection → Option Projection → Type 0
KeepsDecision none new = new ≡ none
KeepsDecision (some row) none = ⊥
KeepsDecision (some row) (some row') =
    (row'.organization_id ≡ row.organization_id)
    × ((row'.status ≡ row.status) ⊎ ((row.status ≡ received) × (row'.status ≡ needs_review)))

KeepsDecision-refl : (e : Option Projection) → KeepsDecision e e
KeepsDecision-refl none = refl
KeepsDecision-refl (some row) = (refl, inl refl)

KeepsDecision-trans :
    (a b c : Option Projection) → KeepsDecision a b → KeepsDecision b c → KeepsDecision a c
KeepsDecision-trans none b c h k = ground arith
KeepsDecision-trans (some x) (some y) (some z) h k = ground arith
KeepsDecision-trans (some x) (some y) none h k = k
KeepsDecision-trans (some x) none c h k = absurd h

project_row-KeepsDecision :
    (result : EnrichmentResult) (row : Projection)
    → KeepsDecision (some row) (some (project_row result row))
unfolding project_row
project_row-KeepsDecision result row = ground arith

deliver-KeepsDecision :
    (d : Delivery) (event : OutboxEvent) (now : ℕ) (s : Store) (r : ℕ)
    → KeepsDecision
        (s.receipts r)
        ((transaction (deliver d event event.event_type now) s).1.receipts r)
unfolding deliver enqueue_local
deliver-KeepsDecision d event now s r = ground (arith, KeepsDecision-refl (s.receipts r))

mark-receipts :
    (event : OutboxEvent) (now : ℕ) (o : Result (Unit {0}) × Store)
    → (marked event now o).1.receipts ≡ o.1.receipts
unfolding mark_outbox_delivered mark_outbox_failed
mark-receipts event now (ok u, s) = refl
mark-receipts event now (err e, s) = refl

module _ (d : Delivery) where
  dispatch_event-KeepsDecision :
      (event : OutboxEvent) (now : ℕ) (s : Store) (r : ℕ)
      → KeepsDecision (s.receipts r) ((dispatch_event d event now s).1.receipts r)
  unfolding dispatch_event mark_outbox_disabled
  dispatch_event-KeepsDecision event now s r =
      elim (Bool-cases (is_credit event.event_type && d.credit_disabled)) [
        | inl off ↦ rw off (KeepsDecision-refl (s.receipts r))
        | inr on ↦ rw (on, mark-receipts) (deliver-KeepsDecision d event now s r)
      ]

  dispatch_all-KeepsDecision :
      (events : List OutboxEvent) (clock : ℕ → ℕ) (s : Store) (r : ℕ)
      → KeepsDecision (s.receipts r) ((dispatch_all d events clock s).1.receipts r)
  unfolding dispatch_all
  dispatch_all-KeepsDecision [] clock s r = KeepsDecision-refl (s.receipts r)
  dispatch_all-KeepsDecision (e ∷ es) clock s r =
      let s₁ = (dispatch_event d e (clock 0) s).1 in
      KeepsDecision-trans (s.receipts r) (s₁.receipts r) _
        (dispatch_event-KeepsDecision e (clock 0) s r)
        (dispatch_all-KeepsDecision es (λ i. clock (suc i)) s₁ r)

  -- A dispatch never adds or removes a receipt, never moves it to another organization, and changes
  -- its review status only from RECEIVED to NEEDS_REVIEW: a receipt that a reviewer has verified or
  -- rejected stays so.
  pub dispatch-KeepsDecision :
      (limit now : ℕ) (clock : ℕ → ℕ) (s : Store) (r : ℕ)
      → KeepsDecision (s.receipts r) ((dispatch_outbox_once d limit now clock s).1.receipts r)
  unfolding dispatch_outbox_once claim_outbox_events
  dispatch-KeepsDecision limit now clock s r =
      let (events, s₁) = claim_outbox_events limit now s in
      dispatch_all-KeepsDecision events clock s₁ r
