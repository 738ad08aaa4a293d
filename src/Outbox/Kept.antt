-- ===== src/Outbox/Kept.antt =====
-- What a dispatch (services/enrichment/app/outbox.py) leaves alone: the results of the receipts, and
-- which events the outbox holds.
use challanse_website.Pipeline.{EnrichmentRow, EventType, Store}
use challanse_website.Storage.{same_event}
use challanse_website.Storage.Saved.{HasCallback, IsAnnounced, is_queued}
use challanse_website.LocalQueue.{enqueue_local}
use challanse_website.Outbox.{
  OutboxEvent, Delivery, dispatch_event, dispatch_all, dispatch_outbox_once, claim_outbox_events,
  mark_outbox_delivered, mark_outbox_failed, mark_outbox_disabled, deliver, marked, is_credit,
}
use challanse_website.Prelude.{
  ℕ, suc, String, ◌≡◌, refl, ◌∙◌, inl, inr, Bool, Option, none, some, List, [], ◌∷◌, arith, ◌&&◌,
  Bool-cases, is_some, find?, update, Result, ok, err, transaction,
}

find?-update {ℓ} :
    {A : Type ℓ} (p q : A → Bool) (f : A → A) (xs : List A)
    → ((x : A) → p (f x) ≡ p x)
    → is_some (find? p (update q f xs)) ≡ is_some (find? p xs)
find?-update p q f [] h = refl
find?-update p q f (x ∷ xs) h = ground (arith, h x, find?-update p q f xs h)

-- The tables that a dispatch leaves alone: the results, and which events the outbox holds.
pub record IsKept (s s' : Store) : Type 0 where
  pub enrichments : (r : ℕ) → s'.enrichments r ≡ s.enrichments r
  pub queued : (r : ℕ) (k : EventType) (v : ℕ) → is_queued r k v s' ≡ is_queued r k v s

IsKept-refl : (s : Store) → IsKept s s
IsKept-refl s = record { enrichments = λ r. refl; queued = λ r k v. refl }

pub IsKept-trans : (a b c : Store) → IsKept a b → IsKept b c → IsKept a c
IsKept-trans a b c h k = record {
  enrichments = λ r. k.enrichments r ∙ h.enrichments r;
  queued = λ r j v. k.queued r j v ∙ h.queued r j v;
}

delivered-IsKept :
    (event : OutboxEvent) (now : ℕ) (s : Store) → IsKept s (mark_outbox_delivered event now s)
unfolding mark_outbox_delivered
delivered-IsKept event now s = record {
  enrichments = λ r. refl;
  queued = λ r k v. find?-update (same_event r k v) _ _ s.outbox (λ row. refl);
}

failed-IsKept :
    (event : OutboxEvent) (code : String) (now : ℕ) (s : Store)
    → IsKept s (mark_outbox_failed event code now s)
unfolding mark_outbox_failed
failed-IsKept event code now s = record {
  enrichments = λ r. refl;
  queued = λ r k v. find?-update (same_event r k v) _ _ s.outbox (λ row. refl);
}

disabled-IsKept :
    (event : OutboxEvent) (now : ℕ) (s : Store) → IsKept s (mark_outbox_disabled event now s)
unfolding mark_outbox_disabled
disabled-IsKept event now s = record {
  enrichments = λ r. refl;
  queued = λ r k v. find?-update (same_event r k v) _ _ s.outbox (λ row. refl);
}

claim-IsKept : (limit now : ℕ) (s : Store) → IsKept s (claim_outbox_events limit now s).1
unfolding claim_outbox_events
claim-IsKept limit now s = record {
  enrichments = λ r. refl;
  queued = λ r k v. find?-update (same_event r k v) _ _ s.outbox (λ row. refl);
}

deliver-enrichments :
    (d : Delivery) (event : OutboxEvent) (now : ℕ) (s : Store) (r : ℕ)
    → (transaction (deliver d event event.event_type now) s).1.enrichments r ≡ s.enrichments r
unfolding deliver enqueue_local
deliver-enrichments d event now s r = ground arith

deliver-outbox :
    (d : Delivery) (event : OutboxEvent) (now : ℕ) (s : Store)
    → (transaction (deliver d event event.event_type now) s).1.outbox ≡ s.outbox
unfolding deliver enqueue_local
deliver-outbox d event now s = ground arith

deliver-IsKept :
    (d : Delivery) (event : OutboxEvent) (now : ℕ) (s : Store)
    → IsKept s (transaction (deliver d event event.event_type now) s).1
deliver-IsKept d event now s = record {
  enrichments = deliver-enrichments d event now s;
  queued = λ r k v. rw (deliver-outbox d event now s) refl;
}

marked-IsKept :
    (event : OutboxEvent) (now : ℕ) (s : Store) (o : Result (Unit {0}) × Store)
    → IsKept s o.1
    → IsKept s (marked event now o).1
marked-IsKept event now s (ok u, s') h = IsKept-trans s s' _ h (delivered-IsKept event now s')
marked-IsKept event now s (err e, s') h = IsKept-trans s s' _ h (failed-IsKept event e now s')

module _ (d : Delivery) where
  dispatch_event-IsKept :
      (event : OutboxEvent) (now : ℕ) (s : Store) → IsKept s (dispatch_event d event now s).1
  unfolding dispatch_event
  dispatch_event-IsKept event now s =
      elim (Bool-cases (is_credit event.event_type && d.credit_disabled)) [
        | inl off ↦ rw off (disabled-IsKept event now s)
        | inr on ↦ rw on (marked-IsKept event now s _ (deliver-IsKept d event now s))
      ]

  dispatch_all-IsKept :
      (events : List OutboxEvent) (clock : ℕ → ℕ) (s : Store)
      → IsKept s (dispatch_all d events clock s).1
  unfolding dispatch_all
  dispatch_all-IsKept [] clock s = IsKept-refl s
  dispatch_all-IsKept (e ∷ es) clock s =
      let s₁ = (dispatch_event d e (clock 0) s).1 in
      IsKept-trans s s₁ _ (dispatch_event-IsKept e (clock 0) s)
        (dispatch_all-IsKept es (λ i. clock (suc i)) s₁)

  pub dispatch-IsKept :
      (limit now : ℕ) (clock : ℕ → ℕ) (s : Store)
      → IsKept s (dispatch_outbox_once d limit now clock s).1
  unfolding dispatch_outbox_once
  dispatch-IsKept limit now clock s =
      let (events, s₁) = claim_outbox_events limit now s in
      IsKept-trans s s₁ _ (claim-IsKept limit now s) (dispatch_all-IsKept events clock s₁)

IsAnnounced-kept :
    (r : ℕ) (s s' : Store) (row : Option EnrichmentRow)
    → IsKept s s'
    → IsAnnounced r s row
    → IsAnnounced r s' row
IsAnnounced-kept r s s' none kept h = tt
IsAnnounced-kept r s s' (some row) kept h = λ final. rw kept.queued (h final)

-- A receipt whose result has its callback in the outbox still has it after a dispatch.
pub HasCallback-kept : (r : ℕ) (s s' : Store) → IsKept s s' → HasCallback r s → HasCallback r s'
HasCallback-kept r s s' kept h =
    rw kept.enrichments (IsAnnounced-kept r s s' (s.enrichments r) kept h)
