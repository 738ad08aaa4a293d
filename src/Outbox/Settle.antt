-- ===== src/Outbox/Settle.antt =====
-- After a dispatch no claimed event is left locked (services/enrichment/app/outbox.py).
use challanse_website.LocalQueue.{is_locked_status, enqueue_local}
use challanse_website.Pipeline.{OutboxRow, OutboxStatus, Store}
use challanse_website.Outbox.Lease.{claims_row, claimed_rows}
use challanse_website.Outbox.{
  OutboxEvent, is_held, has_id, candidates, locked_row, mark_outbox_delivered, mark_outbox_failed,
  mark_outbox_disabled, deliver, marked, Delivery, dispatch_event, dispatch_all,
  dispatch_outbox_once, is_credit, claim_outbox_events, EventType,
}
use challanse_website.Prelude.{
  ℕ, suc, String, ◌≡◌, refl, sym, ap, ◌∙◌, subst, inl, inr, Bool, true, false, List, [], ◌∷◌, arith,
  ◌≤◌, ◌&&◌, ◌||◌, not, ◌==◌, is_some, map, update, Bool-cases, length, All, All-both, All-mono,
  All-always, Result, ok, err, transaction, nat_eq,
}

-- The row is unlocked, and its event was delivered at a time, disabled, or failed with an error code.
abbrev pub is_ended : OutboxRow → Bool
is_ended row = not (is_some row.locked_until) && elim row.status [
  | OutboxStatus.delivered ↦ is_some row.delivered_at
  | OutboxStatus.disabled ↦ true
  | OutboxStatus.failed_retryable ↦ is_some row.last_error_code
  | OutboxStatus.failed_terminal ↦ is_some row.last_error_code
  | OutboxStatus.pending ↦ false
  | OutboxStatus.processing ↦ false
]

-- The row, if it is of the event, is ended.
abbrev IsSettled : OutboxEvent → OutboxRow → Type 0
IsSettled event row = row.id == event.id ≡ true → is_ended row ≡ true

-- The row, if it is of the events, is held or ended.
abbrev IsTracked : List OutboxEvent → OutboxRow → Type 0
IsTracked events row =
    claims_row events row ≡ true → is_locked_status row.status || is_ended row ≡ true

-- What marking an event makes of a row
abbrev Settles : OutboxEvent → OutboxRow → OutboxRow → Type 0
Settles event row row' =
    (row'.id ≡ row.id)
    × (is_ended row ≡ true → is_ended row' ≡ true)
    × (row.id == event.id ≡ true
        → is_locked_status row.status || is_ended row ≡ true
        → is_ended row' ≡ true)
    × (row.id == event.id ≡ false → row' ≡ row)

-- The rows of a table after a step, one by one
abbrev Pairs : (OutboxRow → OutboxRow → Type 0) → List OutboxRow → List OutboxRow → Type 0
Pairs R [] [] = Unit
Pairs R [] (y ∷ ys) = ⊥
Pairs R (x ∷ xs) [] = ⊥
Pairs R (x ∷ xs) (y ∷ ys) = R x y × Pairs R xs ys

Pairs-update :
    (R : OutboxRow → OutboxRow → Type 0) (p : OutboxRow → Bool) (f : OutboxRow → OutboxRow)
    (rows : List OutboxRow)
    → ((row : OutboxRow) → p row ≡ true → R row (f row))
    → ((row : OutboxRow) → p row ≡ false → R row row)
    → Pairs R rows (update p f rows)
Pairs-update R p f [] yes_case no_case = tt
Pairs-update R p f (x ∷ xs) yes_case no_case = elim (Bool-cases (p x)) [
  | inl e ↦ rw e (yes_case x e, Pairs-update R p f xs yes_case no_case)
  | inr e ↦ rw e (no_case x e, Pairs-update R p f xs yes_case no_case)
]

Pairs-All :
    (R : OutboxRow → OutboxRow → Type 0) (P Q : OutboxRow → Type 0) (xs ys : List OutboxRow)
    → ((x y : OutboxRow) → R x y → P x → Q y)
    → Pairs R xs ys
    → All P xs
    → All Q ys
Pairs-All R P Q [] [] step pairs h = tt
Pairs-All R P Q [] (y ∷ ys) step pairs h = absurd pairs
Pairs-All R P Q (x ∷ xs) [] step pairs h = absurd pairs
Pairs-All R P Q (x ∷ xs) (y ∷ ys) step pairs h =
    (step x y pairs.0 h.0, Pairs-All R P Q xs ys step pairs.1 h.1)

-- The ids of the rows in the order of the table
abbrev pub ids : List OutboxRow → List ℕ
ids = map (λ row. row.id)

Pairs-ids :
    (event : OutboxEvent) (xs ys : List OutboxRow) → Pairs (Settles event) xs ys → ids ys ≡ ids xs
Pairs-ids event [] [] pairs = refl
Pairs-ids event [] (y ∷ ys) pairs = absurd pairs
Pairs-ids event (x ∷ xs) [] pairs = absurd pairs
Pairs-ids event (x ∷ xs) (y ∷ ys) pairs =
    let (same, keeps, own, other) = pairs.0 in ground (arith, same, Pairs-ids event xs ys pairs.1)

delivered-Settles :
    (event : OutboxEvent) (now : ℕ) (s : Store)
    → Pairs (Settles event) s.outbox (mark_outbox_delivered event now s).outbox
unfolding mark_outbox_delivered
delivered-Settles event now s =
    Pairs-update (Settles event) (is_held event) _ s.outbox
      (λ row e. (refl, (λ h. refl), (λ h k. refl), λ h. ground (arith, e, h)))
      (λ row e. (refl, (λ h. h), (λ h k. ground (arith, e, h, k)), λ h. refl))

failed-Settles :
    (event : OutboxEvent) (code : String) (now : ℕ) (s : Store)
    → Pairs (Settles event) s.outbox (mark_outbox_failed event code now s).outbox
unfolding mark_outbox_failed
failed-Settles event code now s =
    Pairs-update (Settles event) (is_held event) _ s.outbox
      (λ row e. (refl, (λ h. ground arith), (λ h k. ground arith), λ h. ground (arith, e, h)))
      (λ row e. (refl, (λ h. h), (λ h k. ground (arith, e, h, k)), λ h. refl))

disabled-Settles :
    (event : OutboxEvent) (now : ℕ) (s : Store)
    → Pairs (Settles event) s.outbox (mark_outbox_disabled event now s).outbox
unfolding mark_outbox_disabled
disabled-Settles event now s =
    Pairs-update (Settles event) (λ row. row.id == event.id) _ s.outbox
      (λ row e. (refl, (λ h. refl), (λ h k. refl), λ h. ground (arith, e, h)))
      (λ row e. (refl, (λ h. h), (λ h k. ground (arith, e, h)), λ h. refl))

-- Delivering writes to other tables than the outbox.
deliver-outbox :
    (d : Delivery) (event : OutboxEvent) (kind : EventType) (now : ℕ) (s : Store)
    → (transaction (deliver d event kind now) s).1.outbox ≡ s.outbox
unfolding deliver enqueue_local
deliver-outbox d event EventType.enrichment_callback now s = ground arith
deliver-outbox d event EventType.receipt_enrichment_queue now s = ground arith
deliver-outbox d event EventType.credit_delivery now s = ground arith

marked-Settles :
    (event : OutboxEvent) (now : ℕ) (o : Result (Unit {0}) × Store)
    → Pairs (Settles event) o.1.outbox (marked event now o).1.outbox
marked-Settles event now (ok u, s) = delivered-Settles event now s
marked-Settles event now (err e, s) = failed-Settles event e now s

ids-update :
    (p : OutboxRow → Bool) (f : OutboxRow → OutboxRow) (rows : List OutboxRow)
    → ((row : OutboxRow) → (f row).id ≡ row.id)
    → ids (update p f rows) ≡ ids rows
ids-update p f [] same = refl
ids-update p f (x ∷ xs) same = ground (arith, same x, ids-update p f xs same)

claim-ids :
    (limit now : ℕ) (s : Store) → ids (claim_outbox_events limit now s).1.outbox ≡ ids s.outbox
unfolding claim_outbox_events
claim-ids limit now s =
    ids-update (has_id (candidates limit now s.outbox)) (locked_row now) s.outbox (λ row. refl)

IsTracked-after :
    (e : OutboxEvent) (es : List OutboxEvent) (x y : OutboxRow)
    → Settles e x y
    → IsTracked (e ∷ es) x
    → IsTracked es y
IsTracked-after e es x y (same, keeps, mine, other) tracked own = elim (Bool-cases (x.id == e.id)) [
  | inl k ↦ let ended = mine k (tracked (ground (arith, k))) in ground (arith, ended)
  | inr k ↦
      let moved = other k in
      let own' : claims_row es x ≡ true = subst (λ row. claims_row es row ≡ true) moved own in
      let held = tracked (ground (arith, own')) in
      subst (λ row. is_locked_status row.status || is_ended row ≡ true) (sym moved) held
]

module _ (d : Delivery) where
  dispatch_event-Settles :
      (event : OutboxEvent) (now : ℕ) (s : Store)
      → Pairs (Settles event) s.outbox (dispatch_event d event now s).1.outbox
  unfolding dispatch_event
  dispatch_event-Settles event now s =
      elim (Bool-cases (is_credit event.event_type && d.credit_disabled)) [
        | inl off ↦ rw off (disabled-Settles event now s)
        | inr on ↦ rw on (
            subst
              (λ rows.
                Pairs (Settles event) rows
                  (marked event now
                    (transaction (deliver d event event.event_type now) s)).1.outbox)
              (deliver-outbox d event event.event_type now s)
              (marked-Settles event now (transaction (deliver d event event.event_type now) s)))
      ]

  dispatch_all-ids :
      (events : List OutboxEvent) (clock : ℕ → ℕ) (s : Store)
      → ids (dispatch_all d events clock s).1.outbox ≡ ids s.outbox
  unfolding dispatch_all
  dispatch_all-ids [] clock s = refl
  dispatch_all-ids (e ∷ es) clock s =
      let s₁ = (dispatch_event d e (clock 0) s).1 in
      dispatch_all-ids es (λ i. clock (suc i)) s₁
      ∙ Pairs-ids e s.outbox s₁.outbox (dispatch_event-Settles e (clock 0) s)

  dispatch_all-keeps :
      (events : List OutboxEvent) (event : OutboxEvent) (clock : ℕ → ℕ) (s : Store)
      → All (IsSettled event) s.outbox
      → All (IsSettled event) (dispatch_all d events clock s).1.outbox
  unfolding dispatch_all
  dispatch_all-keeps [] event clock s h = h
  dispatch_all-keeps (e ∷ es) event clock s h =
      let s₁ = (dispatch_event d e (clock 0) s).1 in
      dispatch_all-keeps es event (λ i. clock (suc i)) s₁
        (Pairs-All (Settles e) (IsSettled event) (IsSettled event) s.outbox s₁.outbox
          (λ x y (same, keeps, mine, other) settled own.
            keeps (settled (ap (λ i. i == event.id) (sym same) ∙ own)))
          (dispatch_event-Settles e (clock 0) s) h)

  -- The row, if it is of one of the events, is ended.
  abbrev pub IsReleased : List OutboxEvent → OutboxRow → Type 0
  IsReleased events row = claims_row events row ≡ true → is_ended row ≡ true

  dispatch_all-releases :
      (events : List OutboxEvent) (clock : ℕ → ℕ) (s : Store)
      → All (IsTracked events) s.outbox
      → All (IsReleased events) (dispatch_all d events clock s).1.outbox
  unfolding dispatch_all
  dispatch_all-releases [] clock s h = All-always (IsReleased []) s.outbox (λ row e. cc)
  dispatch_all-releases (e ∷ es) clock s h =
      let s₁ = (dispatch_event d e (clock 0) s).1 in
      let settles = dispatch_event-Settles e (clock 0) s in
      All-both (IsSettled e) (IsReleased es) (IsReleased (e ∷ es))
        (dispatch_all d es (λ i. clock (suc i)) s₁).1.outbox
        (λ row settled released found. ground arith)
        (dispatch_all-keeps es e (λ i. clock (suc i)) s₁
          (Pairs-All (Settles e) (IsTracked (e ∷ es)) (IsSettled e) s.outbox s₁.outbox
            (λ x y (same, keeps, mine, other) tracked own.
              let first : x.id == e.id ≡ true = ap (λ i. i == e.id) (sym same) ∙ own in
              mine first (tracked (ground (arith, first))))
            settles h))
        (dispatch_all-releases es (λ i. clock (suc i)) s₁
          (Pairs-All (Settles e) (IsTracked (e ∷ es)) (IsTracked es) s.outbox s₁.outbox
            (λ x y pair tracked own. IsTracked-after e es x y pair tracked own) settles h))

  -- Whatever the queues answer, when a dispatch ends the outbox holds the same rows in the same order,
  -- and every row of an event that it claimed is unlocked and DELIVERED with its time, DISABLED, or
  -- FAILED_RETRYABLE or FAILED_TERMINAL with an error code.
  pub dispatch_releases :
      (limit now : ℕ) (clock : ℕ → ℕ) (s : Store)
      → let after = (dispatch_outbox_once d limit now clock s).1 in
        (ids after.outbox ≡ ids s.outbox)
        × All (IsReleased (claim_outbox_events limit now s).0) after.outbox
  unfolding dispatch_outbox_once
  dispatch_releases limit now clock s =
      let (events, s₁) = claim_outbox_events limit now s in
      (
        dispatch_all-ids events clock s₁ ∙ claim-ids limit now s,
        dispatch_all-releases events clock s₁ (
            All-mono (λ row. claims_row events row ≡ true → row.status ≡ OutboxStatus.processing)
              (IsTracked events) s₁.outbox (λ row held own. let k = held own in rw k refl)
              (claimed_rows limit now s)),
      )

  dispatch_event-le-one :
      (event : OutboxEvent) (now : ℕ) (s : Store) → (dispatch_event d event now s).0 ≤ 1
  unfolding dispatch_event
  dispatch_event-le-one event now s = ground arith

  dispatch_all-le :
      (events : List OutboxEvent) (clock : ℕ → ℕ) (s : Store)
      → (dispatch_all d events clock s).0 ≤ length events
  unfolding dispatch_all
  dispatch_all-le [] clock s = omega arith
  dispatch_all-le (e ∷ es) clock s = omega (
    arith,
    dispatch_event-le-one e (clock 0) s,
    dispatch_all-le es (λ i. clock (suc i)) (dispatch_event d e (clock 0) s).1,
  )
