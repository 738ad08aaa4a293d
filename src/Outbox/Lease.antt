-- ===== src/Outbox/Lease.antt =====
-- Exclusion between dispatchers, and retries (services/enrichment/app/outbox.py).
use challanse_website.Stage.{minutes}
use challanse_website.Pipeline.{OutboxRow, OutboxStatus, Store}
use challanse_website.LocalQueue.{can_claim}
use challanse_website.Outbox.{
  OutboxEvent, has_id, locked_row, candidates, claim_outbox_events, is_candidate, event_of,
  retry_delay,
}
use challanse_website.Prelude.{
  All-mono, ℕ, zero, suc, ◌≡◌, refl, subst, ◌≢◌, inl, inr, Bool, true, false, some, List, [], ◌∷◌,
  arith, min, ◌+◌, ◌*◌, ◌^◌, ◌≤◌, ◌<◌, ◌&&◌, nat_beq_iff, ◌==◌, Bool-cases, select, update, All,
  sort_by, by_key, exists_in, All-select, All-sort_by, All-take, All-updated, All-both, All-map,
  All-select_both, All-always, nat_eq,
}

-- Some event of the list has the id of the row.
abbrev pub claims_row : List OutboxEvent → OutboxRow → Bool
claims_row events row = exists_in (λ e. e.id == row.id) events

-- A row of an event is locked until `d`.
abbrev IsLockedUntil : ℕ → List OutboxRow → OutboxRow → Type 0
IsLockedUntil d chosen row =
    has_id chosen row ≡ true → (row.status ≡ OutboxStatus.processing) × (row.locked_until ≡ some d)

claim-locks :
    (limit now : ℕ) (s : Store)
    → All
        (IsLockedUntil (now + minutes 2) (candidates limit now s.outbox))
        (claim_outbox_events limit now s).1.outbox
unfolding claim_outbox_events
claim-locks limit now s =
    All-updated (IsLockedUntil (now + minutes 2) (candidates limit now s.outbox))
      (has_id (candidates limit now s.outbox)) (locked_row now) s.outbox
      (λ row e. λ e'. (refl, refl)) (λ row e e'. cc)

-- A row that is locked until `d` is no candidate up to `d`.
IsLockedUntil-candidate :
    (d now : ℕ) (chosen : List OutboxRow) (row : OutboxRow)
    → now ≤ d
    → IsLockedUntil d chosen row
    → is_candidate now row ≡ true
    → has_id chosen row ≡ false
unfolding can_claim
IsLockedUntil-candidate d now chosen row le h can = ground arith

-- The id is that of one of the rows.
abbrev in_ids : List OutboxRow → ℕ → Bool
in_ids rows i = exists_in (λ c. c.id == i) rows

candidates-unlocked :
    (d limit now : ℕ) (chosen rows : List OutboxRow)
    → now ≤ d
    → All (IsLockedUntil d chosen) rows
    → All (λ c. in_ids chosen c.id ≡ false) (candidates limit now rows)
unfolding candidates
candidates-unlocked d limit now chosen rows le h =
    let P : OutboxRow → Type 0 = λ c. in_ids chosen c.id ≡ false in
    All-take P limit (sort_by (by_key (λ row. row.created_at)) (select (is_candidate now) rows)) (
      All-sort_by P (by_key (λ row. row.created_at)) (select (is_candidate now) rows) (
        All-both (IsLockedUntil d chosen) (λ row. is_candidate now row ≡ true) P
          (select (is_candidate now) rows)
          (λ row held can. IsLockedUntil-candidate d now chosen row le held can)
          (All-select_both (IsLockedUntil d chosen) (is_candidate now) rows h)
          (All-select (λ row. is_candidate now row ≡ true) (is_candidate now) rows (λ row e. e))))

in_ids-disjoint :
    (chosen others : List OutboxRow) (i : ℕ)
    → All (λ c. in_ids chosen c.id ≡ false) others
    → in_ids others i ≡ true
    → in_ids chosen i ≡ false
in_ids-disjoint chosen [] i h e = cc
in_ids-disjoint chosen (c ∷ others) i (out, rest) e = elim (Bool-cases (c.id == i)) [
  | inl same ↦ subst (λ j. in_ids chosen j ≡ false) ((nat_beq_iff c.id i).0 same) out
  | inr other ↦ in_ids-disjoint chosen others i rest (rw other at e)
]

claimed-in_ids :
    (limit now : ℕ) (s : Store)
    → All
        (λ e. in_ids (candidates limit now s.outbox) e.id ≡ true)
        (claim_outbox_events limit now s).0
unfolding claim_outbox_events
claimed-in_ids limit now s =
    let chosen = candidates limit now s.outbox in
    let outbox = update (has_id chosen) (locked_row now) s.outbox in
    All-map (λ (e : OutboxEvent). in_ids chosen e.id ≡ true) event_of
      (select (has_id chosen) outbox)
      (All-select (λ row. in_ids chosen row.id ≡ true) (has_id chosen) outbox (λ row e. e))

claims_row-in_ids :
    (chosen : List OutboxRow) (events : List OutboxEvent) (row : OutboxRow)
    → All (λ e. in_ids chosen e.id ≡ true) events
    → claims_row events row ≡ true
    → in_ids chosen row.id ≡ true
claims_row-in_ids chosen [] row h e = cc
claims_row-in_ids chosen (c ∷ events) row (in_chosen, rest) e = elim (Bool-cases (c.id == row.id)) [
  | inl same ↦ subst (λ j. in_ids chosen j ≡ true) ((nat_beq_iff c.id row.id).0 same) in_chosen
  | inr other ↦ claims_row-in_ids chosen events row rest (rw other at e)
]

-- The rows of the events that a claim has chosen are in process.
pub claimed_rows :
    (limit now : ℕ) (s : Store)
    → let (events, s') = claim_outbox_events limit now s in
      All (λ row. claims_row events row ≡ true → row.status ≡ OutboxStatus.processing) s'.outbox
claimed_rows limit now s =
    let chosen = candidates limit now s.outbox in
    let (events, s') = claim_outbox_events limit now s in
    All-mono (IsLockedUntil (now + minutes 2) chosen)
      (λ row. claims_row events row ≡ true → row.status ≡ OutboxStatus.processing) s'.outbox
      (λ row held own.
        (held (claims_row-in_ids chosen events row (claimed-in_ids limit now s) own)).0)
      (claim-locks limit now s)

-- After a dispatcher claims at `now`, no dispatcher that claims up to two minutes later, before any
-- of the events is marked, gets an event with the id of one of the first one's events.
pub claims_disjoint :
    (limit limit' now now' : ℕ) (s : Store)
    → now' ≤ now + minutes 2
    → let (first, s') = claim_outbox_events limit now s in
      let (second, s'') = claim_outbox_events limit' now' s' in
      All (λ e. All (λ f. e.id ≢ f.id) first) second
claims_disjoint limit limit' now now' s le =
    let chosen = candidates limit now s.outbox in
    let (first, s') = claim_outbox_events limit now s in
    let (second, s'') = claim_outbox_events limit' now' s' in
    let free =
      candidates-unlocked (now + minutes 2) limit' now' chosen s'.outbox le
        (claim-locks limit now s) in
    All-both (λ e. in_ids (candidates limit' now' s'.outbox) e.id ≡ true)
      (λ (e : OutboxEvent). Unit {0}) (λ e. All (λ f. e.id ≢ f.id) first) second
      (λ e found u.
        All-both (λ f. in_ids chosen f.id ≡ true) (λ (f : OutboxEvent). Unit {0}) (λ f. e.id ≢ f.id)
          first
          (λ f taken u' same.
            let out = in_ids-disjoint chosen (candidates limit' now' s'.outbox) e.id free found in
            cc)
          (claimed-in_ids limit now s) (All-always (λ (f : OutboxEvent). Unit {0}) first (λ f. tt)))
      (claimed-in_ids limit' now' s') (All-always (λ (e : OutboxEvent). Unit {0}) second (λ e. tt))

-- The powers of two up to the tenth, one by one.
delay_table : ℕ → Bool
delay_table zero = true
delay_table (suc n) = min 3600 (2 ^ n) * 1_000_000 == 2 ^ n * 1_000_000 && delay_table n

delay_table_sound :
    (n m : ℕ) → delay_table n ≡ true → m < n → min 3600 (2 ^ m) * 1_000_000 ≡ 2 ^ m * 1_000_000
unfolding delay_table
delay_table_sound zero m h lt = elim lt [ ]
delay_table_sound (suc n) m h lt = ground (arith, delay_table_sound n m)

delay_table-true : delay_table 11 ≡ true
unfolding delay_table
delay_table-true = refl

-- The pause before a retry is 2 ^ attempts seconds up to ten attempts and 1024 seconds from then on.
-- So the cap of 3600 seconds is never reached.
pub retry_delay-eq : (attempts : ℕ) → retry_delay attempts ≡ 2 ^ min attempts 10 * 1_000_000
unfolding retry_delay
retry_delay-eq attempts = delay_table_sound 11 (min attempts 10) delay_table-true (omega arith)
