-- ===== src/LocalQueue/Lease.antt =====
-- Exclusion between the workers of the local queue (services/enrichment/app/queueing.py).
use challanse_website.Stage.{minutes}
use challanse_website.Pipeline.{QueueRow, OutboxStatus, Store}
use challanse_website.LocalQueue.{
  LocalQueueMessage, can_claim, is_candidate, oldest, candidate, locked_row, claim_first,
  claim_local_message,
}
use challanse_website.Prelude.{
  ℕ, ◌≡◌, refl, ◌≢◌, true, Option, none, some, List, [], ◌∷◌, arith, ◌+◌, ◌≤◌, ◌==◌, select, All,
  sort_by, by_key, All-select, All-sort_by, All-updated, All-both, All-select_both, nat_eq,
}

-- A row with the id is locked until `d`.
abbrev pub IsLockedUntil : ℕ → ℕ → QueueRow → Type 0
IsLockedUntil d i row =
    row.id ≡ i → (row.status ≡ OutboxStatus.processing) × (row.locked_until ≡ some d)

pub claim_first-locks :
    (now : ℕ) (s : Store) (found : Option QueueRow) (m : LocalQueueMessage)
    → (claim_first found now s).0 ≡ some m
    → All (IsLockedUntil (now + minutes 3) m.id) (claim_first found now s).1.queue
unfolding claim_first
claim_first-locks now s none m h = ground (arith, h)
claim_first-locks now s (some row) m h =
    All-updated (IsLockedUntil (now + minutes 3) m.id) (λ q. q.id == row.id) (locked_row now)
      s.queue (λ q e same. (refl, refl)) (λ q e same. ground (arith, h, e, same))

candidate-avoids :
    (d now i : ℕ) (rows : List QueueRow)
    → now ≤ d
    → All (IsLockedUntil d i) rows
    → All
        (λ row. row.id ≢ i)
        (sort_by (by_key (λ row. row.created_at)) (select (is_candidate now) rows))
unfolding can_claim
candidate-avoids d now i rows le h =
    All-sort_by (λ (row : QueueRow). row.id ≢ i) (by_key (λ row. row.created_at))
      (select (is_candidate now) rows)
      (All-both (IsLockedUntil d i) (λ row. is_candidate now row ≡ true) (λ row. row.id ≢ i)
        (select (is_candidate now) rows) (λ row held can same. ground (arith, held same, can))
        (All-select_both (IsLockedUntil d i) (is_candidate now) rows h)
        (All-select (λ row. is_candidate now row ≡ true) (is_candidate now) rows (λ row e. e)))

claim_first-other :
    (now i : ℕ) (s : Store) (rows : List QueueRow) (m : LocalQueueMessage)
    → All (λ row. row.id ≢ i) rows
    → (claim_first (oldest rows) now s).0 ≡ some m
    → m.id ≢ i
unfolding claim_first
claim_first-other now i s [] m h e = ground (arith, e)
claim_first-other now i s (row ∷ rows) m h e = ground (arith, h.0, e)

-- After a worker has claimed a message at `now`, no worker that claims up to three minutes later,
-- before the message is completed or failed, gets the same message.
claim_excludes :
    (now now' : ℕ) (s : Store) (m m' : LocalQueueMessage)
    → now' ≤ now + minutes 3
    → (claim_local_message now s).0 ≡ some m
    → (claim_local_message now' (claim_local_message now s).1).0 ≡ some m'
    → m'.id ≢ m.id
unfolding claim_local_message candidate
claim_excludes now now' s m m' le first second =
    let rows = (claim_local_message now s).1.queue in
    claim_first-other now' m.id (claim_local_message now s).1
      (sort_by (by_key (λ row. row.created_at)) (select (is_candidate now') rows)) m'
      (candidate-avoids (now + minutes 3) now' m.id rows le
        (claim_first-locks now s (candidate now s.queue) m first))
      second
