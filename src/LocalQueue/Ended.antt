-- ===== src/LocalQueue/Ended.antt =====
-- How a message of the local queue (services/enrichment/app/queueing.py) ends: the row that a worker
-- has claimed is delivered, or failed and due again.
use challanse_website.Stage.{minutes, error_prefix}
use challanse_website.Pipeline.{
  QueueRow, OutboxStatus, delivered, failed_retryable, failed_terminal, Store,
}
use challanse_website.LocalQueue.{
  LocalQueueMessage, is_candidate, oldest, candidate, locked_row, claim_first, claim_local_message,
  is_open, complete_local_message, failed_row, fail_local_message,
}
use challanse_website.LocalQueue.Lease.{IsLockedUntil, claim_first-locks}
use challanse_website.Prelude.{
  ℕ, String, ◌≡◌, refl, ◌∙◌, inl, inr, Bool, true, false, Option, none, some, List, [], ◌∷◌, arith,
  ◌+◌, ◌≤◌, ◌<◌, ◌==◌, select, All, sort_by, by_key, update, exists_in, exists_in-update,
  All-select_both, All-sort_by, All-mono, Bool-cases, nat_eq,
}

-- The queue has the row with the id, every row with it satisfies `P`, and the id is drawn.
pub record Holds (P : QueueRow → Type 0) (i : ℕ) (s : Store) : Type 0 where
  pub rows : All (λ row. row.id ≡ i → P row) s.queue
  pub present : exists_in (λ row. row.id == i) s.queue ≡ true
  pub drawn : i < s.next_id

-- Delivered at `now`, its lock gone.
abbrev pub IsDelivered : ℕ → QueueRow → Type 0
IsDelivered now row =
    (row.status ≡ delivered) × (row.delivered_at ≡ some now) × (row.locked_until ≡ none)

-- Failed with the error, its lock gone: for good after ten attempts, else due again within five
-- minutes.
abbrev pub IsFailed : ℕ → String → ℕ → QueueRow → Type 0
IsFailed attempts code now row =
    (10 ≤ attempts → row.status ≡ failed_terminal)
    × (attempts < 10 → row.status ≡ failed_retryable)
    × (row.last_error_code ≡ some (error_prefix code))
    × (row.locked_until ≡ none)
    × (now ≤ row.available_at)
    × (row.available_at ≤ now + minutes 5)

-- In the hands of the worker that claimed it.
abbrev pub IsClaimed : QueueRow → Type 0
IsClaimed row = row.status ≡ OutboxStatus.processing

updated_from :
    {A : Type 0} (P Q : A → Type 0) (p : A → Bool) (f : A → A) (xs : List A)
    → ((x : A) → p x ≡ true → Q (f x))
    → ((x : A) → p x ≡ false → P x → Q x)
    → All P xs
    → All Q (update p f xs)
updated_from P Q p f [] yes_case no_case h = tt
updated_from P Q p f (x ∷ xs) yes_case no_case h = elim (Bool-cases (p x)) [
  | inl e ↦ rw e (yes_case x e, updated_from P Q p f xs yes_case no_case h.1)
  | inr e ↦ rw e (no_case x e h.0, updated_from P Q p f xs yes_case no_case h.1)
]

-- Every row is one that the queue has.
All-present : (rows : List QueueRow) → All (λ row. exists_in (λ q. q.id == row.id) rows ≡ true) rows
All-present [] = tt
All-present (row ∷ rows) = (
  ground arith,
  All-mono (λ r. exists_in (λ q. q.id == r.id) rows ≡ true)
      (λ r. exists_in (λ q. q.id == r.id) (row ∷ rows) ≡ true) rows (λ r e. ground (arith, e))
      (All-present rows),
)

oldest-holds :
    (P : QueueRow → Type 0) (rows : List QueueRow) (row : QueueRow)
    → All P rows
    → oldest rows ≡ some row
    → P row
oldest-holds P [] row h e = ground (arith, e)
oldest-holds P (x ∷ rows) row h e = ground (arith, h.0, e)

candidate-present :
    (now : ℕ) (rows : List QueueRow) (row : QueueRow)
    → candidate now rows ≡ some row
    → exists_in (λ q. q.id == row.id) rows ≡ true
unfolding candidate
candidate-present now rows row e =
    let P = λ (row : QueueRow). exists_in (λ q. q.id == row.id) rows ≡ true in
    oldest-holds P (sort_by (by_key (λ row. row.created_at)) (select (is_candidate now) rows)) row
      (All-sort_by P (by_key (λ row. row.created_at)) (select (is_candidate now) rows)
        (All-select_both P (is_candidate now) rows (All-present rows)))
      e

claim_first-present :
    (now : ℕ) (s : Store) (found : Option QueueRow) (m : LocalQueueMessage)
    → ((row : QueueRow) → found ≡ some row → exists_in (λ q. q.id == row.id) s.queue ≡ true)
    → (claim_first found now s).0 ≡ some m
    → exists_in (λ q. q.id == m.id) (claim_first found now s).1.queue ≡ true
unfolding claim_first
claim_first-present now s none m h e = ground (arith, e)
claim_first-present now s (some row) m h e = ground (
  arith,
  e,
  h row refl,
  exists_in-update (λ q. q.id == m.id) (λ q. q.id == row.id) (locked_row now) s.queue (λ q. refl),
)

-- A message that a worker has claimed is in its hands.
pub claim-Holds :
    (now : ℕ) (s : Store) (m : LocalQueueMessage)
    → (claim_local_message now s).0 ≡ some m
    → m.id < (claim_local_message now s).1.next_id
    → Holds IsClaimed m.id (claim_local_message now s).1
unfolding claim_local_message
claim-Holds now s m e drawn = record {
  rows =
      All-mono (IsLockedUntil (now + minutes 3) m.id)
        (λ row. row.id ≡ m.id → row.status ≡ OutboxStatus.processing)
        (claim_first (candidate now s.queue) now s).1.queue (λ row held same. (held same).0)
        (claim_first-locks now s (candidate now s.queue) m e);
  present = claim_first-present now s (candidate now s.queue) m (candidate-present now s.queue) e;
  drawn = drawn;
}

pub complete-Holds :
    (m : LocalQueueMessage) (now : ℕ) (s : Store)
    → Holds IsClaimed m.id s
    → Holds (IsDelivered now) m.id (complete_local_message m now s)
unfolding complete_local_message
complete-Holds m now s h = record {
  rows =
      updated_from (λ row. row.id ≡ m.id → IsClaimed row)
        (λ row. row.id ≡ m.id → IsDelivered now row) (is_open m)
        (λ row. record row {
          status = OutboxStatus.delivered;
          delivered_at = some now;
          locked_until = none;
        })
        s.queue (λ row e same. (refl, refl, refl))
        (λ row e held same. ground (arith, e, same, held same)) h.rows;
  present =
      exists_in-update (λ row. row.id == m.id) (is_open m) _ s.queue (λ row. refl) ∙ h.present;
  drawn = h.drawn;
}

failed_row-IsFailed :
    (m : LocalQueueMessage) (code : String) (now : ℕ) (row : QueueRow)
    → IsFailed m.attempts code now (failed_row m code now row)
failed_row-IsFailed m code now row =
    (λ le. ground (arith, le), λ lt. ground (arith, lt), refl, refl, omega arith, ground arith)

pub fail-Holds :
    (m : LocalQueueMessage) (code : String) (now : ℕ) (s : Store)
    → Holds IsClaimed m.id s
    → Holds (IsFailed m.attempts code now) m.id (fail_local_message m code now s)
unfolding fail_local_message
fail-Holds m code now s h = record {
  rows =
      updated_from (λ row. row.id ≡ m.id → IsClaimed row)
        (λ row. row.id ≡ m.id → IsFailed m.attempts code now row) (is_open m)
        (failed_row m code now) s.queue (λ row e same. failed_row-IsFailed m code now row)
        (λ row e held same. ground (arith, e, same, held same)) h.rows;
  present =
      exists_in-update (λ row. row.id == m.id) (is_open m) _ s.queue (λ row. refl) ∙ h.present;
  drawn = h.drawn;
}
