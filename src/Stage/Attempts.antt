-- ===== src/Stage/Attempts.antt =====
-- The retry budget of a stage: how often it is claimed, and which rows can occur
-- (services/enrichment/app/storage.py).
use challanse_website.Prelude.{
  ℕ, ◌≡◌, true, Option, none, some, List, [], ◌∷◌, arith, ◌+◌, ◌≤◌, ◌<◌, is_some,
}
use challanse_website.Stage.{
  Stages, StageKind, StageRow, claim_stage, complete_stage, fail_stage, is_processing,
  is_failed_retryable, stage_beq_iff,
}
use challanse_website.Stage.Run.{
  StageOp, claim, complete, fail, step, won_by, attempts_of, run, claims_won, empty,
}

-- A row is locked exactly while it is processed, and a row that may be retried has budget left.
pub record IsValidRow (row : StageRow) : Type 0 where
  pub counted : 1 ≤ row.attempts
  pub bounded : row.attempts ≤ 5
  pub locked : is_some row.locked_until ≡ is_processing row.status
  pub retryable : is_failed_retryable row.status ≡ true → row.attempts < 5

abbrev pub IsValidEntry : Option StageRow → Type 0
IsValidEntry none = Unit
IsValidEntry (some row) = IsValidRow row

-- Every row of one stage of one receipt.
abbrev pub IsValidAt : ℕ → StageKind → Stages → Type 0
IsValidAt r k t = IsValidEntry (t r k)

step-IsValidAt :
    (op : StageOp) (r : ℕ) (k : StageKind) (t : Stages)
    → IsValidAt r k t
    → IsValidAt r k (step op t).1
unfolding step claim_stage complete_stage fail_stage
step-IsValidAt (claim org r' k' now) r k t h = ground (arith, stage_beq_iff k' k)
step-IsValidAt (complete r' k' now) r k t h = ground (arith, stage_beq_iff k' k)
step-IsValidAt (fail r' k' code terminal now) r k t h = ground (arith, stage_beq_iff k' k)

step-attempts :
    (op : StageOp) (r : ℕ) (k : StageKind) (t : Stages)
    → attempts_of ((step op t).1 r k) ≡ attempts_of (t r k) + won_by r k op (step op t).0
unfolding step claim_stage complete_stage fail_stage
step-attempts (claim org r' k' now) r k t = ground (arith, stage_beq_iff k' k, stage_beq_iff k k')
step-attempts (complete r' k' now) r k t = ground (arith, stage_beq_iff k' k)
step-attempts (fail r' k' code terminal now) r k t = ground (arith, stage_beq_iff k' k)

-- From a valid stage, whatever the workers call, every row of the stage that arises is valid: its
-- attempts lie between 1 and 5, it is locked exactly while it is PROCESSING, and it is
-- FAILED_RETRYABLE only with fewer than 5 attempts.
run-IsValidAt :
    (ops : List StageOp) (r : ℕ) (k : StageKind) (t : Stages)
    → IsValidAt r k t
    → IsValidAt r k (run ops t)
unfolding run
run-IsValidAt [] r k t h = h
run-IsValidAt (op ∷ ops) r k t h = run-IsValidAt ops r k (step op t).1 (step-IsValidAt op r k t h)

run-attempts :
    (ops : List StageOp) (r : ℕ) (k : StageKind) (t : Stages)
    → attempts_of (run ops t r k) ≡ attempts_of (t r k) + claims_won r k ops t
unfolding run claims_won
run-attempts [] r k t = omega arith
run-attempts (op ∷ ops) r k t =
    omega (arith, run-attempts ops r k (step op t).1, step-attempts op r k t)

attempts_bounded : (e : Option StageRow) → IsValidEntry e → attempts_of e ≤ 5
attempts_bounded none h = omega arith
attempts_bounded (some row) h = h.bounded

-- However the calls of the workers interleave, a stage of a receipt is claimed five times at most,
-- and its row counts the claims exactly.
pub claims_won-le_five :
    (ops : List StageOp) (r : ℕ) (k : StageKind)
    → (claims_won r k ops empty ≤ 5) × (attempts_of (run ops empty r k) ≡ claims_won r k ops empty)
claims_won-le_five ops r k = omega (
  arith,
  run-attempts ops r k empty,
  attempts_bounded (run ops empty r k) (run-IsValidAt ops r k empty tt),
)
