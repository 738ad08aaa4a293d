-- ===== src/Stage/Lease.antt =====
-- Exclusion between the workers that claim a stage, and the rows that no claim takes any more
-- (`claim_stage` of services/enrichment/app/storage.py).
use challanse_website.Prelude.{
  ℕ, ◌≡◌, refl, true, false, Option, none, some, List, [], ◌∷◌, arith, ◌+◌, ◌≤◌, ◌&&◌, ◌==◌, All,
  nat_eq,
}
use challanse_website.Stage.{
  Stages, StageKind, StageRow, claim_stage, complete_stage, fail_stage, minutes, processing,
  completed, failed_terminal, disabled, stage_beq_iff, stage_eq,
}
use challanse_website.Stage.Run.{StageOp, claim, complete, fail, step, claims_won, won_by}

-- The calls of other workers up to the time `d`: claims of any stage, and the results of other
-- stages than the stage `k` of the receipt `r`.
abbrev pub IsRival : ℕ → StageKind → ℕ → StageOp → Type 0
IsRival r k d (claim org r' k' now) = r ≡ r' → k ≡ k' → now ≤ d
IsRival r k d (complete r' k' now) = r == r' && k == k' ≡ false
IsRival r k d (fail r' k' code terminal now) = r == r' && k == k' ≡ false

-- The stage is held until `d`.
abbrev pub IsHeld : ℕ → Option StageRow → Type 0
IsHeld d none = ⊥
IsHeld d (some row) = (row.status ≡ processing) × (row.locked_until ≡ some d)

rival-IsHeld :
    (op : StageOp) (r : ℕ) (k : StageKind) (d : ℕ) (t : Stages)
    → IsHeld d (t r k)
    → IsRival r k d op
    → IsHeld d ((step op t).1 r k) × (won_by r k op (step op t).0 ≡ 0)
unfolding step claim_stage complete_stage fail_stage
rival-IsHeld (claim org r' k' now) r k d t h rival =
    ground (arith, stage_beq_iff k k', stage_beq_iff k' k)
rival-IsHeld (complete r' k' now) r k d t h rival =
    ground (arith, stage_beq_iff k k', stage_beq_iff k' k)
rival-IsHeld (fail r' k' code terminal now) r k d t h rival =
    ground (arith, stage_beq_iff k k', stage_beq_iff k' k)

held_excludes :
    (ops : List StageOp) (r : ℕ) (k : StageKind) (d : ℕ) (t : Stages)
    → IsHeld d (t r k)
    → All (IsRival r k d) ops
    → claims_won r k ops t ≡ 0
unfolding claims_won
held_excludes [] r k d t h rivals = refl
held_excludes (op ∷ ops) r k d t h (rival, rivals) =
    let (held, lost) = rival-IsHeld op r k d t h rival in
    omega (arith, lost, held_excludes ops r k d (step op t).1 held rivals)

claim-IsHeld :
    (org r : ℕ) (k : StageKind) (now : ℕ) (t : Stages)
    → (claim_stage org r k now t).0 ≡ true
    → IsHeld (now + minutes 5) ((claim_stage org r k now t).1 r k)
unfolding claim_stage
claim-IsHeld org r k now t won = ground (arith, stage_beq_iff k k)

-- After a claim that succeeds at `now`, no claim of the same stage of the receipt succeeds up to
-- five minutes later, in any sequence of calls in which nobody reports that stage as done or failed.
pub lease_excludes :
    (org r : ℕ) (k : StageKind) (now : ℕ) (t : Stages) (ops : List StageOp)
    → (claim_stage org r k now t).0 ≡ true
    → All (IsRival r k (now + minutes 5)) ops
    → claims_won r k ops (claim_stage org r k now t).1 ≡ 0
lease_excludes org r k now t ops won rivals =
    held_excludes ops r k (now + minutes 5) (claim_stage org r k now t).1
      (claim-IsHeld org r k now t won) rivals

-- No claim takes the row: it is finished, or its five attempts are used up.
pub data IsClosed (row : StageRow) : Type 0 where
  done : row.status ≡ completed → IsClosed row
  gave_up : row.status ≡ failed_terminal → IsClosed row
  off : row.status ≡ disabled → IsClosed row
  used_up : 5 ≤ row.attempts → IsClosed row

-- A stage that is completed, terminally failed or disabled, or that was claimed five times, is never
-- claimed again and its table stays as it is. So a worker that dies in the fifth attempt leaves the
-- stage PROCESSING for good: the lock that expires does not free it.
pub closed_never_claimed :
    (org r : ℕ) (k : StageKind) (now : ℕ) (t : Stages) {row : StageRow}
    → t r k ≡ some row
    → IsClosed row
    → claim_stage org r k now t ≡ (false, t)
unfolding claim_stage
closed_never_claimed org r k now t at (done e) = ground arith
closed_never_claimed org r k now t at (gave_up e) = ground arith
closed_never_claimed org r k now t at (off e) = ground arith
closed_never_claimed org r k now t at (used_up e) = ground arith
