-- ===== src/Stage/Run.antt =====
-- Sequences of calls of the stage ledger (services/enrichment/app/storage.py) by any number of
-- workers, in the order in which their transactions commit.
use challanse_website.Prelude.{
  ℕ, String, Bool, true, false, Option, none, some, List, [], ◌∷◌, ◌+◌, ◌&&◌, ◌==◌, if◌then◌else◌,
  nat_eq,
}
use challanse_website.Stage.{
  Stages, StageKind, StageRow, claim_stage, complete_stage, fail_stage, stage_eq,
}

pub data StageOp : Type 0 where
  claim : ℕ → ℕ → StageKind → ℕ → StageOp
  complete : ℕ → StageKind → ℕ → StageOp
  fail : ℕ → StageKind → String → Bool → ℕ → StageOp

unfoldable pub step : StageOp → Stages → Bool × Stages
step (claim org r k now) t = claim_stage org r k now t
step (complete r k now) t = (true, complete_stage r k now t)
step (fail r k code terminal now) t = fail_stage r k code terminal now t

unfoldable pub run : List StageOp → Stages → Stages
run [] t = t
run (op ∷ ops) t = run ops (step op t).1

abbrev pub is_claim_of : ℕ → StageKind → StageOp → Bool
is_claim_of r k (claim org r' k' now) = r == r' && k == k'
is_claim_of r k _ = false

abbrev pub won_by : ℕ → StageKind → StageOp → Bool → ℕ
won_by r k op won = if is_claim_of r k op && won then 1 else 0

-- How many claims of the stage `k` of the receipt `r` succeed.
unfoldable pub claims_won : ℕ → StageKind → List StageOp → Stages → ℕ
claims_won r k [] t = 0
claims_won r k (op ∷ ops) t = won_by r k op (step op t).0 + claims_won r k ops (step op t).1

abbrev pub empty : Stages
empty r k = none

abbrev pub attempts_of : Option StageRow → ℕ
attempts_of none = 0
attempts_of (some row) = row.attempts
