-- ===== src/Stage/Tests.antt =====
-- The stage ledger on concrete calls.
use challanse_website.Stage.{
  image_fetch, ocr, claim_stage, complete_stage, fail_stage, error_prefix,
}
use challanse_website.Stage.Run.{
  StageOp, claim, complete, fail, step, run, claims_won, empty, attempts_of,
}
use challanse_website.Stage.Attempts.{claims_won-le_five}
use challanse_website.Stage.Lease.{lease_excludes}
use challanse_website.Prelude.{◌≡◌, refl, false, List, [], ◌∷◌, arith, ◌≤◌}

-- Two workers claim at once, the winner fails, the stage is claimed again after its failure.
abbrev calls : List StageOp
calls =
    claim 1 7 ocr 0
    ∷ claim 1 7 ocr 10
    ∷ fail 7 ocr "TimeoutError" false 20
    ∷ claim 1 7 ocr 30
    ∷ claim 1 7 image_fetch 30
    ∷ complete 7 ocr 40
    ∷ claim 1 7 ocr 50
    ∷ []

calls_won : claims_won 7 ocr calls empty ≡ 2
unfolding claims_won step claim_stage complete_stage fail_stage error_prefix
calls_won = refl

claims_won-le_five_example :
    (claims_won 7 ocr calls empty ≤ 5)
    × (attempts_of (run calls empty 7 ocr) ≡ claims_won 7 ocr calls empty)
claims_won-le_five_example = claims_won-le_five calls 7 ocr

abbrev rivals : List StageOp
rivals = claim 1 7 ocr 10 ∷ claim 1 7 image_fetch 400_000_000 ∷ claim 1 7 ocr 300_000_000 ∷ []

lease_excludes_example : claims_won 7 ocr rivals (claim_stage 1 7 ocr 0 empty).1 ≡ 0
unfolding claim_stage
lease_excludes_example =
    lease_excludes 1 7 ocr 0 empty rivals refl
      (λ r k. omega arith, (λ r k. cc, (λ r k. omega arith, tt)))
