-- ===== src/Stage.antt =====
-- The retry ledger of the processing stages: the table `workflow_stages` and the four statements
-- on it in services/enrichment/app/storage.py. The proofs are in the modules below.
pub mod Lease
pub mod Attempts
mod Tests
pub mod Run
use challanse_website.Prelude.{
  ℕ, zero, suc, String, ◌≡◌, ◌↔◌, Bool, true, false, Option, none, some, [], ◌∷◌, arith, ◌+◌, ◌*◌,
  ◌&&◌, ◌||◌, ltb, leb, nat_beq, Equality, ◌==◌, if◌then◌else◌, nat_eq,
}

-- Times are in microseconds, the resolution of TIMESTAMPTZ.
abbrev pub minutes : ℕ → ℕ
minutes n = n * 60_000_000

pub data StageKind : Type 0 where
  image_fetch ocr gst edge_callback credit_delivery : StageKind

abbrev pub stage_code : StageKind → ℕ
stage_code image_fetch = 0
stage_code ocr = 1
stage_code gst = 2
stage_code edge_callback = 3
stage_code credit_delivery = 4

abbrev pub stage_beq : StageKind → StageKind → Bool
stage_beq j k = nat_beq (stage_code j) (stage_code k)

pub stage_beq_iff : (j k : StageKind) → (stage_beq j k ≡ true) ↔ (j ≡ k)
stage_beq_iff j k = ground arith

instance abbrev pub stage_eq : Equality StageKind
stage_eq = record { same = stage_beq; same_iff = stage_beq_iff }

pub data StageStatus : Type 0 where
  processing completed failed_retryable failed_terminal disabled : StageStatus

abbrev pub is_processing : StageStatus → Bool
is_processing processing = true
is_processing _ = false

abbrev pub is_failed_retryable : StageStatus → Bool
is_failed_retryable failed_retryable = true
is_failed_retryable _ = false

abbrev pub is_failed_terminal : StageStatus → Bool
is_failed_terminal failed_terminal = true
is_failed_terminal _ = false

abbrev pub is_completed : StageStatus → Bool
is_completed completed = true
is_completed _ = false

-- A row of `workflow_stages`; ids are only compared.
pub record StageRow : Type 0 where
  pub organization_id : ℕ
  pub status : StageStatus
  pub attempts : ℕ
  pub last_error_code : Option String
  pub locked_until : Option ℕ
  pub completed_at : Option ℕ
  pub updated_at : ℕ

-- The table by its primary key (receipt_id, stage).
abbrev pub Stages : Type 0
Stages = ℕ → StageKind → Option StageRow

abbrev pub set_stage : ℕ → StageKind → StageRow → Stages → Stages
set_stage r k row t r' k' = if r == r' && k == k' then some row else t r' k'

-- `locked_until < NOW()`; a comparison with NULL is not true.
abbrev pub lock_expired : Option ℕ → ℕ → Bool
lock_expired none now = false
lock_expired (some t) now = ltb t now

-- The first 120 characters, `error_code[:120]`.
abbrev take_chars : ℕ → String → String
take_chars zero s = String.[]
take_chars (suc n) String.[] = String.[]
take_chars (suc n) (String.◌∷◌ c s) = String.◌∷◌ c (take_chars n s)

unfoldable pub error_prefix : String → String
error_prefix s = take_chars 120 s

-- The WHERE clause of the upsert in `claim_stage`.
pub can_reclaim : StageRow → ℕ → Bool
can_reclaim row now =
    (is_failed_retryable row.status
      || (is_processing row.status && lock_expired row.locked_until now))
    && ltb row.attempts 5

abbrev pub new_row : ℕ → ℕ → StageRow
new_row org now = record {
  organization_id = org;
  status = processing;
  attempts = 1;
  last_error_code = none;
  locked_until = some (now + minutes 5);
  completed_at = none;
  updated_at = now;
}

abbrev reclaimed : StageRow → ℕ → StageRow
reclaimed row now = record row {
  status = processing;
  attempts = row.attempts + 1;
  last_error_code = none;
  locked_until = some (now + minutes 5);
  updated_at = now;
}

claim_row : Option StageRow → ℕ → ℕ → Option StageRow
claim_row none org now = some (new_row org now)
claim_row (some row) org now = if can_reclaim row now then some (reclaimed row now) else none

-- Whether the row was inserted or updated, and the table after.
abbrev write_claim : Option StageRow → ℕ → StageKind → Stages → Bool × Stages
write_claim none r k t = (false, t)
write_claim (some row) r k t = (true, set_stage r k row t)

unfoldable pub claim_stage : ℕ → ℕ → StageKind → ℕ → Stages → Bool × Stages
unfolding claim_row can_reclaim
claim_stage org r k now t = write_claim (claim_row (t r k) org now) r k t

abbrev status_of : Option StageRow → Option StageStatus
status_of none = none
status_of (some row) = some row.status

unfoldable pub stage_status : ℕ → StageKind → Stages → Option StageStatus
stage_status r k t = status_of (t r k)

abbrev complete_row : Option StageRow → ℕ → ℕ → StageKind → Stages → Stages
complete_row none now r k t = t
complete_row (some row) now r k t =
    if is_processing row.status
    then set_stage r k
        (record row {
          status = completed;
          locked_until = none;
          completed_at = some now;
          updated_at = now;
        })
        t
    else t

unfoldable pub complete_stage : ℕ → StageKind → ℕ → Stages → Stages
complete_stage r k now t = complete_row (t r k) now r k t

abbrev failure_status : Bool → ℕ → StageStatus
failure_status terminal attempts =
    if terminal || leb 5 attempts then failed_terminal else failed_retryable

abbrev fail_row : Option StageRow → String → Bool → ℕ → ℕ → StageKind → Stages → Bool × Stages
fail_row none code terminal now r k t = (false, t)
fail_row (some row) code terminal now r k t =
    let status = failure_status terminal row.attempts in
    (
      is_failed_terminal status,
      set_stage r k
          (record row {
            status = status;
            last_error_code = some (error_prefix code);
            locked_until = none;
            updated_at = now;
          })
          t,
    )

-- Whether the stage has now failed for good, and the table after.
unfoldable pub fail_stage : ℕ → StageKind → String → Bool → ℕ → Stages → Bool × Stages
fail_stage r k code terminal now t = fail_row (t r k) code terminal now r k t
