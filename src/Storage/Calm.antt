-- ===== src/Storage/Calm.antt =====
-- What the transactions of services/enrichment/app/storage.py leave alone: the local queue. They may
-- draw ids.
use challanse_website.Stage.{StageKind}
use challanse_website.Pipeline.{ReceiptEvent, EnrichmentStatus, Store}
use challanse_website.Storage.{
  OcrFindings, insert_event, insert_callback, insert_audit, store_ocr, save_ocr_result, store_gst,
  save_gst_result, store_failure, finalize_provider_failure, finish_ocr_stages, finish_gst_stage,
}
use challanse_website.Prelude.{ℕ, String, ◌≡◌, refl, ◌∙◌, Bool, Option, arith, ◌≤◌, Result}

-- The queue is as before, and the next id is no smaller.
abbrev pub IsCalm : Store → Store → Type 0
IsCalm s s' = (s'.queue ≡ s.queue) × (s.next_id ≤ s'.next_id)

pub IsCalm-refl : (s : Store) → IsCalm s s
IsCalm-refl s = (refl, omega arith)

pub IsCalm-trans : (a b c : Store) → IsCalm a b → IsCalm b c → IsCalm a c
IsCalm-trans a b c h k = (k.0 ∙ h.0, omega (arith, h.1, k.1))

pub finalize-IsCalm :
    (event : ReceiptEvent) (k : StageKind) (e : String) (now : ℕ) (s : Store)
    → IsCalm s (finalize_provider_failure event k e now s).1
unfolding finalize_provider_failure store_failure insert_callback insert_event insert_audit
finalize-IsCalm event k e now s = ground arith

pub ocr-IsCalm :
    (event : ReceiptEvent) (status : EnrichmentStatus) (found : OcrFindings) (end : Bool) (now : ℕ)
    (s : Store)
    → IsCalm s (save_ocr_result event status found end now s).1
unfolding save_ocr_result store_ocr insert_callback insert_event insert_audit finish_ocr_stages
ocr-IsCalm event status found end now s = ground arith

pub gst-IsCalm :
    (event : ReceiptEvent) (status : EnrichmentStatus) (credit : Option String) (enabled : Bool)
    (encrypted : Result String) (now : ℕ) (s : Store)
    → IsCalm s (save_gst_result event status credit enabled encrypted now s).1
unfolding save_gst_result store_gst insert_callback insert_event insert_audit finish_gst_stage
gst-IsCalm event status credit enabled encrypted now s = ground arith
