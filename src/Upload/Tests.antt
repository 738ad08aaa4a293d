-- ===== src/Upload/Tests.antt =====
-- The upload functions on a session of one small image.
use challanse_website.Prelude.{
  pos, negsuc, ℕ, String, ◌≡◌, refl, ◌⊎◌, true, false, none, some, List, [], ◌∷◌, length, sort_by,
  ok, err,
}
use challanse_website.Upload.{
  DeviceContext, UploadSessionRequest, Tables, create_upload_session, UploadSession, UploadPart,
  part_key, upload, opened, image_key, upload_policy,
}
use challanse_website.Upload.Sessions.{put_upload_part, put_open, put_checked, check_part, parts_of}
use challanse_website.Upload.Complete.{
  Texts, Faults, combine, complete_upload_session, claim_upload, is_webp, check_limits,
}
use challanse_website.Upload.Succeeds.{complete-succeeds}
use challanse_website.Upload.Atomic.{IsUndone, complete-IsUndone}
use challanse_website.Upload.Parts.{part_session, Judges, put_upload_part-Judges}
use challanse_website.Upload.Combined.{IsCut}
use challanse_website.Upload.Again.{complete_twice}
use challanse_website.Upload.Resume.{create_again}
use challanse_website.Upload.Recorded.{HasRecorded, complete-HasRecorded}

abbrev device : DeviceContext
device = record { id = 5; organization_id = 1; site_id = 2 }

-- A RIFF header of WebP.
abbrev image : List ℕ
image = 82 ∷ 73 ∷ 70 ∷ 70 ∷ 0 ∷ 0 ∷ 0 ∷ 0 ∷ 87 ∷ 69 ∷ 66 ∷ 80 ∷ []

abbrev request : UploadSessionRequest
request = record {
  receipt_id = 7;
  vendor_id = "cement";
  captured_at_unix = 1;
  captured_quantity = 40_000;
  image_sha256 = "abc";
  app_version = "1.0";
  configuration_version = 1;
  total_bytes = 12;
}

abbrev no_tables : Tables
no_tables = record {
  sessions = [];
  parts = [];
  receipts = [];
  organizations = λ o. some (record {
    active = true;
    daily_receipt_limit = 10;
    storage_byte_limit = 1000;
    stored_image_bytes = 0;
  });
  sites = λ s. some (record {
    organization_id = 1;
    active = true;
    daily_receipt_limit = 10;
    image_byte_limit = 1000;
  });
  vendors = record { id = "cement"; organization_id = 1; site_id = 2; active = true } ∷ [];
  objects = λ k. none;
  audit_events = [];
  outbox = [];
  next_id = 0;
}

abbrev sha256 : List ℕ → String
sha256 body = "abc"

abbrev texts : Texts
texts = record {
  sha256 = sha256;
  chain_sha256 = λ p e. "link";
  image_name = λ o s d r. "1/2/2026-01-01/7.webp";
  received_json = λ n. "{}";
}

abbrev no_faults : Faults
no_faults = record { reads = λ k. none; writes = λ k. none; deletes = λ k. none }

abbrev session : UploadSession
session = record {
  id = 0;
  organization_id = 1;
  site_id = 2;
  device_id = 5;
  request = request;
  final_object_key = none;
  integrity_status = "TRUSTED";
  status = opened;
  expires_at = 86_400_000_000;
}

abbrev part : UploadPart
part = record { upload_id = 0; part_number = 0; byte_offset = 0; byte_length = 12; sha256 = "abc" }

abbrev with_session : Tables
with_session = record no_tables { sessions = session ∷ []; next_id = 1 }

abbrev with_part : Tables
with_part = record with_session {
  parts = part ∷ [];
  objects = λ k. elim k [ part_key u n ↦ some image | image_key s ↦ none ];
}

create_again_example :
    create_upload_session false device request "UNAVAILABLE" 9
      (create_upload_session false device request "TRUSTED" 0 no_tables).1
    ≡ (
      ok (upload 0 7 opened 256_000),
      (create_upload_session false device request "TRUSTED" 0 no_tables).1,
    )
unfolding create_upload_session
create_again_example =
    create_again false device request "TRUSTED" "UNAVAILABLE" 0 9 no_tables
      (upload 0 7 opened 256_000) refl

-- A negative part number is out of range.
negative_part :
    put_upload_part sha256 device 0 (negsuc 0) image "abc" none 1 with_session
    ≡ (err "PART_OUT_OF_RANGE", with_session)
unfolding put_upload_part put_open put_checked check_part
negative_part = refl

put_upload_part-Judges_example :
    let reply = put_upload_part sha256 device 0 (pos 0) image "abc" none 1 with_session in
    (reply ≡ (err "UPLOAD_NOT_OPEN", with_session))
    ⊎ ((found : UploadSession) × (part_session sha256 device 0 1 with_session ≡ some found)
        × (found.status ≡ opened)
        × Judges sha256 found.request.total_bytes 0 (pos 0) image "abc" with_session reply)
put_upload_part-Judges_example =
    put_upload_part-Judges sha256 device 0 (pos 0) image "abc" none 1 with_session

complete-IsUndone_example :
    IsUndone device 0 with_session
      (complete_upload_session texts no_faults device 0 "2026-01-01" 1 with_session)
complete-IsUndone_example =
    complete-IsUndone texts no_faults device 0 "2026-01-01" 1 with_session session refl (λ k. refl)

complete-HasRecorded_example :
    let t' = (complete_upload_session texts no_faults device 0 "2026-01-01" 1 with_part).1 in
    (body : List ℕ) × IsCut with_part.objects (parts_of 0 with_part) 0 body
    × (length body ≡ 12)
    × (is_webp body ≡ true)
    × (sha256 body ≡ "abc")
    × HasRecorded texts device session body 1 with_part
        (record { receipt_id = 7; duplicate = false })
        t'
unfolding complete_upload_session combine sort_by is_webp claim_upload
complete-HasRecorded_example =
    complete-HasRecorded texts no_faults device 0 "2026-01-01" 1 with_part session
      (record { receipt_id = 7; duplicate = false }) refl refl

complete_twice_example :
    let t' = (complete_upload_session texts no_faults device 0 "2026-01-01" 1 with_part).1 in
    complete_upload_session texts no_faults device 0 "2026-01-02" 9 t'
    ≡ (ok (record { receipt_id = 7; duplicate = true }), t')
unfolding complete_upload_session combine sort_by is_webp claim_upload
complete_twice_example =
    complete_twice texts no_faults no_faults device 0 "2026-01-01" "2026-01-02" 1 9 with_part
      session (record { receipt_id = 7; duplicate = false }) refl refl refl

complete-succeeds_example :
    (complete_upload_session texts no_faults device 0 "2026-01-01" 1 with_part).0
    ≡ ok (record { receipt_id = 7; duplicate = false })
unfolding sort_by is_webp check_limits upload_policy parts_of
complete-succeeds_example =
    complete-succeeds texts no_faults device 0 "2026-01-01" 1 with_part session image refl
      (image, [], refl, refl, refl, refl, refl) refl refl refl refl (λ k. refl) (λ k. refl)
