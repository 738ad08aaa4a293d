-- ===== src/Upload/Resume.antt =====
-- A device that calls `create_upload_session` (services/enrichment/app/authoritative.py) once more
-- goes on with what it has.
use challanse_website.Upload.{new_session, check_policy, upload, upload_policy, opened}
use challanse_website.Prelude.{
  ℕ, String, ◌≡◌, refl, ap, Bool, true, false, Option, none, some, arith, find?, find?-append_none,
  Result, ok, err, string_eq, nat_eq, exists_in, Bool-cases, inl, inr, ◌==◌,
}
use challanse_website.Upload.{
  open_session, create_new, create_or_resume, create_upload_session, DeviceContext,
  UploadSessionRequest, Tables, UploadSession, Receipt, SessionReply, session_for, own_receipt,
}

open_session-again :
    (device : DeviceContext) (request : UploadSessionRequest) (integrity : String) (now : ℕ)
    (checked : Result (Unit {0})) (t : Tables) (reply : SessionReply)
    → find? (session_for device request.receipt_id) t.sessions ≡ none
    → (open_session device request integrity now checked t).0 ≡ ok reply
    → let t' = (open_session device request integrity now checked t).1 in
      (find? (session_for device request.receipt_id) t'.sessions
        ≡ some (new_session device request integrity t.next_id now))
      × (t'.receipts ≡ t.receipts)
      × (reply ≡ upload t.next_id request.receipt_id opened 256_000)
unfolding open_session
open_session-again device request integrity now (err e) t reply none_yet h = ground (arith, h)
open_session-again device request integrity now (ok u) t reply none_yet h =
    elim (Bool-cases (exists_in (λ row. row.request.receipt_id == request.receipt_id) t.sessions)) [
      | inl taken ↦ cc (rw taken at h)
      | inr free ↦ rw free (
        find?-append_none (session_for device request.receipt_id) t.sessions
            (new_session device request integrity t.next_id now) none_yet (ground arith),
        refl,
        ground (arith, rw free at h),
      )
    ]

create_new-again :
    (device : DeviceContext) (request : UploadSessionRequest) (integrity integrity' : String)
    (now later : ℕ) (found : Option UploadSession) (t : Tables) (reply : SessionReply)
    → find? (session_for device request.receipt_id) t.sessions ≡ found
    → (create_new device request integrity now found t).0 ≡ ok reply
    → let t' = (create_new device request integrity now found t).1 in
      (create_new device request integrity' later
          (find? (session_for device request.receipt_id) t'.sessions)
          t'
        ≡ (ok reply, t'))
      × (t'.receipts ≡ t.receipts)
unfolding create_new
create_new-again device request integrity integrity' now later (some row) t reply e h =
    (rw e (ap (λ r. (r, t)) h), refl)
create_new-again device request integrity integrity' now later none t reply e h =
    let (found, receipts, answer) =
      open_session-again device request integrity now
        (check_policy (upload_policy device t) device request t) t reply e h in
    (
      rw found (
          rw answer (ground (arith, string_eq.same_iff request.image_sha256 request.image_sha256))),
      receipts,
    )

create_or_resume-again :
    (device : DeviceContext) (request : UploadSessionRequest) (integrity integrity' : String)
    (now later : ℕ) (found : Option Receipt) (t : Tables) (reply : SessionReply)
    → find? (own_receipt device request.receipt_id) t.receipts ≡ found
    → (create_or_resume device request integrity now found t).0 ≡ ok reply
    → let t' = (create_or_resume device request integrity now found t).1 in
      create_or_resume device request integrity' later
        (find? (own_receipt device request.receipt_id) t'.receipts)
        t'
      ≡ (ok reply, t')
unfolding create_or_resume
create_or_resume-again device request integrity integrity' now later (some row) t reply e h =
    rw e (ap (λ r. (r, t)) h)
create_or_resume-again device request integrity integrity' now later none t reply e h =
    let (again, receipts) =
      create_new-again device request integrity integrity' now later
        (find? (session_for device request.receipt_id) t.sessions) t reply refl h in
    rw receipts (rw e again)

-- If `create_upload_session` answers without an error, then the same request, sent again at any
-- time while uploads are not paused, gets the same answer and changes nothing: no second session is
-- opened, and the quota and the vendor are not tested again.
pub create_again :
    (paused : Bool) (device : DeviceContext) (request : UploadSessionRequest)
    (integrity integrity' : String) (now later : ℕ) (t : Tables) (reply : SessionReply)
    → (create_upload_session paused device request integrity now t).0 ≡ ok reply
    → let t' = (create_upload_session paused device request integrity now t).1 in
      create_upload_session false device request integrity' later t' ≡ (ok reply, t')
unfolding create_upload_session
create_again true device request integrity integrity' now later t reply h = ground (arith, h)
create_again false device request integrity integrity' now later t reply h =
    create_or_resume-again device request integrity integrity' now later
      (find? (own_receipt device request.receipt_id) t.receipts) t reply refl h
