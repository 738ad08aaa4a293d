-- ===== src/Upload/Atomic.antt =====
-- `complete_upload_session` (services/enrichment/app/authoritative.py) records a receipt wholly or
-- not at all.
use challanse_website.Prelude.{
  ℕ, String, ◌≡◌, refl, inl, inr, true, false, none, some, List, arith, ◌&&◌, ◌==◌, ◌!=◌,
  Bool-cases, length, find?, All, All-updated, Result, ok, err, nat_eq, string_eq,
}
use challanse_website.Upload.{
  Tables, DeviceContext, session_beq, UploadSession, SessionStatus, completing, UploadPart,
  upload_policy, image_key, ObjectKey, opened, failed,
}
use challanse_website.Upload.Sessions.{put_object, parts_of}
use challanse_website.Upload.Complete.{
  set_upload_status, Texts, Completion, finish_upload, commit_checked, commit_receipt, store_image,
  complete_body, is_open, Faults, check_limits, set_status, is_webp, set_final_key,
  complete_upload_session, complete_claimed, claim_upload, whole, combine,
}

-- What records receipts is as before.
abbrev pub IsUnrecorded : Tables → Tables → Type 0
IsUnrecorded t t' =
    (t'.receipts ≡ t.receipts)
    × (t'.audit_events ≡ t.audit_events)
    × (t'.outbox ≡ t.outbox)
    × (t'.organizations ≡ t.organizations)

-- No session of the organization with the id is COMPLETING.
abbrev pub IsReleased : DeviceContext → ℕ → Tables → Type 0
IsReleased device upload_id t =
    All
      (λ row.
        (row.id == upload_id
          && row.organization_id == device.organization_id
          && session_beq row.status completing)
        ≡ false)
      t.sessions

pub own_session-id :
    (device : DeviceContext) (upload_id : ℕ) (row : UploadSession)
    → is_open device upload_id row ≡ true
    → row.id ≡ upload_id
own_session-id device upload_id row h = ground (arith, h)

set_status-IsReleased :
    (device : DeviceContext) (upload_id : ℕ) (next : SessionStatus) (t : Tables)
    → session_beq next completing ≡ false
    → IsReleased device upload_id (set_status device upload_id next t)
unfolding set_upload_status
set_status-IsReleased device upload_id next t h =
    All-updated
      (λ (row : UploadSession).
        (row.id == upload_id
          && row.organization_id == device.organization_id
          && session_beq row.status completing)
        ≡ false)
      _ _ t.sessions (λ row e. ground (arith, h)) (λ row e. e)

-- After an error nothing is recorded, and the session of the upload can be used or has failed.
abbrev pub IsUndone : DeviceContext → ℕ → Tables → Result Completion × Tables → Type 0
IsUndone device upload_id t (ok c, t') = Unit
IsUndone device upload_id t (err e, t') = IsUnrecorded t t' × IsReleased device upload_id t'

module _ (texts : Texts) where
  finish_upload-IsUndone :
      (faults : Faults) (device : DeviceContext) (session : UploadSession) (key : String)
      (parts : List UploadPart) (t t' : Tables) (r : Result (Unit {0}))
      → ((e : String) → r ≡ err e → IsUnrecorded t t')
      → IsUndone device session.id t (finish_upload texts faults device session key parts (r, t'))
  unfolding finish_upload
  finish_upload-IsUndone faults device session key parts t t' (err e) h =
      (h e refl, set_status-IsReleased device session.id opened t' refl)
  finish_upload-IsUndone faults device session key parts t t' (ok u) h = tt

  commit_checked-err :
      (session : UploadSession) (key : String) (body : List ℕ) (now : ℕ)
      (checked : Result (Unit {0})) (t : Tables) (e : String)
      → (commit_checked texts session key body now checked t).0 ≡ err e
      → (commit_checked texts session key body now checked t).1 ≡ t
  unfolding commit_checked
  commit_checked-err session key body now (err x) t e h = refl
  commit_checked-err session key body now (ok u) t e h = ground (arith, h)

  -- The last transaction writes nothing if it raises.
  commit_receipt-err :
      (device : DeviceContext) (session : UploadSession) (key : String) (body : List ℕ) (now : ℕ)
      (t : Tables) (e : String)
      → (commit_receipt texts device session key body now t).0 ≡ err e
      → (commit_receipt texts device session key body now t).1 ≡ t
  unfolding commit_receipt
  commit_receipt-err device session key body now t e h = ground (
    arith,
    commit_checked-err session key body now
        (check_limits session (length body) now t (upload_policy device t)) t e,
  )

  store_image-IsUndone :
      (faults : Faults) (device : DeviceContext) (session : UploadSession) (key : String)
      (parts : List UploadPart) (body : List ℕ) (now : ℕ) (before t : Tables)
      → IsUnrecorded before t
      → IsUndone device session.id before
          (store_image texts faults device session key parts body now none t)
  unfolding store_image
  store_image-IsUndone faults device session key parts body now before t same =
      let start = put_object (image_key key) body t in
      let (r, t') = commit_receipt texts device session key body now start in
      finish_upload-IsUndone faults device session key parts before t' r
        (λ e h. rw (commit_receipt-err device session key body now start e h) same)

  complete_body-IsUndone :
      (faults : Faults) (device : DeviceContext) (session : UploadSession) (parts : List UploadPart)
      (date_prefix : String) (now : ℕ) (combined : Result (List ℕ)) (before t : Tables)
      → ((key : ObjectKey) → faults.writes key ≡ none)
      → IsUnrecorded before t
      → IsUndone device session.id before
          (complete_body texts faults device session parts date_prefix now combined t)
  unfolding complete_body
  complete_body-IsUndone faults device session parts date_prefix now (err e) before t writes same =
      (same, set_status-IsReleased device session.id opened t refl)
  complete_body-IsUndone faults device session parts date_prefix now (ok body) before t writes
        same =
      let key =
        texts.image_name device.organization_id device.site_id date_prefix
          session.request.receipt_id in
      elim (Bool-cases (is_webp body)) [
        | inr e ↦ rw e (same, set_status-IsReleased device session.id failed t refl)
        | inl e ↦ rw e (elim (Bool-cases (texts.sha256 body != session.request.image_sha256)) [
          | inl f ↦ rw f (same, set_status-IsReleased device session.id failed t refl)
          | inr f ↦ rw f (
              rw (writes (image_key key)) (
                store_image-IsUndone faults device session key parts body now before
                  (set_final_key texts session.id key t) same))
        ])
      ]

  -- If the device's session is open, the parts are there to be completed and the object store takes
  -- what is written to it, then an error of `complete_upload_session`, whichever it is, leaves the
  -- receipts, the audit events, the outbox and the quota counters of the organizations as they were,
  -- and the session not COMPLETING. Failing reads and deletions are covered.
  pub complete-IsUndone :
      (faults : Faults) (device : DeviceContext) (upload_id : ℕ) (date_prefix : String) (now : ℕ)
      (t : Tables) (session : UploadSession)
      → find? (is_open device upload_id) t.sessions ≡ some session
      → ((key : ObjectKey) → faults.writes key ≡ none)
      → IsUndone device session.id t
          (complete_upload_session texts faults device upload_id date_prefix now t)
  unfolding complete_upload_session complete_claimed claim_upload
  complete-IsUndone faults device upload_id date_prefix now t session found writes = rw found (
      complete_body-IsUndone faults device session (parts_of upload_id t) date_prefix now
        (whole session.request.total_bytes (combine faults t.objects (parts_of upload_id t) 0)) t
        (claim_upload device upload_id t) writes (refl, refl, refl, refl))
