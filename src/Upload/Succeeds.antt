-- ===== src/Upload/Succeeds.antt =====
-- When `complete_upload_session` (services/enrichment/app/authoritative.py) answers without an
-- error.
use challanse_website.Prelude.{
  exists_in-update, ℕ, String, ◌≡◌, refl, Bool, true, false, none, some, List, [], ◌∷◌, arith, ◌&&◌,
  ◌==◌, ◌!=◌, length, find?, find?-All, All-always, update, exists_in, Result, ok, err, nat_eq,
  string_eq,
}
use challanse_website.Upload.{
  ObjectKey, DeviceContext, UploadSession, UploadPart, Tables, image_key, session_beq, completing,
  upload_policy,
}
use challanse_website.Upload.Sessions.{put_object, parts_of}
use challanse_website.Upload.Complete.{
  Texts, Faults, check_limits, commit_checked, commit_receipt, finish_upload, store_image,
  set_final_key, complete_body, whole, complete_claimed, complete_upload_session, is_open, is_webp,
  claim_upload, combine,
}
use challanse_website.Upload.Atomic.{own_session-id}
use challanse_website.Upload.Combined.{IsCut, combine-cut}

exists_in-updated :
    (p q : UploadSession → Bool) (f : UploadSession → UploadSession) (rows : List UploadSession)
    (row : UploadSession)
    → ((x : UploadSession) → q x ≡ true → p (f x) ≡ true)
    → find? q rows ≡ some row
    → exists_in p (update q f rows) ≡ true
exists_in-updated p q f [] row h found = ground (arith, found)
exists_in-updated p q f (x ∷ rows) row h found =
    ground (arith, h x, found, exists_in-updated p q f rows row h)

-- The session that the last transaction locks.
abbrev locks : DeviceContext → ℕ → UploadSession → Bool
locks device id row =
    row.id == id && row.device_id == device.id && session_beq row.status completing

module _ (texts : Texts) where
  claimed_locks :
      (device : DeviceContext) (upload_id : ℕ) (key : String) (t : Tables) (session : UploadSession)
      → find? (is_open device upload_id) t.sessions ≡ some session
      → session.id ≡ upload_id
      → exists_in
          (locks device session.id)
          (set_final_key texts session.id key (claim_upload device upload_id t)).sessions
        ≡ true
  unfolding claim_upload
  claimed_locks device upload_id key t session found same =
      rw
        (exists_in-update (locks device session.id)
          (λ row. row.id == session.id && session_beq row.status completing)
          (λ row. record row { final_object_key = some key })
          (claim_upload device upload_id t).sessions (λ x. refl))
        (exists_in-updated (locks device session.id) (is_open device upload_id)
          (λ row. record row { status = completing }) t.sessions session
          (λ x h. ground (arith, h, same)) found)

  commit_receipt-ok :
      (device : DeviceContext) (session : UploadSession) (key : String) (body : List ℕ) (now : ℕ)
      (t : Tables)
      → exists_in (locks device session.id) t.sessions ≡ true
      → check_limits session (length body) now t (upload_policy device t) ≡ ok tt
      → (commit_receipt texts device session key body now t).0 ≡ ok tt
  unfolding commit_receipt commit_checked
  commit_receipt-ok device session key body now t locked within = rw locked (rw within refl)

  finish_upload-answers :
      (faults : Faults) (device : DeviceContext) (session : UploadSession) (key : String)
      (parts : List UploadPart) (o : Result (Unit {0}) × Tables)
      → o.0 ≡ ok tt
      → (finish_upload texts faults device session key parts o).0
        ≡ ok (record { receipt_id = session.request.receipt_id; duplicate = false })
  unfolding finish_upload
  finish_upload-answers faults device session key parts (ok u, t) h = refl
  finish_upload-answers faults device session key parts (err e, t) h = ground (arith, h)

  found_own :
      (device : DeviceContext) (upload_id : ℕ) (t : Tables) (session : UploadSession)
      → find? (is_open device upload_id) t.sessions ≡ some session
      → session.id ≡ upload_id
  found_own device upload_id t session found =
      own_session-id device upload_id session
        (find?-All (λ row. Unit {0}) (is_open device upload_id) t.sessions session
          (All-always (λ row. Unit {0}) t.sessions (λ row. tt)) found).1

  hash_matches :
      (body : List ℕ) (session : UploadSession)
      → texts.sha256 body ≡ session.request.image_sha256
      → texts.sha256 body != session.request.image_sha256 ≡ false
  hash_matches body session h =
      ground (arith, h, string_eq.same_iff (texts.sha256 body) session.request.image_sha256)

  -- If the device's session is open, its parts cut a body that has the announced size and hash and is
  -- a WebP file, the limits leave room for it, and no read or write of the object store fails, then
  -- `complete_upload_session` answers that the receipt is new. Deletions may fail.
  pub complete-succeeds :
      (faults : Faults) (device : DeviceContext) (upload_id : ℕ) (date_prefix : String) (now : ℕ)
      (t : Tables) (session : UploadSession) (body : List ℕ)
      → find? (is_open device upload_id) t.sessions ≡ some session
      → IsCut t.objects (parts_of upload_id t) 0 body
      → length body ≡ session.request.total_bytes
      → is_webp body ≡ true
      → texts.sha256 body ≡ session.request.image_sha256
      → check_limits session (length body) now t (upload_policy device t) ≡ ok tt
      → ((key : ObjectKey) → faults.reads key ≡ none)
      → ((key : ObjectKey) → faults.writes key ≡ none)
      → (complete_upload_session texts faults device upload_id date_prefix now t).0
        ≡ ok (record { receipt_id = session.request.receipt_id; duplicate = false })
  unfolding complete_upload_session complete_claimed complete_body store_image
  complete-succeeds faults device upload_id date_prefix now t session body found cut long webp
        hashed within reads writes =
      let parts = parts_of upload_id t in
      let key =
        texts.image_name device.organization_id device.site_id date_prefix
          session.request.receipt_id in
      let claimed = set_final_key texts session.id key (claim_upload device upload_id t) in
      let own = found_own device upload_id t session found in
      let good : whole session.request.total_bytes (combine faults t.objects parts 0) ≡ ok body =
        rw (combine-cut faults t.objects parts 0 body reads cut) (ground (arith, long)) in
      rw found (
        rw good (
          rw webp (
            rw (hash_matches body session hashed) (
              rw writes (
                finish_upload-answers faults device session key parts
                  (commit_receipt texts device session key body now
                    (put_object (image_key key) body claimed))
                  (commit_receipt-ok device session key body now
                    (put_object (image_key key) body claimed)
                    (claimed_locks device upload_id key t session found own)
                    (unfold check_limits upload_policy claim_upload in within)))))))
