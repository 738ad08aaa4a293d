-- ===== src/Upload/Recorded.antt =====
-- What `complete_upload_session` (services/enrichment/app/authoritative.py) has done when it answers
-- that a receipt is new.
use challanse_website.Prelude.{
  ℕ, String, ◌≡◌, refl, sym, inl, inr, true, false, Option, none, some, List, [], ◌∷◌, ◌++◌, arith,
  ◌+◌, ◌*◌, ◌/◌, ◌≤◌, ◌<◌, ◌&&◌, ltb, leb, ◌==◌, ◌!=◌, Bool-cases, length, find?, All, exists_in,
  All-updated, Result, ok, err, nat_eq, string_eq,
}
use challanse_website.Upload.Complete.{
  add_stored, Completion, Texts, check_limits, new_receipt, received_audit, count_today, new_outbox,
  upload_storage_limit, commit_checked, record_receipt, commit_receipt, Faults, finish_upload,
  clean_parts, store_image, complete_body, whole, complete_upload_session, is_webp,
  complete_claimed, set_final_key, claim_upload, is_open, combine,
}
use challanse_website.Upload.{
  DeviceContext, Tables, UploadSession, UploadPolicy, upload_policy, complete, UploadPart,
  session_beq, completing, image_key,
}
use challanse_website.Upload.Sessions.{put_object, parts_of}
use challanse_website.Audit.{append_event}
use challanse_website.Upload.Combined.{IsCut, combine-IsCut}

abbrev Outcome : Type 0
Outcome = Result Completion × Tables

-- The receipt, its audit event, its outbox row and the quota counter, all of them for the body.
abbrev pub IsRecorded :
    Texts → DeviceContext → UploadSession → List ℕ → ℕ → Tables → Tables → Type 0
IsRecorded texts device session body now t t' =
    (key : String) × (t'.receipts ≡ t.receipts ++ new_receipt texts session key body now ∷ [])
    × (t'.audit_events
        ≡ append_event texts.chain_sha256 (received_audit texts session body t.next_id) now
            t.audit_events)
    × (t'.outbox ≡ t.outbox ++ new_outbox texts session key body (t.next_id + 1) now ∷ [])
    × (t'.organizations session.organization_id
        ≡ add_stored (length body) (t.organizations session.organization_id))

-- The limits that a new receipt of the size keeps, in the tables before it.
abbrev pub IsWithin : DeviceContext → UploadSession → ℕ → ℕ → Tables → Type 0
IsWithin device session size now t =
    (policy : UploadPolicy) × (upload_policy device t ≡ some policy)
    × ((policy.stored_image_bytes + size) * 10 ≤ policy.storage_byte_limit * 9)
    × (count_today (λ row. row.site_id == session.site_id) now t.receipts < policy.site_daily_limit)
    × (count_today (λ row. row.organization_id == session.organization_id) now t.receipts
        < policy.organization_daily_limit)
    × (exists_in (λ row. row.id == session.request.receipt_id) t.receipts ≡ false)

nine_tenths : (limit n : ℕ) → n ≤ limit * 9 / 10 → n * 10 ≤ limit * 9
nine_tenths limit n h = omega arith

check_limits-IsWithin :
    (device : DeviceContext) (session : UploadSession) (size now : ℕ) (t : Tables)
    (found : Option UploadPolicy)
    → upload_policy device t ≡ found
    → check_limits session size now t found ≡ ok tt
    → IsWithin device session size now t
unfolding check_limits
check_limits-IsWithin device session size now t none e h = ground (arith, h)
check_limits-IsWithin device session size now t (some policy) e h =
    elim (Bool-cases (
      leb policy.site_daily_limit
        (count_today (λ row. row.site_id == session.site_id) now t.receipts))) [
          | inl a ↦ ground (arith, rw a at h)
          | inr a ↦
              elim (Bool-cases (
                leb policy.organization_daily_limit (
                  count_today (λ row. row.organization_id == session.organization_id) now
                    t.receipts))) [
                      | inl b ↦ ground (arith, rw b at rw a at h)
                      | inr b ↦
                          elim (Bool-cases (
                            ltb (upload_storage_limit policy) (policy.stored_image_bytes + size))) [
                              | inl c ↦ ground (arith, rw c at rw b at rw a at h)
                              | inr c ↦
                                  elim (Bool-cases (
                                    exists_in (λ row. row.id == session.request.receipt_id)
                                      t.receipts)) [
                                        | inl d ↦ ground (arith, rw d at rw c at rw b at rw a at h)
                                        | inr d ↦ (
                                          policy,
                                          e,
                                          nine_tenths policy.storage_byte_limit
                                              (policy.stored_image_bytes + size) (ground arith),
                                          ground arith,
                                          ground arith,
                                          d,
                                        )
                                      ]
                            ]
                    ]
        ]

module _ (texts : Texts) where
  -- Every row with the id of the upload is COMPLETE.
  abbrev pub IsComplete : ℕ → Tables → Type 0
  IsComplete upload_id t = All (λ row. row.id ≡ upload_id → row.status ≡ complete) t.sessions

  abbrev pub HasRecorded :
      DeviceContext → UploadSession → List ℕ → ℕ → Tables → Completion → Tables → Type 0
  HasRecorded device session body now t c t' =
      (c ≡ record { receipt_id = session.request.receipt_id; duplicate = false })
      × IsWithin device session (length body) now t
      × IsRecorded texts device session body now t t'
      × IsComplete session.id t'

  commit_checked-ok :
      (device : DeviceContext) (session : UploadSession) (key : String) (body : List ℕ) (now : ℕ)
      (checked : Result (Unit {0})) (t : Tables)
      → checked ≡ check_limits session (length body) now t (upload_policy device t)
      → (commit_checked texts session key body now checked t).0 ≡ ok tt
      → let t' = (commit_checked texts session key body now checked t).1 in
        IsWithin device session (length body) now t
        × IsRecorded texts device session body now t t'
        × IsComplete session.id t'
  unfolding commit_checked record_receipt
  commit_checked-ok device session key body now (err e) t same h = ground (arith, h)
  commit_checked-ok device session key body now (ok u) t same h = (
    check_limits-IsWithin device session (length body) now t (upload_policy device t) refl
        (sym same),
    (key, refl, refl, refl, ground arith),
    All-updated (λ (row : UploadSession). row.id ≡ session.id → row.status ≡ complete) _ _
        t.sessions (λ row e same_id. refl) (λ row e same_id. ground arith),
  )

  commit_receipt-ok :
      (device : DeviceContext) (session : UploadSession) (key : String) (body : List ℕ) (now : ℕ)
      (t : Tables)
      → (commit_receipt texts device session key body now t).0 ≡ ok tt
      → let t' = (commit_receipt texts device session key body now t).1 in
        IsWithin device session (length body) now t
        × IsRecorded texts device session body now t t'
        × IsComplete session.id t'
  unfolding commit_receipt
  commit_receipt-ok device session key body now t h =
      elim (Bool-cases (
        exists_in
          (λ row.
            row.id == session.id && row.device_id == device.id && session_beq row.status completing)
          t.sessions)) [
            | inr e ↦ ground (arith, rw e at h)
            | inl e ↦ rw e (
                commit_checked-ok device session key body now
                  (check_limits session (length body) now t (upload_policy device t)) t refl
                  (rw e at h))
          ]

  finish_upload-ok :
      (faults : Faults) (device : DeviceContext) (session : UploadSession) (key : String)
      (parts : List UploadPart) (t : Tables) (r : Result (Unit {0})) (c : Completion)
      → let reply = finish_upload texts faults device session key parts (r, t) in
        reply.0 ≡ ok c
        → (r ≡ ok tt)
          × (c ≡ record { receipt_id = session.request.receipt_id; duplicate = false })
          × (reply.1 ≡ clean_parts texts faults session.id parts t)
  unfolding finish_upload
  finish_upload-ok faults device session key parts t (err e) c h = ground (arith, h)
  finish_upload-ok faults device session key parts t (ok u) c h = (refl, ground (arith, h), refl)

  store_image-HasRecorded :
      (faults : Faults) (device : DeviceContext) (session : UploadSession) (key : String)
      (parts : List UploadPart) (body : List ℕ) (now : ℕ) (fault : Option String) (t : Tables)
      (c : Completion)
      → let reply = store_image texts faults device session key parts body now fault t in
        reply.0 ≡ ok c → HasRecorded device session body now t c reply.1
  unfolding store_image clean_parts
  store_image-HasRecorded faults device session key parts body now (some e) t c h =
      ground (arith, h)
  store_image-HasRecorded faults device session key parts body now none t c h =
      let start = put_object (image_key key) body t in
      let reply = commit_receipt texts device session key body now start in
      let (good, answer, after) =
        finish_upload-ok faults device session key parts reply.1 reply.0 c h in
      let (within, recorded, done) = commit_receipt-ok device session key body now start good in
      rw after (answer, within, recorded, done)

  -- What the last step is given: the combined body passed the tests.
  complete_body-HasRecorded :
      (faults : Faults) (device : DeviceContext) (session : UploadSession) (parts : List UploadPart)
      (date_prefix : String) (now : ℕ) (combined : Result (List ℕ)) (t : Tables) (c : Completion)
      → let reply = complete_body texts faults device session parts date_prefix now combined t in
        reply.0 ≡ ok c
        → (body : List ℕ) × (combined ≡ ok body)
          × (is_webp body ≡ true)
          × (texts.sha256 body ≡ session.request.image_sha256)
          × HasRecorded device session body now t c reply.1
  unfolding complete_body
  complete_body-HasRecorded faults device session parts date_prefix now (err e) t c h =
      ground (arith, h)
  complete_body-HasRecorded faults device session parts date_prefix now (ok body) t c h =
      let key =
        texts.image_name device.organization_id device.site_id date_prefix
          session.request.receipt_id in
      elim (Bool-cases (is_webp body)) [
        | inr e ↦ ground (arith, rw e at h)
        | inl e ↦ elim (Bool-cases (texts.sha256 body != session.request.image_sha256)) [
          | inl f ↦ ground (arith, rw f at rw e at h)
          | inr f ↦ rw e (
              rw f (
                body,
                refl,
                e,
                ground (arith, string_eq.same_iff (texts.sha256 body) session.request.image_sha256),
                store_image-HasRecorded faults device session key parts body now
                    (faults.writes (image_key key)) (set_final_key texts session.id key t) c
                    (rw f at rw e at h),
              ))
        ]
      ]

  whole-ok :
      (total : ℕ) (combined : Result (List ℕ)) (body : List ℕ)
      → whole total combined ≡ ok body
      → (combined ≡ ok body) × (length body ≡ total)
  whole-ok total (err e) body h = ground (arith, h)
  whole-ok total (ok xs) body h = elim (Bool-cases (length xs != total)) [
    | inl e ↦ ground (arith, rw e at h)
    | inr e ↦ (ground (arith, rw e at h), ground (arith, rw e at h))
  ]

  -- If the device's session is open and `complete_upload_session` answers without an error, then
  -- the parts of the upload cut one body: they follow one another from offset 0, and each is in the
  -- object store at its recorded length. The body has the size and the hash that the session was
  -- opened with and is a WebP file. The answer is that the receipt is new. The limits held before:
  -- the stored bytes with the new image are at most 90 % of the organization's limit, the site and
  -- the organization had fewer receipts today than theirs, and no receipt had the id. One receipt,
  -- one audit event and one outbox row are added, all for this body, the counter grows by its
  -- size, and every session row of the upload is COMPLETE.
  pub complete-HasRecorded :
      (faults : Faults) (device : DeviceContext) (upload_id : ℕ) (date_prefix : String) (now : ℕ)
      (t : Tables) (session : UploadSession) (c : Completion)
      → find? (is_open device upload_id) t.sessions ≡ some session
      → let reply = complete_upload_session texts faults device upload_id date_prefix now t in
        reply.0 ≡ ok c
        → (body : List ℕ) × IsCut t.objects (parts_of upload_id t) 0 body
          × (length body ≡ session.request.total_bytes)
          × (is_webp body ≡ true)
          × (texts.sha256 body ≡ session.request.image_sha256)
          × HasRecorded device session body now t c reply.1
  unfolding complete_upload_session complete_claimed claim_upload
  complete-HasRecorded faults device upload_id date_prefix now t session c found h = rw found (
      let parts = parts_of upload_id t in
      let combined = combine faults t.objects parts 0 in
      let (body, good, webp, hashed, recorded) =
        complete_body-HasRecorded faults device session parts date_prefix now
          (whole session.request.total_bytes combined) (claim_upload device upload_id t) c
          (rw found at h) in
      let (joined, long) = whole-ok session.request.total_bytes combined body good in
      (body, combine-IsCut faults t.objects parts 0 body joined, long, webp, hashed, recorded))
