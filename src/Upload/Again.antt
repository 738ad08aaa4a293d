-- ===== src/Upload/Again.antt =====
-- A device that asks `complete_upload_session` (services/enrichment/app/authoritative.py) once more,
-- and one that calls `create_upload_session` once more.
use challanse_website.Prelude.{
  ℕ, String, ◌≡◌, ◌∙◌, ap, refl, subst, inl, inr, Bool, true, false, Option, none, some, List, [],
  ◌∷◌, arith, ◌&&◌, ◌==◌, ◌!=◌, Bool-cases, find?, update, find?-All, find?-IsNone, All-mono,
  All-always, Result, ok, err, if◌then◌else◌, nat_eq, string_eq,
}
use challanse_website.Upload.Complete.{
  Texts, complete_upload_session, complete_claimed, answer_completed, Faults, Completion, is_open,
  is_webp, commit_receipt, commit_checked, record_receipt, set_status, set_upload_status,
  finish_upload, clean_parts, remove_object, store_image, complete_body, set_final_key,
  claim_upload, whole, combine,
}
use challanse_website.Upload.{
  DeviceContext, UploadSession, UploadPart, SessionStatus, Tables, complete, opened, completing,
  failed, session_beq, image_key,
}
use challanse_website.Upload.Sessions.{put_object, parts_of}
use challanse_website.Upload.Recorded.{IsComplete, complete-HasRecorded}
use challanse_website.Upload.Atomic.{own_session-id}

-- The receipt of the first session that has the property
abbrev receipt_in : (UploadSession → Bool) → List UploadSession → Option ℕ
receipt_in p [] = none
receipt_in p (x ∷ xs) = if p x then some x.request.receipt_id else receipt_in p xs

receipt_in-find? :
    (p : UploadSession → Bool) (rows : List UploadSession) (r : ℕ)
    → receipt_in p rows ≡ some r
    → (row : UploadSession) × (find? p rows ≡ some row) × (row.request.receipt_id ≡ r)
receipt_in-find? p [] r h = ground (arith, h)
receipt_in-find? p (x ∷ xs) r h = elim (Bool-cases (p x)) [
  | inl e ↦ (x, rw e refl, let k = rw e at h in ground (arith, k))
  | inr e ↦ let (row, found, same) = receipt_in-find? p xs r (rw e at h) in (row, rw e found, same)
]

find?-receipt_in :
    (p : UploadSession → Bool) (rows : List UploadSession) (row : UploadSession)
    → find? p rows ≡ some row
    → receipt_in p rows ≡ some row.request.receipt_id
find?-receipt_in p [] row h = ground (arith, h)
find?-receipt_in p (x ∷ xs) row h = elim (Bool-cases (p x)) [
  | inl e ↦
      let k : some x ≡ some row = rw e at h in
      let same : x ≡ row = ground (arith, k) in
      rw e (ap (λ (s : UploadSession). some s.request.receipt_id) same)
  | inr e ↦ rw e (find?-receipt_in p xs row (rw e at h))
]

-- The session that a device reads by its id
abbrev pub reads : DeviceContext → ℕ → UploadSession → Bool
reads device upload_id row = row.id == upload_id && row.device_id == device.id

receipt_in-update :
    (p q : UploadSession → Bool) (f : UploadSession → UploadSession) (rows : List UploadSession)
    → ((x : UploadSession) → (p (f x) ≡ p x) × ((f x).request.receipt_id ≡ x.request.receipt_id))
    → receipt_in p (update q f rows) ≡ receipt_in p rows
receipt_in-update p q f [] same = refl
receipt_in-update p q f (x ∷ xs) same = ground (arith, same x, receipt_in-update p q f xs same)

module _ (texts : Texts) where
  not_open :
      (device : DeviceContext) (upload_id : ℕ) (row : UploadSession)
      → (row.id ≡ upload_id → row.status ≡ complete)
      → is_open device upload_id row ≡ false
  not_open device upload_id row h = elim (Bool-cases (row.id == upload_id)) [
    | inl e ↦ ground (arith, h (ground arith))
    | inr e ↦ rw e refl
  ]

  -- A session that is complete is not completed again: the answer is a duplicate with the session's
  -- receipt, whatever the object store does, and nothing is written.
  pub complete_again :
      (faults : Faults) (device : DeviceContext) (upload_id : ℕ) (date_prefix : String) (now : ℕ)
      (t : Tables) (row : UploadSession)
      → IsComplete texts upload_id t
      → find? (λ row. row.id == upload_id && row.device_id == device.id) t.sessions ≡ some row
      → complete_upload_session texts faults device upload_id date_prefix now t
        ≡ (ok (record { receipt_id = row.request.receipt_id; duplicate = true }), t)
  unfolding complete_upload_session complete_claimed answer_completed
  complete_again faults device upload_id date_prefix now t row done found =
      let P = λ (row : UploadSession). row.id ≡ upload_id → row.status ≡ complete in
      let (finished, same) =
        find?-All P (λ row. row.id == upload_id && row.device_id == device.id) t.sessions row done
          found in
      let status = finished (ground (arith, same)) in
      rw
        (find?-IsNone (is_open device upload_id) t.sessions (
          All-mono P (λ row. is_open device upload_id row ≡ false) t.sessions
            (not_open device upload_id) done))
        (rw found (rw status refl))

  -- What an update of sessions that keeps ids, devices and requests leaves
  commit-reads :
      (device : DeviceContext) (upload_id : ℕ) (session : UploadSession) (key : String)
      (body : List ℕ) (now : ℕ) (t : Tables)
      → receipt_in
          (reads device upload_id)
          (commit_receipt texts device session key body now t).1.sessions
        ≡ receipt_in (reads device upload_id) t.sessions
  unfolding commit_receipt commit_checked record_receipt
  commit-reads device upload_id session key body now t = ground (
    arith,
    receipt_in-update (reads device upload_id) (λ row. row.id == session.id)
        (λ row. record row { status = complete }) t.sessions (λ x. (refl, refl)),
  )

  status-reads :
      (device : DeviceContext) (upload_id id : ℕ) (next : SessionStatus) (t : Tables)
      → receipt_in (reads device upload_id) (set_status device id next t).sessions
        ≡ receipt_in (reads device upload_id) t.sessions
  unfolding set_upload_status
  status-reads device upload_id id next t =
      receipt_in-update (reads device upload_id) _ (λ row. record row { status = next }) t.sessions
        (λ x. (refl, refl))

  finish-reads :
      (faults : Faults) (device : DeviceContext) (upload_id : ℕ) (session : UploadSession)
      (key : String) (parts : List UploadPart) (o : Result (Unit {0}) × Tables)
      → receipt_in
          (reads device upload_id)
          (finish_upload texts faults device session key parts o).1.sessions
        ≡ receipt_in (reads device upload_id) o.1.sessions
  unfolding finish_upload clean_parts
  finish-reads faults device upload_id session key parts (err e, t) =
      status-reads device upload_id session.id opened (remove_object texts faults (image_key key) t)
  finish-reads faults device upload_id session key parts (ok u, t) = refl

  store-reads :
      (faults : Faults) (device : DeviceContext) (upload_id : ℕ) (session : UploadSession)
      (key : String) (parts : List UploadPart) (body : List ℕ) (now : ℕ) (fault : Option String)
      (t : Tables)
      → receipt_in
          (reads device upload_id)
          (store_image texts faults device session key parts body now fault t).1.sessions
        ≡ receipt_in (reads device upload_id) t.sessions
  unfolding store_image
  store-reads faults device upload_id session key parts body now (some e) t = refl
  store-reads faults device upload_id session key parts body now none t =
      let start = put_object (image_key key) body t in
      finish-reads faults device upload_id session key parts
        (commit_receipt texts device session key body now start)
      ∙ commit-reads device upload_id session key body now start

  body-reads :
      (faults : Faults) (device : DeviceContext) (upload_id : ℕ) (session : UploadSession)
      (parts : List UploadPart) (date_prefix : String) (now : ℕ) (combined : Result (List ℕ))
      (t : Tables)
      → receipt_in
          (reads device upload_id)
          (complete_body texts faults device session parts date_prefix now combined t).1.sessions
        ≡ receipt_in (reads device upload_id) t.sessions
  unfolding complete_body
  body-reads faults device upload_id session parts date_prefix now (err e) t =
      status-reads device upload_id session.id opened t
  body-reads faults device upload_id session parts date_prefix now (ok body) t =
      let key =
        texts.image_name device.organization_id device.site_id date_prefix
          session.request.receipt_id in
      elim (Bool-cases (is_webp body)) [
        | inr e ↦ rw e (status-reads device upload_id session.id failed t)
        | inl e ↦ rw e (elim (Bool-cases (texts.sha256 body != session.request.image_sha256)) [
          | inl f ↦ rw f (status-reads device upload_id session.id failed t)
          | inr f ↦ rw f (
              store-reads faults device upload_id session key parts body now
                (faults.writes (image_key key)) (set_final_key texts session.id key t)
              ∙ receipt_in-update (reads device upload_id)
                  (λ row. row.id == session.id && session_beq row.status completing)
                  (λ row. record row { final_object_key = some key }) t.sessions
                  (λ x. (refl, refl)))
        ])
      ]

  complete-reads :
      (faults : Faults) (device : DeviceContext) (upload_id : ℕ) (date_prefix : String) (now : ℕ)
      (t : Tables) (found : Option UploadSession)
      → receipt_in
          (reads device upload_id)
          (complete_claimed texts faults device upload_id date_prefix now found t).1.sessions
        ≡ receipt_in (reads device upload_id) t.sessions
  unfolding complete_claimed claim_upload
  complete-reads faults device upload_id date_prefix now t none = refl
  complete-reads faults device upload_id date_prefix now t (some session) =
      let parts = parts_of upload_id t in
      body-reads faults device upload_id session parts date_prefix now
        (whole session.request.total_bytes (combine faults t.objects parts 0))
        (claim_upload device upload_id t)
      ∙ receipt_in-update (reads device upload_id) (is_open device upload_id)
          (λ row. record row { status = completing }) t.sessions (λ x. (refl, refl))

  session-reads :
      (faults : Faults) (device : DeviceContext) (upload_id : ℕ) (date_prefix : String) (now : ℕ)
      (t : Tables) (session : UploadSession)
      → find? (reads device upload_id) t.sessions ≡ some session
      → receipt_in
          (reads device upload_id)
          (complete_upload_session texts faults device upload_id date_prefix now t).1.sessions
        ≡ some session.request.receipt_id
  unfolding complete_upload_session
  session-reads faults device upload_id date_prefix now t session read =
      complete-reads faults device upload_id date_prefix now t
        (find? (is_open device upload_id) t.sessions)
      ∙ find?-receipt_in (reads device upload_id) t.sessions session read

  -- If the completion of a session, which is open and the one that the device reads by its id, answers
  -- without an error, then a second call of `complete_upload_session` with any object store at any
  -- time answers that the receipt of the session is a duplicate and changes nothing.
  pub complete_twice :
      (faults faults' : Faults) (device : DeviceContext) (upload_id : ℕ)
      (date_prefix date_prefix' : String) (now later : ℕ) (t : Tables) (session : UploadSession)
      (c : Completion)
      → find? (is_open device upload_id) t.sessions ≡ some session
      → find? (reads device upload_id) t.sessions ≡ some session
      → let reply = complete_upload_session texts faults device upload_id date_prefix now t in
        reply.0 ≡ ok c
        → complete_upload_session texts faults' device upload_id date_prefix' later reply.1
          ≡ (ok (record { receipt_id = session.request.receipt_id; duplicate = true }), reply.1)
  complete_twice faults faults' device upload_id date_prefix date_prefix' now later t session c
        found read h =
      let after = (complete_upload_session texts faults device upload_id date_prefix now t).1 in
      let (body, cut, long, webp, hashed, (answer, within, recorded, done)) =
        complete-HasRecorded texts faults device upload_id date_prefix now t session c found h in
      let (p, same) =
        find?-All (λ row. Unit {0}) (is_open device upload_id) t.sessions session
          (All-always (λ row. Unit {0}) t.sessions (λ row. tt)) found in
      let (row, again, receipt) =
        receipt_in-find? (reads device upload_id) after.sessions session.request.receipt_id
          (session-reads faults device upload_id date_prefix now t session read) in
      complete_again faults' device upload_id date_prefix' later after row
        (subst (λ i. IsComplete texts i after) (own_session-id device upload_id session same) done)
        again
      ∙ ap (λ r. (ok (record { receipt_id = r; duplicate = true }), after)) receipt
