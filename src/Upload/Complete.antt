-- ===== src/Upload/Complete.antt =====
-- The completion of an upload: `complete_upload_session` of services/enrichment/app/authoritative.py,
-- with `_set_upload_status` and `_is_webp`. Its five transactions follow one another here. The object
-- store may fail at any of its calls, as `Faults` says.
use challanse_website.Prelude.{
  ℕ, String, Bool, true, false, not, Option, none, some, List, [], ◌∷◌, ◌++◌, ◌+◌, ◌-◌, ◌*◌, ◌/◌,
  ◌%◌, ◌&&◌, ltb, leb, ◌==◌, ◌!=◌, length, find?, select, update, delete, exists_in, Result, ok,
  err, Action, if◌then◌else◌, nat_eq, string_eq,
}
use challanse_website.Upload.{
  ObjectKey, SessionStatus, DeviceContext, UploadPart, UploadPolicy, Receipt, UploadSession,
  Organization, upload_policy, Tables, session_beq, completing, own_session, part_key, hours,
  received, image_key, opened, complete, failed,
}
use challanse_website.Upload.Sessions.{part_of, parts_of, put_object}
use challanse_website.Pipeline.{
  OutboxRow, ReceiptEvent, receipt_enrichment_queue, event_payload, OutboxStatus,
}
use challanse_website.Audit.{Happening, append_event}

-- The exception, if there is one, that the object store answers with.
pub record Faults : Type 0 where
  pub reads : ObjectKey → Option String
  pub writes : ObjectKey → Option String
  pub deletes : ObjectKey → Option String

-- What the functions outside the repository answer: the SHA-256 of bytes and of a link of the audit
-- chain, the name of a final image, and the canonical JSON of the audit event for a size.
pub record Texts : Type 0 where
  pub sha256 : List ℕ → String
  pub chain_sha256 : String → String → String
  pub image_name : ℕ → ℕ → String → ℕ → String
  pub received_json : ℕ → String

unfoldable pub is_webp : List ℕ → Bool
is_webp (a ∷ b ∷ c ∷ d ∷ e ∷ f ∷ g ∷ h ∷ i ∷ j ∷ k ∷ l ∷ rest) =
    a == 82 && b == 73 && c == 70 && d == 70 && i == 87 && j == 69 && k == 66 && l == 80
is_webp xs = false

-- `_set_upload_status`
unfoldable pub set_upload_status :
    ℕ → ℕ → SessionStatus → SessionStatus → List UploadSession → List UploadSession
set_upload_status organization_id upload_id expected next rows =
    update
      (λ row.
        row.id == upload_id
        && row.organization_id == organization_id
        && session_beq row.status expected)
      (λ row. record row { status = next }) rows

abbrev pub set_status : DeviceContext → ℕ → SessionStatus → Tables → Tables
set_status device upload_id next t = record t {
  sessions = set_upload_status device.organization_id upload_id completing next t.sessions;
}

abbrev pub is_open : DeviceContext → ℕ → UploadSession → Bool
is_open device upload_id row = own_session device upload_id row && session_beq row.status opened

-- The session goes from OPEN to COMPLETING, in one statement.
unfoldable pub claim_upload : DeviceContext → ℕ → Tables → Tables
claim_upload device upload_id t = record t {
  sessions =
      update (is_open device upload_id) (λ row. record row { status = completing }) t.sessions;
}

abbrev pub answer_object : Option String → Option (List ℕ) → Result (List ℕ)
answer_object (some e) body = err e
answer_object none none = err "NoSuchKey"
answer_object none (some body) = ok body

abbrev join : List ℕ → Result (List ℕ) → Result (List ℕ)
join xs (ok ys) = ok (xs ++ ys)
join xs (err e) = err e

-- One turn of the loop over the parts, with what the turns after it answer.
abbrev add_part : UploadPart → Result (List ℕ) → (ℕ → Result (List ℕ)) → Result (List ℕ)
add_part part (err e) more = err e
add_part part (ok body) more =
    if length body != part.byte_length
    then err "UPLOAD_PART_MISSING"
    else join body (more (length body))

unfoldable pub combine :
    Faults → (ObjectKey → Option (List ℕ)) → List UploadPart → ℕ → Result (List ℕ)
combine faults objects [] confirmed_offset = ok []
combine faults objects (part ∷ parts) confirmed_offset =
    let key = part_key part.upload_id part.part_number in
    let rest = combine faults objects parts in
    if part.byte_offset != confirmed_offset
    then err "UPLOAD_INCOMPLETE"
    else add_part part (answer_object (faults.reads key) (objects key))
        (λ n. rest (confirmed_offset + n))

abbrev pub whole : ℕ → Result (List ℕ) → Result (List ℕ)
whole total (err e) = err e
whole total (ok body) = if length body != total then err "UPLOAD_INCOMPLETE" else ok body

-- Midnight before the time.
abbrev pub current_date : ℕ → ℕ
current_date now = now - now % hours 24

pub record Completion : Type 0 where
  pub receipt_id : ℕ
  pub duplicate : Bool

abbrev pub upload_storage_limit : UploadPolicy → ℕ
upload_storage_limit policy = policy.storage_byte_limit * 9 / 10

-- How many receipts of the organization, or the site, arrived today.
abbrev pub count_today : (Receipt → Bool) → ℕ → List Receipt → ℕ
count_today p now rows =
    length (select (λ row. p row && leb (current_date now) row.created_at) rows)

-- The tests of the last transaction, in their order.
unfoldable pub check_limits :
    UploadSession → ℕ → ℕ → Tables → Option UploadPolicy → Result (Unit {0})
check_limits session size now t none = err "SITE_INACTIVE"
check_limits session size now t (some policy) =
    if leb policy.site_daily_limit
      (count_today (λ row. row.site_id == session.site_id) now t.receipts)
    then err "DAILY_LIMIT"
    else if leb policy.organization_daily_limit
        (count_today (λ row. row.organization_id == session.organization_id) now t.receipts)
    then err "TENANT_DAILY_LIMIT"
    else if ltb (upload_storage_limit policy) (policy.stored_image_bytes + size)
    then err "TENANT_STORAGE_LIMIT"
    else if exists_in (λ row. row.id == session.request.receipt_id) t.receipts
    then err "UniqueViolation"
    else ok tt

abbrev pub add_stored : ℕ → Option Organization → Option Organization
add_stored size none = none
add_stored size (some o) = some (record o { stored_image_bytes = o.stored_image_bytes + size })

module _ (texts : Texts) where
  abbrev pub new_receipt : UploadSession → String → List ℕ → ℕ → Receipt
  new_receipt session key body now = record {
    id = session.request.receipt_id;
    organization_id = session.organization_id;
    site_id = session.site_id;
    device_id = session.device_id;
    vendor_id = session.request.vendor_id;
    image_key = key;
    image_bytes = length body;
    image_sha256 = texts.sha256 body;
    status = received;
    integrity_status = session.integrity_status;
    created_at = now;
  }

  abbrev pub receipt_event : UploadSession → String → List ℕ → ReceiptEvent
  receipt_event session key body = record {
    receipt_id = session.request.receipt_id;
    organization_id = session.organization_id;
    site_id = session.site_id;
    image_key = key;
    vendor_id = session.request.vendor_id;
    captured_at_unix = session.request.captured_at_unix;
    site_captured_quantity = session.request.captured_quantity;
    image_sha256 = texts.sha256 body;
    image_bytes = length body;
  }

  abbrev pub new_outbox : UploadSession → String → List ℕ → ℕ → ℕ → OutboxRow
  new_outbox session key body id now = record {
    id = id;
    organization_id = session.organization_id;
    aggregate_id = session.request.receipt_id;
    event_type = receipt_enrichment_queue;
    event_version = 1;
    payload = event_payload (receipt_event session key body);
    status = OutboxStatus.pending;
    attempts = 0;
    available_at = now;
    locked_until = none;
    delivered_at = none;
    last_error_code = none;
    created_at = now;
  }

  abbrev pub received_audit : UploadSession → List ℕ → ℕ → Happening
  received_audit session body id = record {
    id = id;
    organization_id = session.organization_id;
    site_id = session.site_id;
    receipt_id = some session.request.receipt_id;
    event_type = "RECEIVED";
    actor_id = session.device_id;
    event_json = texts.received_json (length body);
    source_class = "cloudflare";
  }

  -- What the last transaction writes.
  unfoldable pub record_receipt : UploadSession → String → List ℕ → ℕ → Tables → Tables
  record_receipt session key body now t = record t {
    organizations = λ o.
        (if o == session.organization_id
          then add_stored (length body) (t.organizations o)
          else t.organizations o);
    receipts = t.receipts ++ new_receipt session key body now ∷ [];
    audit_events =
        append_event texts.chain_sha256 (received_audit session body t.next_id) now t.audit_events;
    outbox = t.outbox ++ new_outbox session key body (t.next_id + 1) now ∷ [];
    next_id = t.next_id + 2;
    sessions =
        update (λ row. row.id == session.id) (λ row. record row { status = complete }) t.sessions;
  }

  unfoldable pub commit_checked :
      UploadSession → String → List ℕ → ℕ → Result (Unit {0}) → Action Tables (Unit {0})
  unfolding record_receipt
  commit_checked session key body now (err e) t = (err e, t)
  commit_checked session key body now (ok u) t = (ok tt, record_receipt session key body now t)

  -- The last transaction, which locks the session first.
  unfoldable pub commit_receipt :
      DeviceContext → UploadSession → String → List ℕ → ℕ → Action Tables (Unit {0})
  unfolding commit_checked check_limits upload_policy
  commit_receipt device session key body now t =
      if exists_in
        (λ row.
          row.id == session.id && row.device_id == device.id && session_beq row.status completing)
        t.sessions
      then commit_checked session key body now
          (check_limits session (length body) now t (upload_policy device t)) t
      else (err "UPLOAD_COMPLETION_CONFLICT", t)

  -- The object store after a deletion that answers so.
  abbrev pub without :
      Option String → ObjectKey → (ObjectKey → Option (List ℕ)) → ObjectKey → Option (List ℕ)
  without (some e) key objects = objects
  without none (image_key s) objects = λ k. elim k [
    | part_key u n ↦ objects (part_key u n)
    | image_key s' ↦ if s == s' then none else objects (image_key s')
  ]
  without none (part_key u n) objects = λ k. elim k [
    | part_key u' n' ↦ if u == u' && n == n' then none else objects (part_key u' n')
    | image_key s ↦ objects (image_key s)
  ]

  abbrev pub remove_object : Faults → ObjectKey → Tables → Tables
  remove_object faults key t = record t { objects = without (faults.deletes key) key t.objects }

  -- The objects of the parts are deleted, and their rows if every deletion succeeded.
  unfoldable pub delete_objects :
      Faults → List UploadPart → (ObjectKey → Option (List ℕ)) → ObjectKey → Option (List ℕ)
  delete_objects faults [] objects = objects
  delete_objects faults (part ∷ parts) objects =
      let key = part_key part.upload_id part.part_number in
      delete_objects faults parts (without (faults.deletes key) key objects)

  abbrev is_deleted : Faults → UploadPart → Bool
  is_deleted faults part = elim (faults.deletes (part_key part.upload_id part.part_number)) [
    | none ↦ true
    | some e ↦ false
  ]

  unfoldable pub clean_parts : Faults → ℕ → List UploadPart → Tables → Tables
  unfolding delete_objects
  clean_parts faults upload_id parts t = record t {
    objects = delete_objects faults parts t.objects;
    parts =
        (if exists_in (λ part. not (is_deleted faults part)) parts
          then t.parts
          else delete (part_of upload_id) t.parts);
  }

  unfoldable pub finish_upload :
      Faults
      → DeviceContext
      → UploadSession
      → String
      → List UploadPart
      → Result (Unit {0}) × Tables
      → Result Completion × Tables
  unfolding clean_parts
  finish_upload faults device session key parts (err e, t) =
      (err e, set_status device session.id opened (remove_object faults (image_key key) t))
  finish_upload faults device session key parts (ok u, t) = (
    ok (record { receipt_id = session.request.receipt_id; duplicate = false }),
    clean_parts faults session.id parts t,
  )

  unfoldable pub store_image :
      Faults
      → DeviceContext
      → UploadSession
      → String
      → List UploadPart
      → List ℕ
      → ℕ
      → Option String
      → Action Tables Completion
  unfolding finish_upload commit_receipt
  store_image faults device session key parts body now (some e) t = (err e, t)
  store_image faults device session key parts body now none t =
      finish_upload faults device session key parts
        (commit_receipt device session key body now (put_object (image_key key) body t))

  abbrev pub set_final_key : ℕ → String → Tables → Tables
  set_final_key upload_id key t = record t {
    sessions =
        update (λ row. row.id == upload_id && session_beq row.status completing)
          (λ row. record row { final_object_key = some key }) t.sessions;
  }

  unfoldable pub complete_body :
      Faults
      → DeviceContext
      → UploadSession
      → List UploadPart
      → String
      → ℕ
      → Result (List ℕ)
      → Action Tables Completion
  unfolding store_image
  complete_body faults device session parts date_prefix now (err e) t =
      (err e, set_status device session.id opened t)
  complete_body faults device session parts date_prefix now (ok body) t =
      let key =
        texts.image_name device.organization_id device.site_id date_prefix
          session.request.receipt_id in
      if not (is_webp body)
      then (err "INVALID_IMAGE", set_status device session.id failed t)
      else if texts.sha256 body != session.request.image_sha256
      then (err "CHECKSUM_MISMATCH", set_status device session.id failed t)
      else store_image faults device session key parts body now (faults.writes (image_key key))
          (set_final_key session.id key t)

  unfoldable pub answer_completed : Option UploadSession → Result Completion
  answer_completed none = err "UPLOAD_NOT_OPEN"
  answer_completed (some row) =
      if session_beq row.status complete
      then ok (record { receipt_id = row.request.receipt_id; duplicate = true })
      else err "UPLOAD_NOT_OPEN"

  unfoldable pub complete_claimed :
      Faults → DeviceContext → ℕ → String → ℕ → Option UploadSession → Action Tables Completion
  unfolding complete_body answer_completed parts_of
  complete_claimed faults device upload_id date_prefix now none t = (
    answer_completed (find? (λ row. row.id == upload_id && row.device_id == device.id) t.sessions),
    t,
  )
  complete_claimed faults device upload_id date_prefix now (some session) t =
      let parts = parts_of upload_id t in
      complete_body faults device session parts date_prefix now
        (whole session.request.total_bytes (combine faults t.objects parts 0))
        (claim_upload device upload_id t)

  unfoldable pub complete_upload_session :
      Faults → DeviceContext → ℕ → String → ℕ → Action Tables Completion
  unfolding complete_claimed
  complete_upload_session faults device upload_id date_prefix now t =
      complete_claimed faults device upload_id date_prefix now
        (find? (is_open device upload_id) t.sessions) t
