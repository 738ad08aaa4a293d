-- ===== src/Upload.antt =====
-- Resumable uploads of a receipt image: `create_upload_session` of
-- services/enrichment/app/authoritative.py, and the tables that the uploads read and write. The object
-- store is a dictionary of byte strings. The parts are in the module `Sessions`, the completion in
-- `Complete`.
pub mod Sessions
pub mod Complete
pub mod Combined
pub mod Atomic
pub mod Recorded
pub mod Again
pub mod Succeeds
pub mod Accepts
pub mod Resume
pub mod Parts
mod Tests
use challanse_website.Audit.{AuditEvent}
use challanse_website.Pipeline.{
  OutboxRow, ReceiptStatus, received, needs_review, verified, rejected,
}
use challanse_website.Prelude.{
  ℕ, String, Bool, Option, none, some, List, [], ◌∷◌, ◌++◌, min, ◌+◌, ◌-◌, ◌*◌, ◌&&◌, ◌||◌, ltb,
  leb, nat_beq, ◌==◌, ◌!=◌, length, find?, exists_in, Result, ok, err, Action, if◌then◌else◌,
  nat_eq, string_eq, map, select, sort_by, by_key,
}

-- `DeviceContext`
pub record DeviceContext : Type 0 where
  pub id : ℕ
  pub organization_id : ℕ
  pub site_id : ℕ

-- `UploadSessionRequest`
pub record UploadSessionRequest : Type 0 where
  pub receipt_id : ℕ
  pub vendor_id : String
  pub captured_at_unix : ℕ
  pub captured_quantity : ℕ
  pub image_sha256 : String
  pub app_version : String
  pub configuration_version : ℕ
  pub total_bytes : ℕ

pub data SessionStatus : Type 0 where
  opened completing complete expired failed : SessionStatus

abbrev pub session_code : SessionStatus → ℕ
session_code opened = 0
session_code completing = 1
session_code complete = 2
session_code expired = 3
session_code failed = 4

abbrev pub session_beq : SessionStatus → SessionStatus → Bool
session_beq a b = nat_beq (session_code a) (session_code b)

-- A row of `upload_sessions`; the metadata is the request that opened it.
pub record UploadSession : Type 0 where
  pub id : ℕ
  pub organization_id : ℕ
  pub site_id : ℕ
  pub device_id : ℕ
  pub request : UploadSessionRequest
  pub final_object_key : Option String
  pub integrity_status : String
  pub status : SessionStatus
  pub expires_at : ℕ

-- A row of `upload_parts`; the object key of a part follows from its upload and number.
pub record UploadPart : Type 0 where
  pub upload_id : ℕ
  pub part_number : ℕ
  pub byte_offset : ℕ
  pub byte_length : ℕ
  pub sha256 : String

-- The columns of `receipts` that an upload writes.
pub record Receipt : Type 0 where
  pub id : ℕ
  pub organization_id : ℕ
  pub site_id : ℕ
  pub device_id : ℕ
  pub vendor_id : String
  pub image_key : String
  pub image_bytes : ℕ
  pub image_sha256 : String
  pub status : ReceiptStatus
  pub integrity_status : String
  pub created_at : ℕ

pub record Organization : Type 0 where
  pub active : Bool
  pub daily_receipt_limit : ℕ
  pub storage_byte_limit : ℕ
  pub stored_image_bytes : ℕ

pub record Site : Type 0 where
  pub organization_id : ℕ
  pub active : Bool
  pub daily_receipt_limit : ℕ
  pub image_byte_limit : ℕ

pub record Vendor : Type 0 where
  pub id : String
  pub organization_id : ℕ
  pub site_id : ℕ
  pub active : Bool

-- A key of the object store: a part of an upload, or a final image.
pub data ObjectKey : Type 0 where
  part_key : ℕ → ℕ → ObjectKey
  image_key : String → ObjectKey

-- The tables and the object store.
pub record Tables : Type 0 where
  pub sessions : List UploadSession
  pub parts : List UploadPart
  pub receipts : List Receipt
  pub organizations : ℕ → Option Organization
  pub sites : ℕ → Option Site
  pub vendors : List Vendor
  pub objects : ObjectKey → Option (List ℕ)
  pub audit_events : List AuditEvent
  pub outbox : List OutboxRow
  pub next_id : ℕ

abbrev pub upload_part_size : ℕ
upload_part_size = 256_000

-- `WHERE id = … AND organization_id = … AND site_id = … AND device_id = …`
abbrev pub own_session : DeviceContext → ℕ → UploadSession → Bool
own_session device upload_id row =
    row.id == upload_id
    && row.organization_id == device.organization_id
    && row.site_id == device.site_id
    && row.device_id == device.id

abbrev pub own_receipt : DeviceContext → ℕ → Receipt → Bool
own_receipt device r row =
    row.organization_id == device.organization_id
    && row.site_id == device.site_id
    && row.device_id == device.id
    && row.id == r

abbrev pub session_for : DeviceContext → ℕ → UploadSession → Bool
session_for device r row =
    row.organization_id == device.organization_id
    && row.site_id == device.site_id
    && row.device_id == device.id
    && row.request.receipt_id == r

-- What `create_upload_session` answers: the receipt is there already, or the session to go on with.
pub data SessionReply : Type 0 where
  already : ℕ → ReceiptStatus → SessionReply
  upload : ℕ → ℕ → SessionStatus → ℕ → SessionReply

abbrev answer_receipt : UploadSessionRequest → Receipt → Result SessionReply
answer_receipt request row =
    if row.image_sha256 != request.image_sha256
    then err "RECEIPT_CHECKSUM_CONFLICT"
    else ok (already row.id row.status)

abbrev answer_session : UploadSessionRequest → UploadSession → Result SessionReply
answer_session request row =
    if row.request.image_sha256 != request.image_sha256
    then err "UPLOAD_CHECKSUM_CONFLICT"
    else ok (upload row.id request.receipt_id row.status upload_part_size)

-- The joined row of the site and its organization, if both are active.
pub record UploadPolicy : Type 0 where
  pub site_daily_limit : ℕ
  pub image_byte_limit : ℕ
  pub organization_daily_limit : ℕ
  pub storage_byte_limit : ℕ
  pub stored_image_bytes : ℕ

abbrev policy_row : DeviceContext → Option Site → Option Organization → Option UploadPolicy
policy_row device none o = none
policy_row device (some s) none = none
policy_row device (some s) (some o) =
    if s.organization_id == device.organization_id && s.active && o.active
    then some (record {
      site_daily_limit = s.daily_receipt_limit;
      image_byte_limit = s.image_byte_limit;
      organization_daily_limit = o.daily_receipt_limit;
      storage_byte_limit = o.storage_byte_limit;
      stored_image_bytes = o.stored_image_bytes;
    })
    else none

pub upload_policy : DeviceContext → Tables → Option UploadPolicy
upload_policy device t =
    policy_row device (t.sites device.site_id) (t.organizations device.organization_id)

abbrev known_vendor : DeviceContext → UploadSessionRequest → Tables → Bool
known_vendor device request t =
    exists_in
      (λ v.
        v.organization_id == device.organization_id
        && v.site_id == device.site_id
        && v.id == request.vendor_id
        && v.active)
      t.vendors

-- The tests on a new upload; `n > limit * 0.9` in whole bytes.
unfoldable pub check_policy :
    Option UploadPolicy → DeviceContext → UploadSessionRequest → Tables → Result (Unit {0})
check_policy none device request t = err "SITE_INACTIVE"
check_policy (some policy) device request t =
    if ltb policy.image_byte_limit request.total_bytes
    then err "IMAGE_TOO_LARGE"
    else if ltb (policy.storage_byte_limit * 9)
        ((policy.stored_image_bytes + request.total_bytes) * 10)
    then err "TENANT_STORAGE_PAUSED"
    else if known_vendor device request t
    then ok tt
    else err "INVALID_VENDOR"

abbrev hours : ℕ → ℕ
hours n = n * 3_600_000_000

abbrev pub new_session : DeviceContext → UploadSessionRequest → String → ℕ → ℕ → UploadSession
new_session device request integrity_status id now = record {
  id = id;
  organization_id = device.organization_id;
  site_id = device.site_id;
  device_id = device.id;
  request = request;
  final_object_key = none;
  integrity_status = integrity_status;
  status = opened;
  expires_at = now + hours 24;
}

-- A receipt has one session: the column `receipt_id` is unique.
unfoldable pub open_session :
    DeviceContext
    → UploadSessionRequest
    → String
    → ℕ
    → Result (Unit {0})
    → Action Tables SessionReply
open_session device request integrity_status now (err e) t = (err e, t)
open_session device request integrity_status now (ok u) t =
    if exists_in (λ row. row.request.receipt_id == request.receipt_id) t.sessions
    then (err "UniqueViolation", t)
    else (
      ok (upload t.next_id request.receipt_id opened upload_part_size),
      record t {
        sessions = t.sessions ++ new_session device request integrity_status t.next_id now ∷ [];
        next_id = t.next_id + 1;
      },
    )

unfoldable pub create_new :
    DeviceContext
    → UploadSessionRequest
    → String
    → ℕ
    → Option UploadSession
    → Action Tables SessionReply
unfolding open_session check_policy upload_policy
create_new device request integrity_status now (some row) t = (answer_session request row, t)
create_new device request integrity_status now none t =
    open_session device request integrity_status now
      (check_policy (upload_policy device t) device request t) t

unfoldable pub create_or_resume :
    DeviceContext → UploadSessionRequest → String → ℕ → Option Receipt → Action Tables SessionReply
unfolding create_new
create_or_resume device request integrity_status now (some row) t = (answer_receipt request row, t)
create_or_resume device request integrity_status now none t =
    create_new device request integrity_status now
      (find? (session_for device request.receipt_id) t.sessions) t

-- `paused` is what `local_uploads_paused` says of the local disk.
unfoldable pub create_upload_session :
    Bool → DeviceContext → UploadSessionRequest → String → ℕ → Action Tables SessionReply
unfolding create_or_resume
create_upload_session paused device request integrity_status now t =
    if paused
    then (err "LOCAL_STORAGE_LIMIT_REACHED", t)
    else create_or_resume device request integrity_status now
        (find? (own_receipt device request.receipt_id) t.receipts) t
