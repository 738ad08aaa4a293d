-- ===== src/Upload/Sessions.antt =====
-- The parts of an upload: `put_upload_part` and `get_upload_session` of
-- services/enrichment/app/authoritative.py.
use challanse_website.Prelude.{
  ℕ, ℤ, pos, negsuc, abs, String, Bool, Option, none, some, List, [], ◌∷◌, ◌++◌, min, ◌+◌, ◌-◌, ◌*◌,
  ◌&&◌, ◌||◌, ltb, leb, ◌==◌, ◌!=◌, length, find?, Result, ok, err, Action, if◌then◌else◌, nat_eq,
  string_eq, map, select, sort_by, by_key,
}
use challanse_website.Upload.{
  DeviceContext, ObjectKey, SessionStatus, Tables, UploadPart, UploadSession, image_key, opened,
  own_session, part_key, session_beq, upload_part_size,
}

abbrev pub part_of : ℕ → UploadPart → Bool
part_of upload_id row = row.upload_id == upload_id

abbrev pub same_part : ℕ → ℕ → UploadPart → Bool
same_part upload_id n row = row.upload_id == upload_id && row.part_number == n

-- The length of the part that begins at the offset.
abbrev pub expected_length : ℕ → ℕ → ℕ
expected_length total offset = min upload_part_size (total - offset)

abbrev pub put_object : ObjectKey → List ℕ → Tables → Tables
put_object (part_key u n) body t = record t {
  objects = λ k. elim k [
    | part_key u' n' ↦ if u == u' && n == n' then some body else t.objects (part_key u' n')
    | image_key s ↦ t.objects (image_key s)
  ];
}
put_object (image_key s) body t = record t {
  objects = λ k. elim k [
    | part_key u n ↦ t.objects (part_key u n)
    | image_key s' ↦ if s == s' then some body else t.objects (image_key s')
  ];
}

module _ (sha256 : List ℕ → String) where
  -- A part that is there already is left alone, if it is the same. `stored` is the exception, if
  -- there is one, that the object store answers `_s3_put` with.
  unfoldable pub store_part :
      ℕ → ℕ → ℕ → List ℕ → Option String → Option UploadPart → Action Tables (Unit {0})
  store_part upload_id n offset body stored (some row) t = (
    (if row.sha256 != sha256 body || row.byte_length != length body
        then err "PART_CONFLICT"
        else ok tt),
    t,
  )
  store_part upload_id n offset body (some e) none t = (err e, t)
  store_part upload_id n offset body none none t = (
    ok tt,
    record (put_object (part_key upload_id n) body t) {
      parts =
          t.parts
          ++ record {
            upload_id = upload_id;
            part_number = n;
            byte_offset = offset;
            byte_length = length body;
            sha256 = sha256 body;
          }
            ∷ [];
    },
  )

  unfoldable pub check_part : ℕ → ℤ → List ℕ → String → Result (Unit {0})
  check_part total (negsuc n) body declared_hash = err "PART_OUT_OF_RANGE"
  check_part total (pos n) body declared_hash =
      let offset = n * upload_part_size in
      if leb total offset
      then err "PART_OUT_OF_RANGE"
      else if length body != expected_length total offset
      then err "PART_LENGTH_MISMATCH"
      else if sha256 body != declared_hash
      then err "PART_CHECKSUM_MISMATCH"
      else ok tt

  unfoldable pub put_checked :
      ℕ → ℕ → List ℕ → Option String → Result (Unit {0}) → Action Tables (Unit {0})
  unfolding store_part
  put_checked upload_id n body stored (err e) t = (err e, t)
  put_checked upload_id n body stored (ok u) t =
      store_part upload_id n (n * upload_part_size) body stored
        (find? (same_part upload_id n) t.parts) t

  -- A negative part number fails the check, so the number that is stored is not negative.
  unfoldable pub put_open :
      ℕ → ℤ → List ℕ → String → Option String → Option UploadSession → Action Tables (Unit {0})
  unfolding put_checked check_part
  put_open upload_id n body declared_hash stored none t = (err "UPLOAD_NOT_OPEN", t)
  put_open upload_id n body declared_hash stored (some session) t =
      if session_beq session.status opened
      then put_checked upload_id (abs n) body stored
          (check_part session.request.total_bytes n body declared_hash) t
      else (err "UPLOAD_NOT_OPEN", t)

  unfoldable pub put_upload_part :
      DeviceContext → ℕ → ℤ → List ℕ → String → Option String → ℕ → Action Tables (Unit {0})
  unfolding put_open
  put_upload_part device upload_id n body declared_hash stored now t =
      put_open upload_id n body declared_hash stored
        (find? (λ row. own_session device upload_id row && ltb now row.expires_at) t.sessions) t

abbrev sum : List ℕ → ℕ
sum [] = 0
sum (n ∷ ns) = n + sum ns

unfoldable pub parts_of : ℕ → Tables → List UploadPart
parts_of upload_id t =
    sort_by (by_key (λ part. part.part_number)) (select (part_of upload_id) t.parts)

-- The answer of `get_upload_session`.
pub record UploadProgress : Type 0 where
  pub upload_id : ℕ
  pub receipt_id : ℕ
  pub status : SessionStatus
  pub total_bytes : ℕ
  pub uploaded_bytes : ℕ
  pub parts : List UploadPart

progress_of : ℕ → Option UploadSession → Tables → Result UploadProgress
unfolding parts_of
progress_of upload_id none t = err "UPLOAD_NOT_FOUND"
progress_of upload_id (some session) t = ok (record {
  upload_id = upload_id;
  receipt_id = session.request.receipt_id;
  status = session.status;
  total_bytes = session.request.total_bytes;
  uploaded_bytes = sum (map (λ part. part.byte_length) (parts_of upload_id t));
  parts = parts_of upload_id t;
})

unfoldable pub get_upload_session : DeviceContext → ℕ → Tables → Result UploadProgress
unfolding progress_of
get_upload_session device upload_id t =
    progress_of upload_id (find? (own_session device upload_id) t.sessions) t
