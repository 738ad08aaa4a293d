-- ===== src/Upload/Accepts.antt =====
-- When `put_upload_part` (services/enrichment/app/authoritative.py) accepts a part.
use challanse_website.Prelude.{
  ℕ, pos, String, ◌≡◌, refl, Option, none, some, List, arith, min, ◌-◌, ◌*◌, ◌<◌, length, find?, ok,
  string_eq, nat_eq,
}
use challanse_website.Upload.{UploadPart, UploadSession, Tables, DeviceContext, opened}
use challanse_website.Upload.Sessions.{
  store_part, put_checked, check_part, put_open, put_upload_part, same_part,
}
use challanse_website.Upload.Parts.{part_session}

module _ (sha256 : List ℕ → String) where
  -- The part is not there yet and the object store takes it, or it is there as it is sent.
  abbrev pub HasRoom : List ℕ → Option String → Option UploadPart → Type 0
  HasRoom body stored none = stored ≡ none
  HasRoom body stored (some row) = (row.sha256 ≡ sha256 body) × (row.byte_length ≡ length body)

  store_part-ok :
      (upload_id n offset : ℕ) (body : List ℕ) (stored : Option String) (found : Option UploadPart)
      (t : Tables)
      → HasRoom body stored found
      → (store_part sha256 upload_id n offset body stored found t).0 ≡ ok tt
  unfolding store_part
  store_part-ok upload_id n offset body stored (some row) t h =
      ground (arith, h, string_eq.same_iff row.sha256 (sha256 body))
  store_part-ok upload_id n offset body none none t h = refl
  store_part-ok upload_id n offset body (some e) none t h = ground (arith, h)

  check_part-ok :
      (total n : ℕ) (body : List ℕ) (hash : String)
      → n * 256_000 < total
      → length body ≡ min 256_000 (total - n * 256_000)
      → sha256 body ≡ hash
      → check_part sha256 total (pos n) body hash ≡ ok tt
  unfolding check_part
  check_part-ok total n body hash low fits same =
      ground (arith, low, fits, same, string_eq.same_iff (sha256 body) hash)

  -- A part of the device's open session that has not expired is accepted if its offset lies in the
  -- image, it is as long as the rest of the image or 256000 bytes, whichever is less, the declared
  -- hash is that of the body, and it is there already in the same form or it is new and the object
  -- store takes it.
  put_upload_part-accepts :
      (device : DeviceContext) (upload_id n : ℕ) (body : List ℕ) (hash : String)
      (stored : Option String) (now : ℕ) (t : Tables) (session : UploadSession)
      → part_session sha256 device upload_id now t ≡ some session
      → session.status ≡ opened
      → n * 256_000 < session.request.total_bytes
      → length body ≡ min 256_000 (session.request.total_bytes - n * 256_000)
      → sha256 body ≡ hash
      → HasRoom body stored (find? (same_part upload_id n) t.parts)
      → (put_upload_part sha256 device upload_id (pos n) body hash stored now t).0 ≡ ok tt
  unfolding put_upload_part put_open put_checked
  put_upload_part-accepts device upload_id n body hash stored now t session found is_opened low fits
        same room =
      rw found (
        rw is_opened (
          rw (check_part-ok session.request.total_bytes n body hash low fits same) (
            store_part-ok upload_id n (n * 256_000) body stored
              (find? (same_part upload_id n) t.parts) t room)))
