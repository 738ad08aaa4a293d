-- ===== src/Upload/Parts.antt =====
-- What `create_upload_session` and `put_upload_part` (services/enrichment/app/authoritative.py)
-- promise to a device that repeats its calls.
use challanse_website.Prelude.{
  ℕ, ℤ, pos, negsuc, abs, nat_beq_iff, String, ◌≡◌, ◌≢◌, refl, sym, ap, ◌∙◌, ◌==◌, ◌⊎◌, inl, inr,
  true, Option, none, some, List, [], ◌∷◌, ◌++◌, arith, min, ◌-◌, ◌*◌, ◌<◌, ◌&&◌, ◌||◌, ltb, leb,
  ◌!=◌, Bool-cases, Option-cases, length, find?, find?-append_none, Result, ok, err, string_eq,
  nat_eq,
}
use challanse_website.Upload.{
  UploadPart, UploadSession, Tables, ObjectKey, part_key, image_key, DeviceContext, own_session,
  opened, session_beq, SessionStatus,
}
use challanse_website.Upload.Sessions.{
  put_object, store_part, put_checked, check_part, expected_length, put_upload_part, same_part,
  put_open,
}

-- What a part that was accepted satisfies, for a session of so many bytes.
abbrev pub FitsIn : ℕ → UploadPart → Type 0
FitsIn total part =
    (part.byte_offset ≡ part.part_number * 256_000)
    × (part.byte_offset < total)
    × (part.byte_length ≡ min 256_000 (total - part.byte_offset))

-- The tables after a part of an upload was accepted: as before if the part was there already, and
-- otherwise with its row at the end and its bytes in the object store, where no other object changes.
abbrev pub IsAccepted : ℕ → ℕ → ℕ → List ℕ → String → Tables → Tables → Type 0
IsAccepted total upload_id n body hash t t' =
    ((row : UploadPart) × (t' ≡ t)
      × (find? (same_part upload_id n) t.parts ≡ some row)
      × (row.sha256 ≡ hash)
      × (row.byte_length ≡ length body))
    ⊎ ((part : UploadPart) × (t' ≡ record t { parts = t.parts ++ part ∷ []; objects = t'.objects })
        × FitsIn total part
        × (part.upload_id ≡ upload_id)
        × (part.part_number ≡ n)
        × (part.byte_length ≡ length body)
        × (part.sha256 ≡ hash)
        × (t'.objects (part_key upload_id n) ≡ some body)
        × ((k : ObjectKey) → k ≢ part_key upload_id n → t'.objects k ≡ t.objects k))

put_object-other :
    (u n : ℕ) (body : List ℕ) (t : Tables) (k : ObjectKey)
    → k ≢ part_key u n
    → (put_object (part_key u n) body t).objects k ≡ t.objects k
put_object-other u n body t (image_key s) other = refl
put_object-other u n body t (part_key u' n') other = elim (Bool-cases (u == u' && n == n')) [
  | inr e ↦ rw e refl
  | inl e ↦
      let first : u' ≡ u = sym ((nat_beq_iff u u').0 (ground (arith, e))) in
      let second : n' ≡ n = sym ((nat_beq_iff n n').0 (ground (arith, e))) in
      absurd (other (ap (λ i. part_key i n') first ∙ ap (part_key u) second))
]

session_beq-opened : (s : SessionStatus) → session_beq s opened ≡ true → s ≡ opened
session_beq-opened SessionStatus.opened h = refl
session_beq-opened SessionStatus.completing h = ground (arith, h)
session_beq-opened SessionStatus.complete h = ground (arith, h)
session_beq-opened SessionStatus.expired h = ground (arith, h)
session_beq-opened SessionStatus.failed h = ground (arith, h)

module _ (sha256 : List ℕ → String) where
  -- The session that takes parts of an upload.
  abbrev pub part_session : DeviceContext → ℕ → ℕ → Tables → Option UploadSession
  part_session device upload_id now t =
      find? (λ row. own_session device upload_id row && ltb now row.expires_at) t.sessions

  -- The request is refused with the error, or it stored the part.
  abbrev pub Judges : ℕ → ℕ → ℤ → List ℕ → String → Tables → Result (Unit {0}) × Tables → Type 0
  Judges total upload_id n body hash t (ok u, t') =
      (m : ℕ) × (n ≡ pos m) × (hash ≡ sha256 body) × IsAccepted total upload_id m body hash t t'
  Judges total upload_id n body hash t (err e, t') = t' ≡ t

  store_part-Judges :
      (total upload_id n : ℕ) (body : List ℕ) (hash : String) (stored : Option String) (t : Tables)
      (found : Option UploadPart)
      → find? (same_part upload_id n) t.parts ≡ found
      → n * 256_000 < total
      → length body ≡ min 256_000 (total - n * 256_000)
      → hash ≡ sha256 body
      → Judges total upload_id
          (pos n)
          body
          hash
          t
          (store_part sha256 upload_id n (n * 256_000) body stored found t)
  unfolding store_part
  store_part-Judges total upload_id n body hash stored t (some row) there low fits same =
      elim (Bool-cases (row.sha256 != sha256 body || row.byte_length != length body)) [
        | inl e ↦ rw e refl
        | inr e ↦ rw e (
          n,
          refl,
          same,
          inl (
            row,
            refl,
            there,
            ground (arith, same, e, string_eq.same_iff row.sha256 (sha256 body)),
            ground (arith, e),
          ),
        )
      ]
  store_part-Judges total upload_id n body hash (some e) t none there low fits same = refl
  store_part-Judges total upload_id n body hash none t none there low fits same = (
    n,
    refl,
    same,
    inr (
      _,
      refl,
      (refl, low, fits),
      refl,
      refl,
      refl,
      sym same,
      ground arith,
      put_object-other upload_id n body t,
    ),
  )

  put_checked-Judges :
      (total upload_id : ℕ) (n : ℤ) (body : List ℕ) (hash : String) (stored : Option String)
      (t : Tables)
      → Judges total upload_id n body hash t
          (put_checked sha256 upload_id (abs n) body stored (check_part sha256 total n body hash) t)
  unfolding put_checked check_part
  put_checked-Judges total upload_id (negsuc n) body hash stored t = refl
  put_checked-Judges total upload_id (pos n) body hash stored t =
      elim (Bool-cases (leb total (n * 256_000))) [
        | inl e ↦ rw e refl
        | inr e ↦ rw e (elim (Bool-cases (length body != expected_length total (n * 256_000))) [
          | inl f ↦ rw f refl
          | inr f ↦ rw f (elim (Bool-cases (sha256 body != hash)) [
            | inl g ↦ rw g refl
            | inr g ↦ rw g (
                store_part-Judges total upload_id n body hash stored t
                  (find? (same_part upload_id n) t.parts) refl (ground arith) (ground arith)
                  (ground (arith, string_eq.same_iff (sha256 body) hash)))
          ])
        ])
      ]

  -- `put_upload_part` refuses and changes nothing unless the device's session is there, open and
  -- not expired. Then it refuses with nothing changed, or the number is not negative, the declared
  -- hash is that of the body and either the same part was there and nothing changes, or the part is
  -- added: its offset is its number times 256000 and below the total, its length is the rest of the
  -- image or 256000, whichever is less, and its bytes are in the object store. Nothing else in the
  -- tables and no other object changes.
  pub put_upload_part-Judges :
      (device : DeviceContext) (upload_id : ℕ) (n : ℤ) (body : List ℕ) (hash : String)
      (stored : Option String) (now : ℕ) (t : Tables)
      → let reply = put_upload_part sha256 device upload_id n body hash stored now t in
        (reply ≡ (err "UPLOAD_NOT_OPEN", t))
        ⊎ ((session : UploadSession) × (part_session device upload_id now t ≡ some session)
            × (session.status ≡ opened)
            × Judges session.request.total_bytes upload_id n body hash t reply)
  unfolding put_upload_part put_open
  put_upload_part-Judges device upload_id n body hash stored now t =
      elim (Option-cases (part_session device upload_id now t)) [
        | inl e ↦ rw e (inl refl)
        | inr (session, e) ↦ rw e (elim (Bool-cases (session_beq session.status opened)) [
          | inl f ↦ rw f (
              inr (
                session,
                refl,
                session_beq-opened session.status f,
                put_checked-Judges session.request.total_bytes upload_id n body hash stored t,
              ))
          | inr f ↦ rw f (inl refl)
        ])
      ]

  store_part-sessions :
      (upload_id n : ℕ) (body : List ℕ) (stored : Option String) (t : Tables)
      (found : Option UploadPart)
      → (store_part sha256 upload_id n (n * 256_000) body stored found t).1.sessions ≡ t.sessions
  unfolding store_part
  store_part-sessions upload_id n body (some e) t none = refl
  store_part-sessions upload_id n body none t none = refl
  store_part-sessions upload_id n body stored t (some row) = refl

  -- A part that was accepted is there.
  store_part-found :
      (upload_id n : ℕ) (body : List ℕ) (stored stored' : Option String) (t : Tables)
      (found : Option UploadPart)
      → find? (same_part upload_id n) t.parts ≡ found
      → let (r, t') = store_part sha256 upload_id n (n * 256_000) body stored found t in
        r ≡ ok tt
        → store_part sha256 upload_id n
            (n * 256_000)
            body
            stored'
            (find? (same_part upload_id n) t'.parts)
            t'
          ≡ (ok tt, t')
  unfolding store_part
  store_part-found upload_id n body stored stored' t (some row) e h = rw e (ap (λ r. (r, t)) h)
  store_part-found upload_id n body (some x) stored' t none e h = ground (arith, h)
  store_part-found upload_id n body none stored' t none e h =
      rw
        (find?-append_none (same_part upload_id n) t.parts
          (record {
            upload_id = upload_id;
            part_number = n;
            byte_offset = n * 256_000;
            byte_length = length body;
            sha256 = sha256 body;
          })
          e (ground arith))
        (ground (arith, string_eq.same_iff (sha256 body) (sha256 body)))

  put_checked-found :
      (upload_id n : ℕ) (body : List ℕ) (stored stored' : Option String) (t : Tables)
      (checked : Result (Unit {0}))
      → (put_checked sha256 upload_id n body stored checked t).0 ≡ ok tt
      → let t' = (put_checked sha256 upload_id n body stored checked t).1 in
        (put_checked sha256 upload_id n body stored' checked t' ≡ (ok tt, t'))
        × (t'.sessions ≡ t.sessions)
  unfolding put_checked
  put_checked-found upload_id n body stored stored' t (err e) h = ground (arith, h)
  put_checked-found upload_id n body stored stored' t (ok u) h = (
    store_part-found upload_id n body stored stored' t (find? (same_part upload_id n) t.parts) refl
        h,
    store_part-sessions upload_id n body stored t (find? (same_part upload_id n) t.parts),
  )

  put_open-found :
      (upload_id : ℕ) (n : ℤ) (body : List ℕ) (hash : String) (stored stored' : Option String)
      (t : Tables) (found : Option UploadSession)
      → (put_open sha256 upload_id n body hash stored found t).0 ≡ ok tt
      → let t' = (put_open sha256 upload_id n body hash stored found t).1 in
        (put_open sha256 upload_id n body hash stored' found t' ≡ (ok tt, t'))
        × (t'.sessions ≡ t.sessions)
  unfolding put_open
  put_open-found upload_id n body hash stored stored' t none h = ground (arith, h)
  put_open-found upload_id n body hash stored stored' t (some session) h =
      elim (Bool-cases (session_beq session.status opened)) [
        | inl e ↦ rw e (
            put_checked-found upload_id (abs n) body stored stored' t
              (check_part sha256 session.request.total_bytes n body hash) (rw e at h))
        | inr e ↦ ground (arith, rw e at h)
      ]

  -- A part that was accepted may be sent again, after the answer was lost: if the session has not
  -- expired between the two requests, the second is accepted too and changes nothing, whatever the
  -- object store would answer then.
  put_upload_part-again :
      (device : DeviceContext) (upload_id : ℕ) (n : ℤ) (body : List ℕ) (hash : String)
      (stored stored' : Option String) (now later : ℕ) (t : Tables)
      → (put_upload_part sha256 device upload_id n body hash stored now t).0 ≡ ok tt
      → part_session device upload_id later t ≡ part_session device upload_id now t
      → let t' = (put_upload_part sha256 device upload_id n body hash stored now t).1 in
        put_upload_part sha256 device upload_id n body hash stored' later t' ≡ (ok tt, t')
  unfolding put_upload_part
  put_upload_part-again device upload_id n body hash stored stored' now later t h same =
      let found = part_session device upload_id now t in
      let (again, sessions) = put_open-found upload_id n body hash stored stored' t found h in
      rw sessions (rw same again)
