-- ===== src/Signed/Verified.antt =====
-- What a verified service request is (`verify_service_request` of services/enrichment/app/security.py).
use challanse_website.Devices.{distance}
use challanse_website.Ingress.{ServiceRequest}
use challanse_website.Signed.{
  Crypto, SignedRequest, key_for, sign_service_request, verify_timed, verify_service_request,
}
use challanse_website.Prelude.{
  ℕ, String, ◌≡◌, refl, inl, inr, false, Option, none, some, List, arith, ◌≤◌, ◌||◌, ltb, ◌==◌,
  ◌!=◌, Bool-cases, nat_eq, string_eq,
}

module _ (crypto : Crypto) where
  -- The request with the hash of its payload and the signature of its sender
  abbrev pub signed_by : String → SignedRequest → SignedRequest
  signed_by secret q =
      let content = crypto.sha256 q.payload in
      record q {
        content_sha256 = content;
        signature =
            sign_service_request crypto secret q.timestamp q.request_id q.key_id q.method q.path
              content;
      }

  -- A request that is signed with the secret of its key, which is not empty, has an id and a timestamp
  -- that is read and at most a minute from the clock, is verified as the request with its id, its key
  -- and the hash of its payload.
  pub verify-sign :
      (keys : List (String × String)) (q : SignedRequest) (seconds timestamp : ℕ)
      → crypto.int q.timestamp ≡ some timestamp
      → distance seconds timestamp ≤ 60
      → key_for keys q.key_id == "" ≡ false
      → q.request_id == "" ≡ false
      → verify_service_request crypto keys (signed_by (key_for keys q.key_id) q) seconds
        ≡ some (record {
          request_id = q.request_id;
          key_id = q.key_id;
          content_sha256 = crypto.sha256 q.payload;
        })
  unfolding verify_service_request verify_timed
  verify-sign keys q seconds timestamp read fresh secret id =
      let content = crypto.sha256 q.payload in
      let signature =
        sign_service_request crypto (key_for keys q.key_id) q.timestamp q.request_id q.key_id
          q.method q.path content in
      rw read (
        rw secret (
          rw id (
            rw ((string_eq.same_iff content content).1 refl)
              (rw ((string_eq.same_iff signature signature).1 refl) (ground (arith, fresh))))))

  -- Only such a request is verified: its fields are those of the request, its timestamp is read and at
  -- most a minute from the clock.
  verify_timed-fresh :
      (keys : List (String × String)) (q : SignedRequest) (seconds : ℕ) (read : Option ℕ)
      (v : ServiceRequest)
      → verify_timed crypto keys q seconds read ≡ some v
      → (v.request_id ≡ q.request_id) × ((t : ℕ) × (read ≡ some t) × (distance seconds t ≤ 60))
  unfolding verify_timed
  verify_timed-fresh keys q seconds none v h = ground (arith, h)
  verify_timed-fresh keys q seconds (some t) v h =
      elim (Bool-cases (
        key_for keys q.key_id == ""
        || q.request_id == ""
        || ltb 60 (distance seconds t)
        || crypto.sha256 q.payload != q.content_sha256)) [
          | inl e ↦ let k = rw e at h in ground (arith, k)
          | inr e ↦
              let k = rw e at h in
              elim (Bool-cases (
                sign_service_request crypto (key_for keys q.key_id) q.timestamp q.request_id
                  q.key_id q.method q.path (crypto.sha256 q.payload)
                != q.signature)) [
                  | inl f ↦ let l = rw f at k in ground (arith, l)
                  | inr f ↦ let l = rw f at k in (ground (arith, l), (t, refl, ground (arith, e)))
                ]
        ]

  pub verified-fresh :
      (keys : List (String × String)) (q : SignedRequest) (seconds : ℕ) (v : ServiceRequest)
      → verify_service_request crypto keys q seconds ≡ some v
      → (v.request_id ≡ q.request_id)
        × ((t : ℕ) × (crypto.int q.timestamp ≡ some t) × (distance seconds t ≤ 60))
  unfolding verify_service_request
  verified-fresh keys q seconds v h = verify_timed-fresh keys q seconds (crypto.int q.timestamp) v h
