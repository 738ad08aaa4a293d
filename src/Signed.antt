-- ===== src/Signed.antt =====
-- Signed service requests: services/enrichment/app/security.py, and `_verify_internal_request` of
-- services/enrichment/app/main.py.
pub mod Verified
pub mod Once
mod Tests
use Prim.Native.String.{◌++◌ as append}
use challanse_website.Devices.{distance, minute}
use challanse_website.Ingress.{ServiceRequest}
use challanse_website.Prelude.{
  ℕ, String, Bool, true, false, not, Option, none, some, List, [], ◌∷◌, ◌++◌, ◌+◌, ◌*◌, ◌/◌, ◌&&◌,
  ◌||◌, ltb, ◌==◌, ◌!=◌, is_some, find?, delete, exists_in, Result, ok, err, Action, if◌then◌else◌,
  nat_eq, string_eq,
}

-- HMAC-SHA256 and SHA-256 in hexadecimal, `str.upper`, and `int` of a text, `none` for one that it does
-- not read. A negative number is older than a minute, so it is `none` as well.
pub record Crypto : Type 0 where
  pub hmac : String → String → String
  pub sha256 : String → String
  pub upper : String → String
  pub int : String → Option ℕ

-- The method and path of a request, and its headers
pub record SignedRequest : Type 0 where
  pub access_id : String
  pub access_secret : String
  pub signature : String
  pub timestamp : String
  pub request_id : String
  pub key_id : String
  pub method : String
  pub path : String
  pub content_sha256 : String
  pub payload : String

pub record ServiceSettings : Type 0 where
  pub production : Bool
  pub access_client_id : String
  pub access_client_secret : String
  pub hmac_keys : List (String × String)
  pub has_database : Bool

-- A row of `service_request_nonces`
pub record ServiceNonce : Type 0 where
  pub request_id : String
  pub expires_at : ℕ

abbrev pub secret_of : Option (String × String) → String
secret_of none = ""
secret_of (some (id, secret)) = secret

-- `keys.get(key_id, "")`
abbrev pub key_for : List (String × String) → String → String
key_for keys id = secret_of (find? (λ k. k.0 == id) keys)

-- `"\n".join`
abbrev pub join_lines : List String → String
join_lines [] = ""
join_lines (t ∷ []) = t
join_lines (t ∷ u ∷ rest) = append t (append "\n" (join_lines (u ∷ rest)))

-- `database_url` is set when the table is used.
unfoldable pub consume_service_nonce : ServiceRequest → ℕ → Action (List ServiceNonce) Bool
consume_service_nonce q now rows =
    let kept = delete (λ n. ltb n.expires_at now) rows in
    if exists_in (λ n. n.request_id == q.request_id) kept then (ok false, kept) else (
      ok true,
      kept ++ record { request_id = q.request_id; expires_at = now + 10 * minute } ∷ [],
    )

unfoldable pub verify_access_service_token : String → String → String → String → Bool
verify_access_service_token expected_id expected_secret supplied_id supplied_secret =
    if expected_id == "" || expected_secret == "" || supplied_id == "" || supplied_secret == ""
    then false
    else expected_id == supplied_id && expected_secret == supplied_secret

abbrev pub admit_nonce :
    String → Result Bool × List ServiceNonce → Result String × List ServiceNonce
admit_nonce payload (err e, rows) = (err e, rows)
admit_nonce payload (ok true, rows) = (ok payload, rows)
admit_nonce payload (ok false, rows) = (err "request_replayed", rows)

abbrev pub admit_verified :
    ServiceSettings → SignedRequest → ℕ → Option ServiceRequest → Action (List ServiceNonce) String
unfolding consume_service_nonce
admit_verified settings q now none rows = (err "invalid_service_signature", rows)
admit_verified settings q now (some verified) rows =
    if settings.has_database
    then admit_nonce q.payload (consume_service_nonce verified now rows)
    else if settings.production
    then (err "replay_store_unavailable", rows)
    else (ok q.payload, rows)

module _ (crypto : Crypto) where
  abbrev pub canonical_request : String → String → String → String → String → String → String
  canonical_request timestamp request_id key_id method path content_sha256 =
      join_lines
        (timestamp ∷ request_id ∷ key_id ∷ crypto.upper method ∷ path ∷ content_sha256 ∷ [])

  unfoldable pub sign_service_request :
      String → String → String → String → String → String → String → String
  sign_service_request secret timestamp request_id key_id method path content_sha256 =
      crypto.hmac secret (canonical_request timestamp request_id key_id method path content_sha256)

  abbrev pub verify_timed :
      List (String × String) → SignedRequest → ℕ → Option ℕ → Option ServiceRequest
  unfolding sign_service_request
  verify_timed keys q seconds none = none
  verify_timed keys q seconds (some timestamp) =
      let secret = key_for keys q.key_id in
      let content = crypto.sha256 q.payload in
      if secret == ""
        || q.request_id == ""
        || ltb 60 (distance seconds timestamp)
        || content != q.content_sha256
      then none
      else if sign_service_request secret q.timestamp q.request_id q.key_id q.method q.path content
          != q.signature
      then none
      else some (record { request_id = q.request_id; key_id = q.key_id; content_sha256 = content })

  unfoldable pub verify_service_request :
      List (String × String) → SignedRequest → ℕ → Option ServiceRequest
  verify_service_request keys q seconds = verify_timed keys q seconds (crypto.int q.timestamp)

  -- The clocks of the program and of the database agree.
  unfoldable pub verify_internal_request :
      ServiceSettings → SignedRequest → ℕ → Action (List ServiceNonce) String
  unfolding verify_service_request verify_access_service_token
  verify_internal_request settings q now rows =
      if settings.production
        && not (
            verify_access_service_token settings.access_client_id settings.access_client_secret
              q.access_id q.access_secret)
      then (err "invalid_access_service_token", rows)
      else admit_verified settings q now
          (verify_service_request settings.hmac_keys q (now / 1_000_000)) rows
