-- ===== src/Signed/Tests.antt =====
-- A signed request that is verified, and comes a second time.
use Prim.Native.String.{◌++◌ as append}
use challanse_website.Signed.{
  Crypto, SignedRequest, ServiceSettings, canonical_request, sign_service_request, verify_timed,
  verify_service_request, verify_access_service_token, consume_service_nonce, admit_verified,
  verify_internal_request,
}
use challanse_website.Signed.Verified.{signed_by, verify-sign}
use challanse_website.Signed.Once.{run, request_admitted_once}
use challanse_website.Prelude.{◌≡◌, refl, true, false, some, [], ◌∷◌, arith, err, is_ok}

abbrev crypto : Crypto
crypto = record {
  hmac = λ secret t. append secret t;
  sha256 = λ t. t;
  upper = λ t. t;
  int = λ t. some 100;
}

abbrev settings : ServiceSettings
settings = record {
  production = true;
  access_client_id = "id";
  access_client_secret = "pw";
  hmac_keys = ("k", "s") ∷ [];
  has_database = true;
}

abbrev request : SignedRequest
request = record {
  access_id = "id";
  access_secret = "pw";
  signature = "";
  timestamp = "100";
  request_id = "r";
  key_id = "k";
  method = "GET";
  path = "/v1";
  content_sha256 = "";
  payload = "body";
}

abbrev signed : SignedRequest
signed = signed_by crypto "s" request

verify-sign_example :
    verify_service_request crypto settings.hmac_keys signed 120
    ≡ some (record { request_id = "r"; key_id = "k"; content_sha256 = "body" })
verify-sign_example =
    verify-sign crypto settings.hmac_keys request 120 100 refl (omega arith) refl refl

-- The lines are joined in the order of the source.
canonical : canonical_request crypto "1" "r" "k" "GET" "/p" "h" ≡ "1\nr\nk\nGET\n/p\nh"
canonical = refl

request_admitted_once_example :
    let after =
      run crypto settings
        ((record signed { request_id = "q" }, 120_000_001) ∷ [])
        (verify_internal_request crypto settings signed 120_000_000 []).1 in
    is_ok (verify_internal_request crypto settings signed 130_000_000 after).0 ≡ false
unfolding verify_internal_request verify_service_request verify_timed sign_service_request
    verify_access_service_token consume_service_nonce admit_verified
request_admitted_once_example =
    request_admitted_once crypto settings signed signed 120_000_000 130_000_000
      ((record signed { request_id = "q" }, 120_000_001) ∷ []) [] refl refl refl refl (omega arith)
      (omega arith, tt)

-- A request with a wrong signature is refused.
forged :
    (verify_internal_request crypto settings (record signed { signature = "x" }) 120_000_000 []).0
    ≡ err "invalid_service_signature"
unfolding verify_internal_request verify_service_request verify_timed sign_service_request
    verify_access_service_token consume_service_nonce admit_verified
forged = refl
