-- ===== src/Signed/Once.antt =====
-- That a signed request is admitted once (`_verify_internal_request` of
-- services/enrichment/app/main.py).
use challanse_website.Devices.{distance, minute}
use challanse_website.Ingress.{ServiceRequest}
use challanse_website.Signed.{
  Crypto, SignedRequest, ServiceSettings, ServiceNonce, consume_service_nonce,
  verify_service_request, verify_access_service_token, admit_nonce, admit_verified,
  verify_internal_request,
}
use challanse_website.Signed.Verified.{verified-fresh}
use challanse_website.Prelude.{
  ℕ, String, ◌≡◌, refl, sym, ap, ◌∙◌, subst, inl, inr, Bool, true, false, not, Option, none, some,
  List, [], ◌∷◌, arith, ◌+◌, ◌*◌, ◌/◌, ◌≤◌, ◌&&◌, ltb, leb, ◌==◌, Bool-cases, Option-cases, All,
  delete, exists_in, exists_in-append, exists_in-weaken, exists_in-delete, Result, ok, err, is_ok,
  nat_eq, string_eq,
}

-- The table holds the id at least until `d`.
abbrev pub holds_id : String → ℕ → List ServiceNonce → Bool
holds_id id d rows = exists_in (λ n. n.request_id == id && leb d n.expires_at) rows

kept-holds :
    (id : String) (d now : ℕ) (rows : List ServiceNonce)
    → now ≤ d
    → holds_id id d rows ≡ true
    → holds_id id d (delete (λ n. ltb n.expires_at now) rows) ≡ true
kept-holds id d now rows le h =
    exists_in-delete (λ n. n.request_id == id && leb d n.expires_at) (λ n. ltb n.expires_at now)
      rows (λ row known. ground (arith, known, le)) h

consume-holds :
    (id : String) (d now : ℕ) (v : ServiceRequest) (rows : List ServiceNonce)
    → now ≤ d
    → holds_id id d rows ≡ true
    → holds_id id d (consume_service_nonce v now rows).1 ≡ true
unfolding consume_service_nonce
consume-holds id d now v rows le h =
    let kept = delete (λ n. ltb n.expires_at now) rows in
    elim (Bool-cases (exists_in (λ n. n.request_id == v.request_id) kept)) [
      | inl e ↦ rw e (kept-holds id d now rows le h)
      | inr e ↦ rw e (
          exists_in-append (λ n. n.request_id == id && leb d n.expires_at) kept _
          ∙ rw (kept-holds id d now rows le h) refl)
    ]

-- An id that is consumed is held for ten minutes.
consume-stores :
    (now : ℕ) (v : ServiceRequest) (rows : List ServiceNonce)
    → (consume_service_nonce v now rows).0 ≡ ok true
    → holds_id v.request_id (now + 10 * minute) (consume_service_nonce v now rows).1 ≡ true
unfolding consume_service_nonce
consume-stores now v rows h =
    let kept = delete (λ n. ltb n.expires_at now) rows in
    elim (Bool-cases (exists_in (λ n. n.request_id == v.request_id) kept)) [
      | inl e ↦ let k = rw e at h in ground (arith, k)
      | inr e ↦ rw e (
          exists_in-append
            (λ n. n.request_id == v.request_id && leb (now + 10 * minute) n.expires_at) kept _
          ∙ ground (arith, string_eq.same_iff v.request_id v.request_id))
    ]

consume-refuses :
    (now : ℕ) (v : ServiceRequest) (rows : List ServiceNonce)
    → holds_id v.request_id now rows ≡ true
    → (consume_service_nonce v now rows).0 ≡ ok false
unfolding consume_service_nonce
consume-refuses now v rows h =
    rw
      (exists_in-weaken (λ n. n.request_id == v.request_id && leb now n.expires_at)
        (λ n. n.request_id == v.request_id) (delete (λ n. ltb n.expires_at now) rows)
        (λ row known. ground (arith, known)) (kept-holds v.request_id now now rows (omega arith) h))
      refl

admit_nonce-rows :
    (payload : String) (reply : Result Bool × List ServiceNonce)
    → (admit_nonce payload reply).1 ≡ reply.1
admit_nonce-rows payload (err e, rows) = refl
admit_nonce-rows payload (ok true, rows) = refl
admit_nonce-rows payload (ok false, rows) = refl

admit_nonce-admitted :
    (payload : String) (reply : Result Bool × List ServiceNonce)
    → is_ok (admit_nonce payload reply).0 ≡ true
    → reply.0 ≡ ok true
admit_nonce-admitted payload (err e, rows) h = ground (arith, h)
admit_nonce-admitted payload (ok true, rows) h = refl
admit_nonce-admitted payload (ok false, rows) h = ground (arith, h)

admit_nonce-refused :
    (payload : String) (reply : Result Bool × List ServiceNonce)
    → reply.0 ≡ ok false
    → is_ok (admit_nonce payload reply).0 ≡ false
admit_nonce-refused payload (err e, rows) h = refl
admit_nonce-refused payload (ok true, rows) h = ground (arith, h)
admit_nonce-refused payload (ok false, rows) h = refl

admit_verified-holds :
    (settings : ServiceSettings) (q : SignedRequest) (id : String) (d now : ℕ)
    (found : Option ServiceRequest) (rows : List ServiceNonce)
    → now ≤ d
    → holds_id id d rows ≡ true
    → holds_id id d (admit_verified settings q now found rows).1 ≡ true
unfolding admit_verified
admit_verified-holds settings q id d now none rows le h = h
admit_verified-holds settings q id d now (some v) rows le h =
    elim (Bool-cases settings.has_database) [
      | inl e ↦ rw e (
          subst (λ after. holds_id id d after ≡ true)
            (sym (admit_nonce-rows q.payload (consume_service_nonce v now rows)))
            (consume-holds id d now v rows le h))
      | inr e ↦ rw e (elim (Bool-cases settings.production) [ inl f ↦ rw f h | inr f ↦ rw f h ])
    ]

module _ (crypto : Crypto) (settings : ServiceSettings) where
  abbrev pub judge : SignedRequest → ℕ → List ServiceNonce → Result String × List ServiceNonce
  judge q now rows = verify_internal_request crypto settings q now rows

  -- The table after the requests, in the order of their arrival
  unfoldable pub run : List (SignedRequest × ℕ) → List ServiceNonce → List ServiceNonce
  run [] rows = rows
  run ((q, now) ∷ qs) rows = run qs (judge q now rows).1

  no_access : SignedRequest → Bool
  no_access q =
      settings.production
      && not (
          verify_access_service_token settings.access_client_id settings.access_client_secret
            q.access_id q.access_secret)

  judge-holds :
      (q : SignedRequest) (id : String) (d now : ℕ) (rows : List ServiceNonce)
      → now ≤ d
      → holds_id id d rows ≡ true
      → holds_id id d (judge q now rows).1 ≡ true
  unfolding verify_internal_request no_access
  judge-holds q id d now rows le h = elim (Bool-cases (no_access q)) [
    | inl e ↦ rw e h
    | inr e ↦ rw e (
        admit_verified-holds settings q id d now
          (verify_service_request crypto settings.hmac_keys q (now / 1_000_000)) rows le h)
  ]

  run-holds :
      (qs : List (SignedRequest × ℕ)) (id : String) (d : ℕ) (rows : List ServiceNonce)
      → All (λ q. q.1 ≤ d) qs
      → holds_id id d rows ≡ true
      → holds_id id d (run qs rows) ≡ true
  unfolding run
  run-holds [] id d rows le h = h
  run-holds ((q, now) ∷ qs) id d rows le h =
      run-holds qs id d (judge q now rows).1 le.1 (judge-holds q id d now rows le.0 h)

  admitted-stores :
      (q : SignedRequest) (now : ℕ) (rows : List ServiceNonce)
      → settings.has_database ≡ true
      → is_ok (judge q now rows).0 ≡ true
      → (holds_id q.request_id (now + 10 * minute) (judge q now rows).1 ≡ true)
        × ((t : ℕ) × (crypto.int q.timestamp ≡ some t) × (distance (now / 1_000_000) t ≤ 60))
  unfolding verify_internal_request no_access admit_verified
  admitted-stores q now rows database h = elim (Bool-cases (no_access q)) [
    | inl e ↦ let k = rw e at h in ground (arith, k)
    | inr e ↦
        rw e
          (elim (Option-cases
            (verify_service_request crypto settings.hmac_keys q (now / 1_000_000))) [
              | inl f ↦ let k = rw f at (rw e at h) in ground (arith, k)
              | inr (v, f) ↦
                  let (same, fresh) =
                    verified-fresh crypto settings.hmac_keys q (now / 1_000_000) v f in
                  let k = rw database at (rw f at (rw e at h)) in
                  let reply = consume_service_nonce v now rows in
                  (
                    rw f (
                        rw database (
                          subst (λ after. holds_id q.request_id (now + 10 * minute) after ≡ true)
                            (sym (admit_nonce-rows q.payload reply))
                            (subst (λ id. holds_id id (now + 10 * minute) reply.1 ≡ true) same
                              (consume-stores now v rows
                                (admit_nonce-admitted q.payload reply k))))),
                    fresh,
                  )
            ])
  ]

  judge-refuses :
      (q : SignedRequest) (now : ℕ) (rows : List ServiceNonce)
      → settings.has_database ≡ true
      → ((t : ℕ)
          → crypto.int q.timestamp ≡ some t
          → distance (now / 1_000_000) t ≤ 60
          → holds_id q.request_id now rows ≡ true)
      → is_ok (judge q now rows).0 ≡ false
  unfolding verify_internal_request no_access admit_verified
  judge-refuses q now rows database known = elim (Bool-cases (no_access q)) [
    | inl e ↦ rw e refl
    | inr e ↦
        rw e
          (elim (Option-cases
            (verify_service_request crypto settings.hmac_keys q (now / 1_000_000))) [
              | inl f ↦ rw f refl
              | inr (v, f) ↦
                  let (same, (t, read, fresh)) =
                    verified-fresh crypto settings.hmac_keys q (now / 1_000_000) v f in
                  rw f (
                    rw database (
                      admit_nonce-refused q.payload (consume_service_nonce v now rows) (
                        consume-refuses now v rows (
                          subst (λ id. holds_id id now rows ≡ true) (sym same)
                            (known t read fresh)))))
            ])
  ]

  -- With a database, after a request is admitted no request with its id and its timestamp, whatever its
  -- path, payload and signature, is admitted at any later time, whatever requests came in between. The
  -- clocks of the program and of the database agree.
  pub request_admitted_once :
      (q again : SignedRequest) (now later : ℕ) (between : List (SignedRequest × ℕ))
      (rows : List ServiceNonce)
      → settings.has_database ≡ true
      → is_ok (verify_internal_request crypto settings q now rows).0 ≡ true
      → again.request_id ≡ q.request_id
      → again.timestamp ≡ q.timestamp
      → now ≤ later
      → All (λ q. q.1 ≤ later) between
      → let after = run between (verify_internal_request crypto settings q now rows).1 in
        is_ok (verify_internal_request crypto settings again later after).0 ≡ false
  request_admitted_once q again now later between rows database admitted id time le earlier =
      let first = verify_internal_request crypto settings q now rows in
      let (stored, (t, read, fresh)) = admitted-stores q now rows database admitted in
      judge-refuses again later (run between first.1) database (λ t' read' fresh'.
        let both : some t ≡ some t' = sym read ∙ ap crypto.int (sym time) ∙ read' in
        let one : t ≡ t' = ground (arith, both) in
        let soon : later ≤ now + 10 * minute = omega (arith, fresh, fresh', one) in
        subst (λ id. holds_id id later (run between first.1) ≡ true) (sym id)
          (run-holds between q.request_id later first.1 earlier (
            exists_in-weaken
              (λ n. n.request_id == q.request_id && leb (now + 10 * minute) n.expires_at)
              (λ n. n.request_id == q.request_id && leb later n.expires_at) first.1
              (λ row known. ground (arith, known, soon)) stored)))
