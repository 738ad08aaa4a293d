-- ===== src/Devices/Nonces.antt =====
-- The table `device_request_nonces` under the transaction of `consume_device_nonce`
-- (services/enrichment/app/authoritative.py).
use challanse_website.Devices.{
  Tenant, Registry, minute, active_tenant, purge, count_request, limit_request, add_nonce,
  accept_nonce,
}
use challanse_website.Prelude.{
  exists_in-append, exists_in-weaken, exists_in-delete, ℕ, String, ◌≡◌, refl, ◌∙◌, inl, inr, Bool,
  true, Option, none, some, arith, ◌+◌, ◌*◌, ◌≤◌, ◌&&◌, ltb, leb, ◌==◌, Bool-cases, exists_in,
  Result, ok, err, rollback, nat_eq, string_eq,
}

-- The table holds the nonce at least until `d`.
abbrev pub knows : String → ℕ → Registry → Bool
knows hash d r = exists_in (λ n. n.nonce_hash == hash && leb d n.expires_at) r.nonces

pub purge-knows :
    (hash : String) (d now : ℕ) (r : Registry)
    → now ≤ d
    → knows hash d r ≡ true
    → knows hash d (purge now r) ≡ true
unfolding purge
purge-knows hash d now r le h =
    exists_in-delete (λ n. n.nonce_hash == hash && leb d n.expires_at) (λ n. ltb n.expires_at now)
      r.nonces (λ row known. ground (arith, known, le)) h

pub limit_request-nonces :
    (device now : ℕ) (found : Option Tenant) (r : Registry)
    → (limit_request device now found r).1.nonces ≡ r.nonces
unfolding limit_request count_request
limit_request-nonces device now none r = refl
limit_request-nonces device now (some o) r = ground arith

rollback-knows :
    (hash : String) (d : ℕ) (r : Registry) (o : Result (Unit {0}) × Registry)
    → knows hash d r ≡ true
    → knows hash d o.1 ≡ true
    → knows hash d (rollback r o).1 ≡ true
rollback-knows hash d r (ok u, r') h k = k
rollback-knows hash d r (err e, r') h k = h

add_nonce-knows :
    (hash other : String) (d device now : ℕ) (r : Registry)
    → knows hash d r ≡ true
    → knows hash d (add_nonce other device now r) ≡ true
add_nonce-knows hash other d device now r h =
    exists_in-append (λ n. n.nonce_hash == hash && leb d n.expires_at) r.nonces _ ∙ rw h refl

pub accept_nonce-knows :
    (device organization : ℕ) (other hash : String) (d now : ℕ) (r : Registry)
    → now ≤ d
    → knows hash d r ≡ true
    → knows hash d (accept_nonce device organization other now r).1 ≡ true
unfolding accept_nonce
accept_nonce-knows device organization other hash d now r le h =
    elim (Bool-cases (exists_in (λ n. n.nonce_hash == other) (purge now r).nonces)) [
      | inl e ↦ rw e h
      | inr e ↦
          let start = add_nonce other device now (purge now r) in
          let found = active_tenant (r.organizations organization) in
          rw e (
            rollback-knows hash d r (limit_request device now found start) h (
              rw (limit_request-nonces device now found start) (
                add_nonce-knows hash other d device now (purge now r)
                  (purge-knows hash d now r le h))))
    ]

pub accept_nonce-rejects :
    (device organization : ℕ) (hash : String) (now : ℕ) (r : Registry)
    → knows hash now r ≡ true
    → accept_nonce device organization hash now r ≡ (err "REPLAY_REJECTED", r)
unfolding accept_nonce
accept_nonce-rejects device organization hash now r h =
    rw
      (exists_in-weaken (λ n. n.nonce_hash == hash && leb now n.expires_at)
        (λ n. n.nonce_hash == hash) (purge now r).nonces (λ row known. ground (arith, known))
        (purge-knows hash now now r (omega arith) h))
      refl

rollback-ok :
    (hash : String) (d : ℕ) (r : Registry) (o : Result (Unit {0}) × Registry)
    → (rollback r o).0 ≡ ok tt
    → knows hash d o.1 ≡ true
    → knows hash d (rollback r o).1 ≡ true
rollback-ok hash d r (ok u, r') h k = k
rollback-ok hash d r (err e, r') h k = ground (arith, h)

pub accept_nonce-stores :
    (device organization : ℕ) (hash : String) (now : ℕ) (r : Registry)
    → (accept_nonce device organization hash now r).0 ≡ ok tt
    → knows hash (now + 10 * minute) (accept_nonce device organization hash now r).1 ≡ true
unfolding accept_nonce
accept_nonce-stores device organization hash now r h =
    elim (Bool-cases (exists_in (λ n. n.nonce_hash == hash) (purge now r).nonces)) [
      | inl e ↦ ground (arith, rw e at h)
      | inr e ↦
          let start = add_nonce hash device now (purge now r) in
          let found = active_tenant (r.organizations organization) in
          rw e (
            rollback-ok hash (now + 10 * minute) r (limit_request device now found start)
              (rw e at h)
              (rw (limit_request-nonces device now found start) (
                exists_in-append (λ n. n.nonce_hash == hash && leb (now + 10 * minute) n.expires_at)
                  (purge now r).nonces _
                ∙ ground (arith, string_eq.same_iff hash hash))))
    ]
