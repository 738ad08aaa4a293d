-- ===== src/Devices/Replay.antt =====
-- Replay protection: `consume_device_nonce` of services/enrichment/app/authoritative.py.
use challanse_website.Devices.{Registry, minute, distance, consume_device_nonce}
use challanse_website.Prelude.{
  exists_in-weaken, ℕ, String, ◌≡◌, ◌⊎◌, inl, inr, Bool, true, Option, none, some, List, [], ◌∷◌,
  arith, ◌+◌, ◌*◌, ◌/◌, ◌≤◌, ◌<◌, ◌||◌, ltb, leb, Bool-cases, length, All, ok, err, Action, nat_eq,
  string_eq,
}
use challanse_website.Devices.Nonces.{
  knows, accept_nonce-knows, accept_nonce-rejects, accept_nonce-stores,
}

-- A signed request of a device, and when it arrives.
pub record Request : Type 0 where
  pub device : ℕ
  pub organization : ℕ
  pub timestamp : Option ℕ
  pub nonce : List ℕ
  pub now : ℕ

-- The clock of the program and that of the database show the same time.
abbrev pub seconds_of : ℕ → ℕ
seconds_of now = now / 1_000_000

module _ (nonce_hash : ℕ → List ℕ → String) where
  abbrev pub judge : Request → Action Registry (Unit {0})
  judge q =
      consume_device_nonce nonce_hash q.device q.organization q.timestamp q.nonce (seconds_of q.now)
        q.now

  -- The table after the requests, in the order of their arrival.
  unfoldable pub run : List Request → Registry → Registry
  run [] r = r
  run (q ∷ qs) r = run qs (judge q r).1

  -- The tests before the transaction.
  abbrev out_of_form : ℕ → ℕ → List ℕ → Bool
  out_of_form seconds timestamp nonce =
      ltb 60 (distance seconds timestamp) || ltb (length nonce) 16 || ltb 128 (length nonce)

  consume-knows :
      (device organization : ℕ) (timestamp : Option ℕ) (nonce : List ℕ) (seconds now : ℕ)
      (hash : String) (d : ℕ) (r : Registry)
      → now ≤ d
      → knows hash d r ≡ true
      → knows hash d
          (consume_device_nonce nonce_hash device organization timestamp nonce seconds now r).1
        ≡ true
  unfolding consume_device_nonce
  consume-knows device organization none nonce seconds now hash d r le h = h
  consume-knows device organization (some timestamp) nonce seconds now hash d r le h =
      elim (Bool-cases (out_of_form seconds timestamp nonce)) [
        | inl e ↦ rw e h
        | inr e ↦
            rw e
              (accept_nonce-knows device organization (nonce_hash device nonce) hash d now r le h)
      ]

  -- An accepted request carries a timestamp within a minute, and its nonce is stored.
  consume-stores :
      (device organization timestamp : ℕ) (nonce : List ℕ) (seconds now : ℕ) (r : Registry)
      → (consume_device_nonce nonce_hash device organization (some timestamp) nonce seconds now r).0
        ≡ ok tt
      → (distance seconds timestamp ≤ 60)
        × (knows
              (nonce_hash device nonce)
              (now + 10 * minute)
              (consume_device_nonce nonce_hash device organization
                (some timestamp)
                nonce
                seconds
                now
                r).1
            ≡ true)
  unfolding consume_device_nonce
  consume-stores device organization timestamp nonce seconds now r h =
      elim (Bool-cases (out_of_form seconds timestamp nonce)) [
        | inl e ↦ ground (arith, rw e at h)
        | inr e ↦ (
          ground (arith, e),
          rw e
              (accept_nonce-stores device organization (nonce_hash device nonce) now r (rw e at h)),
        )
      ]

  consume-rejects :
      (device organization timestamp : ℕ) (nonce : List ℕ) (seconds now : ℕ) (r : Registry)
      → (60 < distance seconds timestamp) ⊎ (knows (nonce_hash device nonce) now r ≡ true)
      → consume_device_nonce nonce_hash device organization (some timestamp) nonce seconds now r
        ≡ (err "REPLAY_REJECTED", r)
  unfolding consume_device_nonce
  consume-rejects device organization timestamp nonce seconds now r (inl stale) =
      ground (arith, stale)
  consume-rejects device organization timestamp nonce seconds now r (inr known) =
      rw (accept_nonce-rejects device organization (nonce_hash device nonce) now r known)
        (ground arith)

  run-knows :
      (qs : List Request) (hash : String) (d : ℕ) (r : Registry)
      → All (λ q. q.now ≤ d) qs
      → knows hash d r ≡ true
      → knows hash d (run qs r) ≡ true
  unfolding run
  run-knows [] hash d r le h = h
  run-knows (q ∷ qs) hash d r le h = run-knows qs hash d (judge q r).1 le.1 (
      consume-knows q.device q.organization q.timestamp q.nonce (seconds_of q.now) q.now hash d r
        le.0 h)

  -- A request that was accepted is rejected as a replay when it arrives again at any later time,
  -- whatever requests of any devices came between the two, and then changes nothing: for ten minutes
  -- its nonce is known, and after that its timestamp is too old.
  pub accepted_once :
      (device organization timestamp : ℕ) (nonce : List ℕ) (now later : ℕ) (between : List Request)
      (r : Registry)
      → (consume_device_nonce nonce_hash device organization
          (some timestamp)
          nonce
          (seconds_of now)
          now
          r).0
        ≡ ok tt
      → All (λ q. q.now ≤ later) between
      → now ≤ later
      → let first =
          consume_device_nonce nonce_hash device organization
            (some timestamp)
            nonce
            (seconds_of now)
            now
            r in
        consume_device_nonce nonce_hash device organization
          (some timestamp)
          nonce
          (seconds_of later)
          later
          (run between first.1)
        ≡ (err "REPLAY_REJECTED", run between first.1)
  accepted_once device organization timestamp nonce now later between r accepted earlier le =
      let first =
        consume_device_nonce nonce_hash device organization (some timestamp) nonce (seconds_of now)
          now r in
      let (fresh, stored) =
        consume-stores device organization timestamp nonce (seconds_of now) now r accepted in
      consume-rejects device organization timestamp nonce (seconds_of later) later
        (run between first.1)
        (elim (Bool-cases (leb later (now + 10 * minute))) [
          | inl soon ↦ inr (
              run-knows between (nonce_hash device nonce) later first.1 earlier (
                exists_in-weaken _ _ first.1.nonces (λ row known. ground (arith, known, soon))
                  stored))
          | inr late ↦
              let after : now + 10 * minute < later = ground (arith, late) in
              inl (omega (arith, after, fresh))
        ])
