-- ===== src/Devices/Limits.antt =====
-- The limit on the requests of a device in a minute: `consume_device_nonce` of
-- services/enrichment/app/authoritative.py.
use challanse_website.Devices.{
  Tenant, Registry, trunc_minute, purge, count_request, limit_request, accept_nonce, distance,
  consume_device_nonce,
}
use challanse_website.Devices.Replay.{Request, judge, run, seconds_of}
use challanse_website.Prelude.{
  ℕ, String, ◌≡◌, refl, subst, inl, inr, Bool, true, false, Option, none, some, List, [], ◌∷◌,
  arith, ◌+◌, ◌≤◌, ◌&&◌, ◌||◌, ltb, ◌==◌, Bool-cases, is_ok, length, All, Result, ok, err, nat_eq,
  string_eq, if◌then◌else◌,
}
use challanse_website.Devices.Windows.{counted, IsCounted, accept_nonce-IsCounted}

accept_nonce-organizations :
    (device organization : ℕ) (hash : String) (now : ℕ) (r : Registry)
    → (accept_nonce device organization hash now r).1.organizations ≡ r.organizations
unfolding accept_nonce limit_request count_request purge
accept_nonce-organizations device organization hash now r = ground arith

module _ (nonce_hash : ℕ → List ℕ → String) where
  consume-organizations :
      (device organization : ℕ) (timestamp : Option ℕ) (nonce : List ℕ) (seconds now : ℕ)
      (r : Registry)
      → (consume_device_nonce nonce_hash device organization timestamp nonce seconds now
          r).1.organizations
        ≡ r.organizations
  unfolding consume_device_nonce
  consume-organizations device organization none nonce seconds now r = refl
  consume-organizations device organization (some timestamp) nonce seconds now r =
      ground (arith, accept_nonce-organizations device organization (nonce_hash device nonce) now r)

  consume-IsCounted :
      (device other organization : ℕ) (timestamp : Option ℕ) (nonce : List ℕ) (seconds now : ℕ)
      (o : Tenant) (r : Registry)
      → (other == device ≡ true → r.organizations organization ≡ some o)
      → 1 ≤ o.device_request_limit_per_minute
      → let reply =
          consume_device_nonce nonce_hash other organization timestamp nonce seconds now r in
        IsCounted
          (other == device)
          o.device_request_limit_per_minute
          (counted device (trunc_minute now) r)
          (counted device (trunc_minute now) reply.1)
          reply.0
  unfolding consume_device_nonce
  consume-IsCounted device other organization none nonce seconds now o r tenant one = refl
  consume-IsCounted device other organization (some timestamp) nonce seconds now o r tenant one =
      elim (Bool-cases
        (ltb 60 (distance seconds timestamp) || ltb (length nonce) 16 || ltb 128 (length nonce))) [
          | inl e ↦ rw e refl
          | inr e ↦ rw e (
              accept_nonce-IsCounted device other organization (nonce_hash other nonce) now o r
                tenant one)
        ]

  -- How many requests of the device are accepted.
  unfoldable pub accepted : ℕ → List Request → Registry → ℕ
  accepted device [] r = 0
  accepted device (q ∷ qs) r =
      let rest = accepted device qs (judge nonce_hash q r).1 in
      if is_ok (judge nonce_hash q r).0 && q.device == device then 1 + rest else rest

  -- The request arrives in the minute, and one of the device names its organization.
  abbrev pub IsWithin : ℕ → ℕ → ℕ → Request → Type 0
  IsWithin device organization m q =
      (trunc_minute q.now ≡ m) × (q.device == device ≡ true → q.organization ≡ organization)

  IsCounted-step :
      (own : Bool) (limit before after : ℕ) (reply : Result (Unit {0}))
      → IsCounted own limit before after reply
      → before ≤ limit
      → (after ≡ (if is_ok reply && own then 1 else 0) + before) × (after ≤ limit)
  IsCounted-step own limit before after (err e) h le = (omega (arith, h), omega (arith, h))
  IsCounted-step true limit before after (ok u) h le = h.0 refl
  IsCounted-step false limit before after (ok u) h le =
      let same = h.1 refl in (omega (arith, same), omega (arith, same))

  judge-step :
      (device organization m : ℕ) (o : Tenant) (q : Request) (r : Registry)
      → r.organizations organization ≡ some o
      → 1 ≤ o.device_request_limit_per_minute
      → IsWithin device organization m q
      → counted device m r ≤ o.device_request_limit_per_minute
      → let reply = judge nonce_hash q r in
        (counted device m reply.1
          ≡ (if is_ok reply.0 && q.device == device then 1 else 0) + counted device m r)
        × (counted device m reply.1 ≤ o.device_request_limit_per_minute)
  judge-step device organization m o q r tenant one (minute_of, org_of) =
      let reply = judge nonce_hash q r in
      subst
        (λ n.
          counted device n r ≤ o.device_request_limit_per_minute
          → (counted device n reply.1
              ≡ (if is_ok reply.0 && q.device == device then 1 else 0) + counted device n r)
            × (counted device n reply.1 ≤ o.device_request_limit_per_minute))
        minute_of
        (IsCounted-step (q.device == device) o.device_request_limit_per_minute
          (counted device (trunc_minute q.now) r) (counted device (trunc_minute q.now) reply.1)
          reply.0
          (consume-IsCounted device q.device q.organization q.timestamp q.nonce (seconds_of q.now)
            q.now o r (λ own. rw (org_of own) tenant) one))

  accepted-counted :
      (device organization m : ℕ) (o : Tenant) (qs : List Request) (r : Registry)
      → r.organizations organization ≡ some o
      → 1 ≤ o.device_request_limit_per_minute
      → All (IsWithin device organization m) qs
      → counted device m r ≤ o.device_request_limit_per_minute
      → (counted device m (run nonce_hash qs r) ≡ accepted device qs r + counted device m r)
        × (counted device m (run nonce_hash qs r) ≤ o.device_request_limit_per_minute)
  unfolding accepted run
  accepted-counted device organization m o [] r tenant one within le = (omega arith, le)
  accepted-counted device organization m o (q ∷ qs) r tenant one within le =
      let r' = (judge nonce_hash q r).1 in
      let (more, le') = judge-step device organization m o q r tenant one within.0 le in
      let kept =
        consume-organizations q.device q.organization q.timestamp q.nonce (seconds_of q.now) q.now
          r in
      let (rest, bound) =
        accepted-counted device organization m o qs r' (rw kept tenant) one within.1 le' in
      (ground (arith, more, rest), bound)

  -- In any sequence of requests of any devices within one minute, before which no request of the
  -- device is counted in that minute: if its organization allows at least one request in a minute,
  -- and every request of the device names that organization, then at most as many of the device are
  -- accepted as the organization allows, and the window counts them exactly.
  pub accepted-le_limit :
      (device organization m : ℕ) (o : Tenant) (qs : List Request) (r : Registry)
      → r.organizations organization ≡ some o
      → 1 ≤ o.device_request_limit_per_minute
      → All (IsWithin device organization m) qs
      → counted device m r ≡ 0
      → (accepted device qs r ≤ o.device_request_limit_per_minute)
        × (counted device m (run nonce_hash qs r) ≡ accepted device qs r)
  accepted-le_limit device organization m o qs r tenant one within none_yet =
      let (rest, bound) =
        accepted-counted device organization m o qs r tenant one within
          (omega (arith, none_yet, one)) in
      (omega (arith, rest, bound, none_yet), omega (arith, rest, none_yet))
