-- ===== src/Devices/Windows.antt =====
-- The table `device_rate_limit_windows` under the transaction of `consume_device_nonce`
-- (services/enrichment/app/authoritative.py).
use challanse_website.Devices.{
  RateWindow, Tenant, Registry, minute, active_tenant, trunc_minute, in_window, purge,
  count_request, limit_request, add_nonce, accept_nonce,
}
use challanse_website.Prelude.{
  ℕ, String, ◌≡◌, refl, ◌∙◌, ap, inl, inr, Bool, true, false, Option, none, some, arith, ◌+◌, ◌*◌,
  ◌≤◌, ◌&&◌, ltb, nat_beq_iff, ◌==◌, Bool-cases, find?, find?-delete_other, find?-append_none,
  find?-append_other, find?-update_found, find?-update_other, exists_in, Result, ok, err, rollback,
  nat_eq, string_eq,
}

abbrev pub count_of : Option RateWindow → ℕ
count_of none = 0
count_of (some w) = w.request_count

-- How many requests of the device the table counts in the minute that begins at `m`.
abbrev pub at_minute : ℕ → ℕ → RateWindow → Bool
at_minute device m w = w.device_id == device && w.window_started_at == m

abbrev pub counted : ℕ → ℕ → Registry → ℕ
counted device m r = count_of (find? (at_minute device m) r.windows)

-- A window of the minute of `now` is younger than ten minutes.
purge-counted :
    (device now : ℕ) (r : Registry)
    → find? (in_window device now) (purge now r).windows ≡ find? (in_window device now) r.windows
unfolding purge
purge-counted device now r =
    find?-delete_other (in_window device now) (λ w. ltb (w.window_started_at + 10 * minute) now)
      r.windows
      (λ w here.
        let at : w.window_started_at ≡ trunc_minute now = ground (arith, here) in
        let late : now ≤ w.window_started_at + 10 * minute = omega (arith, at) in
        ground (arith, late))

abbrev first_window : ℕ → ℕ → RateWindow
first_window device now = record {
  device_id = device;
  window_started_at = trunc_minute now;
  request_count = 1;
}

-- A request of the device that is let through is counted, and the count stays within the limit.
count_request-own :
    (device limit now : ℕ) (found : Option RateWindow) (r : Registry)
    → find? (in_window device now) r.windows ≡ found
    → (count_request device limit now found r).0 ≡ ok tt
    → 1 ≤ limit
    → (counted device (trunc_minute now) (count_request device limit now found r).1
        ≡ 1 + counted device (trunc_minute now) r)
      × (counted device (trunc_minute now) (count_request device limit now found r).1 ≤ limit)
unfolding count_request
count_request-own device limit now none r at h one = rw at (
    rw
      (find?-append_none (in_window device now) r.windows (first_window device now) at
        (ground arith))
      (refl, one))
count_request-own device limit now (some w) r at h one =
    elim (Bool-cases (ltb w.request_count limit)) [
      | inl e ↦ rw at (
          rw e (
            rw
              (find?-update_found (in_window device now)
                (λ w. record w { request_count = w.request_count + 1 }) r.windows w (λ y. refl) at)
              (omega arith, ground (arith, e))))
      | inr e ↦ ground (arith, rw e at h)
    ]

count_request-other :
    (device other limit now : ℕ) (found : Option RateWindow) (r : Registry)
    → other == device ≡ false
    → counted device (trunc_minute now) (count_request other limit now found r).1
      ≡ counted device (trunc_minute now) r
unfolding count_request
count_request-other device other limit now none r h =
    rw
      (find?-append_other (at_minute device (trunc_minute now)) r.windows (first_window other now)
        (ground (arith, h)))
      refl
count_request-other device other limit now (some w) r h =
    elim (Bool-cases (ltb w.request_count limit)) [
      | inl e ↦ rw e (
          rw
            (find?-update_other (at_minute device (trunc_minute now)) (in_window other now)
              (λ w. record w { request_count = w.request_count + 1 }) r.windows
              (λ y k. ground (arith, h, k)) (λ y k. ground (arith, h, k)))
            refl)
      | inr e ↦ rw e refl
    ]

-- What one request does to the count of a device in the minute: nothing if it is refused or another
-- device's; and otherwise it adds one, within the limit.
abbrev pub IsCounted : Bool → ℕ → ℕ → ℕ → Result (Unit {0}) → Type 0
IsCounted own limit before after (ok u) =
    (own ≡ true → (after ≡ 1 + before) × (after ≤ limit)) × (own ≡ false → after ≡ before)
IsCounted own limit before after (err e) = after ≡ before

IsCounted-made :
    (own : Bool) (limit before after : ℕ) (reply : Result (Unit {0}))
    → (own ≡ true → reply ≡ ok tt → (after ≡ 1 + before) × (after ≤ limit))
    → (own ≡ false → after ≡ before)
    → ((e : String) → reply ≡ err e → after ≡ before)
    → IsCounted own limit before after reply
IsCounted-made own limit before after (ok u) h k l = ((λ e. h e refl), k)
IsCounted-made own limit before after (err e) h k l = l e refl

rollback-IsCounted :
    (device m : ℕ) (own : Bool) (limit : ℕ) (r : Registry) (o : Result (Unit {0}) × Registry)
    → (own ≡ true
        → o.0 ≡ ok tt
        → (counted device m o.1 ≡ 1 + counted device m r) × (counted device m o.1 ≤ limit))
    → (own ≡ false → counted device m o.1 ≡ counted device m r)
    → IsCounted own limit (counted device m r) (counted device m (rollback r o).1) (rollback r o).0
rollback-IsCounted device m own limit r (ok u, r') h k = ((λ e. h e refl), k)
rollback-IsCounted device m own limit r (err e, r') h k = refl

limit_request-own :
    (device now : ℕ) (o : Tenant) (r : Registry)
    → 1 ≤ o.device_request_limit_per_minute
    → let reply = limit_request device now (active_tenant (some o)) r in
      reply.0 ≡ ok tt
      → (counted device (trunc_minute now) reply.1 ≡ 1 + counted device (trunc_minute now) r)
        × (counted device (trunc_minute now) reply.1 ≤ o.device_request_limit_per_minute)
unfolding limit_request
limit_request-own device now o r one h = elim (Bool-cases o.active) [
  | inl e ↦ rw e (
      count_request-own device o.device_request_limit_per_minute now
        (find? (in_window device now) r.windows) r refl (rw e at h) one)
  | inr e ↦ ground (arith, rw e at h)
]

limit_request-mine :
    (device other now : ℕ) (o : Tenant) (found : Option Tenant) (r : Registry)
    → other ≡ device
    → found ≡ some o
    → 1 ≤ o.device_request_limit_per_minute
    → let reply = limit_request other now (active_tenant found) r in
      reply.0 ≡ ok tt
      → (counted device (trunc_minute now) reply.1 ≡ 1 + counted device (trunc_minute now) r)
        × (counted device (trunc_minute now) reply.1 ≤ o.device_request_limit_per_minute)
limit_request-mine device other now o found r e t one h =
    rw e (rw t (limit_request-own device now o r one (rw t at rw e at h)))

limit_request-other :
    (device other now : ℕ) (found : Option Tenant) (r : Registry)
    → other == device ≡ false
    → counted device (trunc_minute now) (limit_request other now found r).1
      ≡ counted device (trunc_minute now) r
unfolding limit_request
limit_request-other device other now none r h = refl
limit_request-other device other now (some o) r h =
    count_request-other device other o.device_request_limit_per_minute now
      (find? (in_window other now) r.windows) r h

-- Storing the nonce and deleting what expired leaves the counts of the minute.
start-counted :
    (device other now : ℕ) (hash : String) (r : Registry)
    → counted device (trunc_minute now) (add_nonce hash other now (purge now r))
      ≡ counted device (trunc_minute now) r
start-counted device other now hash r = ap count_of (purge-counted device now r)

pub accept_nonce-IsCounted :
    (device other organization : ℕ) (hash : String) (now : ℕ) (o : Tenant) (r : Registry)
    → (other == device ≡ true → r.organizations organization ≡ some o)
    → 1 ≤ o.device_request_limit_per_minute
    → let reply = accept_nonce other organization hash now r in
      IsCounted
        (other == device)
        o.device_request_limit_per_minute
        (counted device (trunc_minute now) r)
        (counted device (trunc_minute now) reply.1)
        reply.0
unfolding accept_nonce limit_request
accept_nonce-IsCounted device other organization hash now o r tenant one =
    elim (Bool-cases (exists_in (λ n. n.nonce_hash == hash) (purge now r).nonces)) [
      | inl e ↦ rw e refl
      | inr e ↦
          let start = add_nonce hash other now (purge now r) in
          let same = start-counted device other now hash r in
          rw e (
            rollback-IsCounted device (trunc_minute now) (other == device)
              o.device_request_limit_per_minute r
              (limit_request other now (active_tenant (r.organizations organization)) start)
              (λ own let_through.
                let (more, within) =
                  limit_request-mine device other now o (r.organizations organization) start
                    ((nat_beq_iff other device).0 own) (tenant own) one let_through in
                (more ∙ ap (λ n. 1 + n) same, within))
              (λ elsewhere.
                limit_request-other device other now (active_tenant (r.organizations organization))
                  start elsewhere
                ∙ same))
    ]
