-- ===== src/Devices/Revocation.antt =====
-- Which device a token names, and what revocation takes away: `authenticate_device` and
-- `revoke_device` of services/enrichment/app/authoritative.py.
use challanse_website.Devices.{
  DeviceRow, Registry, scope_active, authenticate_device, authenticated, EnrollmentCode, Tenant,
}
use challanse_website.Devices.Enroll.{
  Role, own_device, revoke_device, role_beq, org_admin, site_admin, enroll_found, count_active,
  new_device, usable_code, enroll_device, create_enrollment_code,
}
use challanse_website.Devices.Enrollment.{
  DeviceOp, step, run, create_code, enroll, revoke, authenticate,
}
use challanse_website.Prelude.{
  ℕ, String, ◌≡◌, inl, inr, Bool, true, false, not, Option, none, some, List, [], ◌∷◌, arith, ◌≤◌,
  ◌<◌, ◌&&◌, ◌||◌, ltb, leb, ◌==◌, Bool-cases, length, find?, update, exists_in, All, All-update,
  All-append_one, All-updated, ok, nat_eq, string_eq, find?-All,
}

-- What the row of a device that was authenticated satisfies.
abbrev pub IsAdmitted : (List ℕ → String) → List ℕ → Registry → DeviceRow → Type 0
IsAdmitted token_hash token r d =
    (32 ≤ length token)
    × (d.token_hash ≡ token_hash token)
    × (d.active ≡ true)
    × (scope_active r d.organization_id d.site_id ≡ true)

abbrev names : (List ℕ → String) → List ℕ → Registry → DeviceRow → Bool
names token_hash token r d =
    d.token_hash == token_hash token && d.active && scope_active r d.organization_id d.site_id

authenticated-found :
    (now : ℕ) (found : Option DeviceRow) (r : Registry) (d : DeviceRow)
    → (authenticated now found r).0 ≡ ok d
    → found ≡ some d
unfolding authenticated
authenticated-found now none r d h = ground (arith, h)
authenticated-found now (some d') r d h = ground (arith, h)

-- The device that a request is attributed to has a row that is active, in an active site of an active
-- organization, with the hash of a token of at least 32 characters; whatever holds of all
-- active rows holds of it.
pub authenticate-IsAdmitted :
    (P : DeviceRow → Type 0) (pepper : Bool) (token : List ℕ) (token_hash : List ℕ → String)
    (now : ℕ) (r : Registry) (d : DeviceRow)
    → All P r.devices
    → (authenticate_device pepper (some token) token_hash now r).0 ≡ ok d
    → IsAdmitted token_hash token r d × P d
unfolding authenticate_device
authenticate-IsAdmitted P pepper token token_hash now r d rows h =
    elim (Bool-cases (not pepper || ltb (length token) 32)) [
      | inl e ↦ ground (arith, rw e at h)
      | inr e ↦
          let found =
            authenticated-found now (find? (names token_hash token r) r.devices) r d (rw e at h) in
          let (holds, named) = find?-All P (names token_hash token r) r.devices d rows found in
          (ground (arith, e, named, string_eq.same_iff d.token_hash (token_hash token)), holds)
    ]

-- No row of the device is active, and the ids that are still to be drawn are others.
abbrev IsGone : ℕ → ℕ → ℕ → Registry → Type 0
IsGone org site id r = All (λ d. own_device org site id d ≡ false) r.devices × (id < r.next_id)

revoke-IsGone :
    (role : Role) (org site id : ℕ) (r : Registry)
    → (revoke_device role org site id r).0 ≡ ok tt
    → id < r.next_id
    → IsGone org site id (revoke_device role org site id r).1
unfolding revoke_device
revoke-IsGone role org site id r h fresh =
    elim (Bool-cases (role_beq role org_admin || role_beq role site_admin)) [
      | inl e ↦ rw e (
        All-updated (λ d. own_device org site id d ≡ false) (own_device org site id)
            (λ d. record d { active = false }) r.devices (λ d mine. ground arith)
            (λ d other. other),
        fresh,
      )
      | inr e ↦ ground (arith, rw e at h)
    ]

All-kept :
    (org site id : ℕ) (p : DeviceRow → Bool) (f : DeviceRow → DeviceRow) (rows : List DeviceRow)
    → ((d : DeviceRow) → own_device org site id d ≡ false → own_device org site id (f d) ≡ false)
    → All (λ d. own_device org site id d ≡ false) rows
    → All (λ d. own_device org site id d ≡ false) (update p f rows)
All-kept org site id p f rows h all =
    All-update (λ d. own_device org site id d ≡ false) p f rows (λ d e k. h d k) all

enroll_found-IsGone :
    (org site id : ℕ) (hash name version token : String) (now : ℕ) (r : Registry)
    (found : Option EnrollmentCode) (t : Option Tenant)
    → IsGone org site id r
    → IsGone org site id (enroll_found hash name version token now found t r).1
unfolding enroll_found
enroll_found-IsGone org site id hash name version token now r none t h = h
enroll_found-IsGone org site id hash name version token now r (some e) none h = h
enroll_found-IsGone org site id hash name version token now r (some e) (some o) (rows, fresh) =
    elim (Bool-cases (leb o.device_limit (count_active e.organization_id r.devices))) [
      | inl full ↦ rw full (rows, fresh)
      | inr free ↦ rw free (
        All-append_one (λ d. own_device org site id d ≡ false) r.devices
            (new_device e name version token r.next_id) rows (ground (arith, fresh)),
        omega (arith, fresh),
      )
    ]

authenticated-IsGone :
    (org site id now : ℕ) (found : Option DeviceRow) (r : Registry)
    → IsGone org site id r
    → IsGone org site id (authenticated now found r).1
unfolding authenticated
authenticated-IsGone org site id now none r h = h
authenticated-IsGone org site id now (some d) r (rows, fresh) = (
  All-kept org site id (λ x. x.id == d.id) (λ x. record x { last_seen_at = some now }) r.devices
      (λ x k. k) rows,
  fresh,
)

authenticate-IsGone :
    (org site id : ℕ) (pepper : Bool) (token : Option (List ℕ)) (token_hash : List ℕ → String)
    (now : ℕ) (r : Registry)
    → IsGone org site id r
    → IsGone org site id (authenticate_device pepper token token_hash now r).1
unfolding authenticate_device
authenticate-IsGone org site id pepper none token_hash now r h = h
authenticate-IsGone org site id pepper (some token) token_hash now r h =
    elim (Bool-cases (not pepper || ltb (length token) 32)) [
      | inl e ↦ rw e h
      | inr e ↦
          rw e
            (authenticated-IsGone org site id now (find? (names token_hash token r) r.devices) r h)
    ]

create-IsGone :
    (org site id : ℕ) (role : Role) (b b' : ℕ) (hash name : String) (now : ℕ) (r : Registry)
    → IsGone org site id r
    → IsGone org site id (create_enrollment_code role b b' hash name now r).1
unfolding create_enrollment_code
create-IsGone org site id role b b' hash name now r h =
    elim (Bool-cases (role_beq role org_admin || role_beq role site_admin)) [
      | inl e ↦ rw e (elim (Bool-cases (exists_in (λ e. e.code_hash == hash) r.codes)) [
        | inl there ↦ rw there h
        | inr new ↦ rw new h
      ])
      | inr e ↦ rw e h
    ]

revoke-keeps :
    (org site id : ℕ) (role : Role) (b b' i : ℕ) (r : Registry)
    → IsGone org site id r
    → IsGone org site id (revoke_device role b b' i r).1
unfolding revoke_device
revoke-keeps org site id role b b' i r (rows, fresh) =
    elim (Bool-cases (role_beq role org_admin || role_beq role site_admin)) [
      | inl e ↦ rw e (
        All-kept org site id (own_device b b' i) (λ d. record d { active = false }) r.devices
            (λ d k. ground (arith, k)) rows,
        fresh,
      )
      | inr e ↦ rw e (rows, fresh)
    ]

step-IsGone :
    (op : DeviceOp) (org site id : ℕ) (r : Registry)
    → IsGone org site id r
    → IsGone org site id (step op r)
unfolding step enroll_device
step-IsGone (create_code role b b' hash name now) org site id r h =
    create-IsGone org site id role b b' hash name now r h
step-IsGone (enroll true hash name version token now) org site id r h =
    enroll_found-IsGone org site id hash name version token now r
      (find? (usable_code hash now r) r.codes) _ h
step-IsGone (enroll false hash name version token now) org site id r h = h
step-IsGone (revoke role b b' i) org site id r h = revoke-keeps org site id role b b' i r h
step-IsGone (authenticate pepper token token_hash now) org site id r h =
    authenticate-IsGone org site id pepper token token_hash now r h

run-IsGone :
    (ops : List DeviceOp) (org site id : ℕ) (r : Registry)
    → IsGone org site id r
    → IsGone org site id (run ops r)
unfolding run
run-IsGone [] org site id r h = h
run-IsGone (op ∷ ops) org site id r h =
    run-IsGone ops org site id (step op r) (step-IsGone op org site id r h)

-- After a device is revoked, no token authenticates it again, whatever codes are drawn, devices
-- enrolled, authenticated and revoked in between.
pub revoked_for_good :
    (role : Role) (org site id : ℕ) (r : Registry) (ops : List DeviceOp) (pepper : Bool)
    (token : List ℕ) (token_hash : List ℕ → String) (now : ℕ) (d : DeviceRow)
    → id < r.next_id
    → (revoke_device role org site id r).0 ≡ ok tt
    → (authenticate_device pepper
        (some token)
        token_hash
        now
        (run ops (revoke_device role org site id r).1)).0
      ≡ ok d
    → ((d.id ≡ id) × (d.organization_id ≡ org) × (d.site_id ≡ site))
    → ⊥
revoked_for_good role org site id r ops pepper token token_hash now d fresh revoked h same =
    let r' = run ops (revoke_device role org site id r).1 in
    let (rows, fresh') =
      run-IsGone ops org site id (revoke_device role org site id r).1
        (revoke-IsGone role org site id r revoked fresh) in
    let ((long, hash, admitted, scope), other) =
      authenticate-IsAdmitted (λ d. own_device org site id d ≡ false) pepper token token_hash now r'
        d rows h in
    ground (arith, admitted, other, same)
