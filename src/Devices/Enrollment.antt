-- ===== src/Devices/Enrollment.antt =====
-- Enrollment codes and the device limit: `create_enrollment_code`, `enroll_device` and
-- `revoke_device` of services/enrichment/app/authoritative.py, in any order.
use challanse_website.Devices.{
  DeviceRow, EnrollmentCode, Tenant, Registry, active_tenant, authenticate_device, authenticated,
}
use challanse_website.Devices.Enroll.{
  count_active, usable_code, new_device, enroll_found, tenant_of, enroll_device, Role, own_device,
  revoke_device, create_enrollment_code,
}
use challanse_website.Prelude.{
  ℕ, String, ◌≡◌, refl, inl, inr, Bool, true, false, not, Option, none, some, List, [], ◌∷◌, ◌++◌,
  arith, ◌+◌, ◌≤◌, ◌&&◌, ◌||◌, ltb, leb, ◌==◌, Bool-cases, nat_beq_iff, length, find?, select,
  update, length-append, select-append, nat_eq, string_eq,
}

-- The calls that write the tables of devices and codes.
pub data DeviceOp : Type 0 where
  create_code : Role → ℕ → ℕ → String → String → ℕ → DeviceOp
  enroll : Bool → String → String → String → String → ℕ → DeviceOp
  revoke : Role → ℕ → ℕ → ℕ → DeviceOp
  authenticate : Bool → Option (List ℕ) → (List ℕ → String) → ℕ → DeviceOp

unfoldable pub step : DeviceOp → Registry → Registry
step (create_code role org site hash name now) r =
    (create_enrollment_code role org site hash name now r).1
step (enroll pepper hash name version token now) r =
    (enroll_device pepper hash name version token now r).1
step (revoke role org site id) r = (revoke_device role org site id r).1
step (authenticate pepper token token_hash now) r =
    (authenticate_device pepper token token_hash now r).1

unfoldable pub run : List DeviceOp → Registry → Registry
unfolding step
run [] r = r
run (op ∷ ops) r = run ops (step op r)

count_active-update :
    (org : ℕ) (p : DeviceRow → Bool) (f : DeviceRow → DeviceRow) (rows : List DeviceRow)
    → ((d : DeviceRow) → (f d).organization_id ≡ d.organization_id)
    → ((d : DeviceRow) → (f d).active ≡ true → d.active ≡ true)
    → count_active org (update p f rows) ≤ count_active org rows
count_active-update org p f [] same on = omega arith
count_active-update org p f (d ∷ rows) same on =
    ground (arith, same d, on d, count_active-update org p f rows same on)

count_active-append :
    (org : ℕ) (rows : List DeviceRow) (d : DeviceRow)
    → count_active org (rows ++ d ∷ []) ≡ count_active org rows + count_active org (d ∷ [])
count_active-append org rows d =
    rw (select-append (λ d. d.organization_id == org && d.active) rows (d ∷ [])) (
      length-append (select (λ d. d.organization_id == org && d.active) rows)
        (select (λ d. d.organization_id == org && d.active) (d ∷ [])))

-- An organization has at most as many active devices as it may.
abbrev pub IsWithinLimit : ℕ → Tenant → Registry → Type 0
IsWithinLimit org o r =
    (r.organizations org ≡ some o) × (count_active org r.devices ≤ o.device_limit)

active_tenant-limit :
    (t : Option Tenant) (o o' : Tenant)
    → t ≡ some o
    → active_tenant t ≡ some o'
    → o'.device_limit ≡ o.device_limit
active_tenant-limit none o o' h k = ground (arith, h)
active_tenant-limit (some x) o o' h k = ground (arith, h, k)

enroll_row-within :
    (org : ℕ) (o : Tenant) (hash name version token : String) (now : ℕ) (r : Registry)
    (e : EnrollmentCode) (t : Option Tenant)
    → active_tenant (r.organizations e.organization_id) ≡ t
    → IsWithinLimit org o r
    → IsWithinLimit org o (enroll_found hash name version token now (some e) t r).1
unfolding enroll_found
enroll_row-within org o hash name version token now r e none at h = h
enroll_row-within org o hash name version token now r e (some o') at (tenant, le) =
    elim (Bool-cases (leb o'.device_limit (count_active e.organization_id r.devices))) [
      | inl full ↦ rw full (tenant, le)
      | inr free ↦ rw free (
        tenant,
        rw (count_active-append org r.devices (new_device e name version token r.next_id))
            (elim (Bool-cases (e.organization_id == org)) [
              | inl own ↦
                  let same : e.organization_id ≡ org = (nat_beq_iff e.organization_id org).0 own in
                  let limit =
                    active_tenant-limit (r.organizations org) o o' tenant (rw same at at) in
                  ground (arith, same, rw same at free, limit)
              | inr other ↦ ground (arith, other, le)
            ]),
      )
    ]

enroll_found-within :
    (org : ℕ) (o : Tenant) (hash name version token : String) (now : ℕ) (r : Registry)
    (found : Option EnrollmentCode)
    → IsWithinLimit org o r
    → IsWithinLimit org o (enroll_found hash name version token now found (tenant_of r found) r).1
enroll_found-within org o hash name version token now r none h = unfold enroll_found in h
enroll_found-within org o hash name version token now r (some e) h =
    enroll_row-within org o hash name version token now r e
      (active_tenant (r.organizations e.organization_id)) refl h

authenticated-within :
    (org : ℕ) (o : Tenant) (now : ℕ) (found : Option DeviceRow) (r : Registry)
    → IsWithinLimit org o r
    → IsWithinLimit org o (authenticated now found r).1
unfolding authenticated
authenticated-within org o now none r h = h
authenticated-within org o now (some d) r (tenant, le) = (
  tenant,
  omega (
    arith,
    le,
    count_active-update org (λ x. x.id == d.id) (λ x. record x { last_seen_at = some now })
        r.devices (λ x. refl) (λ x on. on),
  ),
)

authenticate-within :
    (pepper : Bool) (token : Option (List ℕ)) (token_hash : List ℕ → String) (now org : ℕ)
    (o : Tenant) (r : Registry)
    → IsWithinLimit org o r
    → IsWithinLimit org o (authenticate_device pepper token token_hash now r).1
unfolding authenticate_device
authenticate-within pepper none token_hash now org o r h = h
authenticate-within pepper (some token) token_hash now org o r h =
    elim (Bool-cases (not pepper || ltb (length token) 32)) [
      | inl e ↦ rw e h
      | inr e ↦ rw e (authenticated-within org o now _ r h)
    ]

step-within :
    (op : DeviceOp) (org : ℕ) (o : Tenant) (r : Registry)
    → IsWithinLimit org o r
    → IsWithinLimit org o (step op r)
unfolding step enroll_device revoke_device create_enrollment_code authenticate_device
step-within (create_code role b site hash name now) org o r h = ground (arith, h)
step-within (enroll true hash name version token now) org o r h =
    enroll_found-within org o hash name version token now r (find? (usable_code hash now r) r.codes)
      h
step-within (enroll false hash name version token now) org o r h = h
step-within (revoke role b site id) org o r (tenant, le) =
    let fewer =
      count_active-update org (own_device b site id) (λ d. record d { active = false }) r.devices
        (λ x. refl) (λ x on. ground (arith, on)) in
    ground (arith, tenant, le, fewer)
step-within (authenticate pepper token token_hash now) org o r h =
    authenticate-within pepper token token_hash now org o r h

-- Whatever codes are drawn, devices enrolled, authenticated and revoked, in any order: an organization
-- that has at most as many active devices as its limit allows never gets more.
pub run-IsWithinLimit :
    (ops : List DeviceOp) (org : ℕ) (o : Tenant) (r : Registry)
    → IsWithinLimit org o r
    → IsWithinLimit org o (run ops r)
unfolding run
run-IsWithinLimit [] org o r h = h
run-IsWithinLimit (op ∷ ops) org o r h =
    run-IsWithinLimit ops org o (step op r) (step-within op org o r h)
