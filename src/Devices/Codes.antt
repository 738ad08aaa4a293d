-- ===== src/Devices/Codes.antt =====
-- An enrollment code enrolls one device: `enroll_device` and `create_enrollment_code` of
-- services/enrichment/app/authoritative.py.
use challanse_website.Devices.{
  DeviceRow, EnrollmentCode, Tenant, Registry, authenticate_device, authenticated,
}
use challanse_website.Devices.Enroll.{
  count_active, usable_code, use_code, enroll_found, tenant_of, enroll_device, Role, revoke_device,
  create_enrollment_code, role_beq, org_admin, site_admin,
}
use challanse_website.Devices.Enrollment.{
  DeviceOp, step, run, create_code, enroll, revoke, authenticate,
}
use challanse_website.Prelude.{
  exists_in-update, exists_in-append, ◌∙◌, ℕ, String, ◌≡◌, refl, sym, subst, inl, inr, Bool, true,
  false, not, Option, none, some, List, [], ◌∷◌, arith, ◌&&◌, ◌||◌, ltb, leb, ◌==◌, Bool-cases,
  is_some, length, find?, find?-IsNone, exists_in, All, All-mono, All-update, All-updated,
  All-append_one, ok, err, nat_eq, string_eq,
}

-- The code is in the table, and was used.
abbrev IsUsed : String → EnrollmentCode → Type 0
IsUsed hash e = e.code_hash == hash ≡ true → is_some e.used_at ≡ true

abbrev pub IsSpent : String → Registry → Type 0
IsSpent hash r = (exists_in (λ e. e.code_hash == hash) r.codes ≡ true) × All (IsUsed hash) r.codes

use_code-IsSpent :
    (hash other : String) (now : ℕ) (r : Registry)
    → IsSpent hash r
    → All (IsUsed hash) (use_code other now r.codes)
use_code-IsSpent hash other now r (there, used) =
    All-update (IsUsed hash) (λ e. e.code_hash == other && not (is_some e.used_at))
      (λ e. record e { used_at = some now }) r.codes (λ e h k same. refl) used

enroll_found-IsSpent :
    (hash other name version token : String) (now : ℕ) (r : Registry)
    (found : Option EnrollmentCode) (t : Option Tenant)
    → IsSpent hash r
    → IsSpent hash (enroll_found other name version token now found t r).1
unfolding enroll_found
enroll_found-IsSpent hash other name version token now r none t h = h
enroll_found-IsSpent hash other name version token now r (some e) none h = h
enroll_found-IsSpent hash other name version token now r (some e) (some o) (there, used) =
    elim (Bool-cases (leb o.device_limit (count_active e.organization_id r.devices))) [
      | inl full ↦ rw full (there, used)
      | inr free ↦ rw free (
        rw
            (exists_in-update (λ e. e.code_hash == hash)
              (λ e. e.code_hash == other && not (is_some e.used_at))
              (λ e. record e { used_at = some now }) r.codes (λ e. refl))
            there,
        use_code-IsSpent hash other now r (there, used),
      )
    ]

create-IsSpent :
    (hash : String) (role : Role) (b b' : ℕ) (other name : String) (now : ℕ) (r : Registry)
    → IsSpent hash r
    → IsSpent hash (create_enrollment_code role b b' other name now r).1
unfolding create_enrollment_code
create-IsSpent hash role b b' other name now r (there, used) =
    elim (Bool-cases (role_beq role org_admin || role_beq role site_admin)) [
      | inl e ↦ rw e (elim (Bool-cases (exists_in (λ e. e.code_hash == other) r.codes)) [
        | inl known ↦ rw known (there, used)
        | inr new ↦ rw new (
          exists_in-append (λ e. e.code_hash == hash) r.codes _ ∙ rw there refl,
          All-append_one (IsUsed hash) r.codes _ used (λ same.
              let known =
                subst (λ h. exists_in (λ e. e.code_hash == h) r.codes ≡ true)
                  (sym ((string_eq.same_iff other hash).0 same)) there in
              cc (known, new)),
        )
      ])
      | inr e ↦ rw e (there, used)
    ]

authenticated-codes :
    (now : ℕ) (found : Option DeviceRow) (r : Registry)
    → (authenticated now found r).1.codes ≡ r.codes
unfolding authenticated
authenticated-codes now none r = refl
authenticated-codes now (some d) r = refl

authenticate-codes :
    (pepper : Bool) (token : Option (List ℕ)) (token_hash : List ℕ → String) (now : ℕ)
    (r : Registry)
    → (authenticate_device pepper token token_hash now r).1.codes ≡ r.codes
unfolding authenticate_device
authenticate-codes pepper none token_hash now r = refl
authenticate-codes pepper (some token) token_hash now r =
    elim (Bool-cases (not pepper || ltb (length token) 32)) [
      | inl e ↦ rw e refl
      | inr e ↦ rw e (authenticated-codes now _ r)
    ]

revoke-codes :
    (role : Role) (b b' i : ℕ) (r : Registry) → (revoke_device role b b' i r).1.codes ≡ r.codes
unfolding revoke_device
revoke-codes role b b' i r = ground arith

step-IsSpent :
    (op : DeviceOp) (hash : String) (r : Registry) → IsSpent hash r → IsSpent hash (step op r)
unfolding step enroll_device
step-IsSpent (create_code role b b' other name now) hash r h =
    create-IsSpent hash role b b' other name now r h
step-IsSpent (enroll true other name version token now) hash r h =
    enroll_found-IsSpent hash other name version token now r
      (find? (usable_code other now r) r.codes) _ h
step-IsSpent (enroll false other name version token now) hash r h = h
step-IsSpent (revoke role b b' i) hash r h = rw (revoke-codes role b b' i r) h
step-IsSpent (authenticate pepper token token_hash now) hash r h =
    rw (authenticate-codes pepper token token_hash now r) h

run-IsSpent :
    (ops : List DeviceOp) (hash : String) (r : Registry) → IsSpent hash r → IsSpent hash (run ops r)
unfolding run
run-IsSpent [] hash r h = h
run-IsSpent (op ∷ ops) hash r h = run-IsSpent ops hash (step op r) (step-IsSpent op hash r h)

spent_rejected :
    (hash name version token : String) (now : ℕ) (r : Registry)
    → IsSpent hash r
    → enroll_device true hash name version token now r ≡ (err "ENROLLMENT_EXPIRED", r)
unfolding enroll_device enroll_found
spent_rejected hash name version token now r (there, used) =
    rw
      (find?-IsNone (usable_code hash now r) r.codes (
        All-mono (IsUsed hash) (λ e. usable_code hash now r e ≡ false) r.codes
          (λ e h. ground (arith, h)) used))
      refl

exists_in-found :
    (p q : EnrollmentCode → Bool) (rows : List EnrollmentCode) (e : EnrollmentCode)
    → ((e : EnrollmentCode) → p e ≡ true → q e ≡ true)
    → find? p rows ≡ some e
    → exists_in q rows ≡ true
exists_in-found p q [] e h found = ground (arith, found)
exists_in-found p q (x ∷ rows) e h found = ground (arith, h x, found, exists_in-found p q rows e h)

enroll_found-spends :
    (hash name version token : String) (now id : ℕ) (r : Registry) (found : Option EnrollmentCode)
    (t : Option Tenant)
    → find? (usable_code hash now r) r.codes ≡ found
    → (enroll_found hash name version token now found t r).0 ≡ ok id
    → IsSpent hash (enroll_found hash name version token now found t r).1
unfolding enroll_found
enroll_found-spends hash name version token now id r none t at h = ground (arith, h)
enroll_found-spends hash name version token now id r (some e) none at h = ground (arith, h)
enroll_found-spends hash name version token now id r (some e) (some o) at h =
    elim (Bool-cases (leb o.device_limit (count_active e.organization_id r.devices))) [
      | inl full ↦ ground (arith, rw full at h)
      | inr free ↦ rw free (
        rw
            (exists_in-update (λ e. e.code_hash == hash)
              (λ e. e.code_hash == hash && not (is_some e.used_at))
              (λ e. record e { used_at = some now }) r.codes (λ e. refl))
            (exists_in-found (usable_code hash now r) (λ e. e.code_hash == hash) r.codes e
              (λ e k. ground (arith, k)) at),
        All-updated (IsUsed hash) (λ e. e.code_hash == hash && not (is_some e.used_at))
            (λ e. record e { used_at = some now }) r.codes (λ e k same. refl)
            (λ e k same. ground (arith, k, same)),
      )
    ]

-- A code that has enrolled a device enrolls no other: whatever codes are drawn, devices enrolled,
-- authenticated and revoked in between, a later enrollment with it is refused as expired and
-- changes nothing.
pub code_used_once :
    (hash name version token name' version' token' : String) (now later id : ℕ) (r : Registry)
    (ops : List DeviceOp)
    → (enroll_device true hash name version token now r).0 ≡ ok id
    → let r' = run ops (enroll_device true hash name version token now r).1 in
      enroll_device true hash name' version' token' later r' ≡ (err "ENROLLMENT_EXPIRED", r')
code_used_once hash name version token name' version' token' now later id r ops h =
    let found = find? (usable_code hash now r) r.codes in
    let spent =
      enroll_found-spends hash name version token now id r found (tenant_of r found) refl
        (unfold enroll_device in h) in
    let r₁ = (enroll_device true hash name version token now r).1 in
    spent_rejected hash name' version' token' later (run ops r₁)
      (run-IsSpent ops hash r₁ (unfold enroll_device in spent))
