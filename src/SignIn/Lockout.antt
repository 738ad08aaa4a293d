-- ===== src/SignIn/Lockout.antt =====
-- The lock after failed logins, `authenticate` (services/enrichment/app/local_auth.py).
use challanse_website.SignIn.{
  LocalUser, Credential, Vault, Verifiers, Login, lockout, locks, is_locked, set_credential,
  failed_credential, verify_second_factor, signed_in, judge, check_factor, login_user, is_reviewer,
  login_found, authenticate,
}
use challanse_website.SignIn.Recovery.{run}
use challanse_website.Prelude.{
  ℕ, String, ◌≡◌, refl, sym, ap, ◌∙◌, subst, inl, inr, Bool, true, false, not, Option, none, some,
  List, [], ◌∷◌, arith, ◌+◌, ◌≤◌, ◌<◌, leb, ◌==◌, ◌||◌, Bool-cases, nat_beq_iff, nat_eq, find?, All,
}

-- Five failures at most are counted, and with the fifth the credential is locked for the whole time.
abbrev pub IsGuarded : ℕ → Credential → Type 0
IsGuarded start c =
    (c.failed_attempts ≤ 5)
    × (5 ≤ c.failed_attempts
        → ((now : ℕ) → now < start + lockout → is_locked c.locked_until now ≡ true))

abbrev pub IsGuardedAt : ℕ → Option Credential → Type 0
IsGuardedAt start none = Unit
IsGuardedAt start (some c) = IsGuarded start c

abbrev pub IsWithin : ℕ → Login → Type 0
IsWithin start login = (start ≤ login.now) × (login.now < start + lockout)

few-failures :
    (start now : ℕ) (c : Credential)
    → now < start + lockout
    → is_locked c.locked_until now ≡ false
    → IsGuarded start c
    → c.failed_attempts < 5
few-failures start now c until free h = elim (Bool-cases (leb 5 c.failed_attempts)) [
  | inl e ↦
      let held : is_locked c.locked_until now ≡ true = h.1 (ground (arith, e)) now until in
      let clash : true ≡ false = sym held ∙ free in ground (arith, clash)
  | inr e ↦ ground (arith, e)
]

failed-IsGuarded :
    (start now : ℕ) (c : Credential)
    → start ≤ now
    → now < start + lockout
    → is_locked c.locked_until now ≡ false
    → IsGuarded start c
    → IsGuarded start (failed_credential c now)
failed-IsGuarded start now c from until free h =
    let few = few-failures start now c until free h in
    (
      omega (arith, few),
      λ five t late.
          (let full : locks c ≡ true = ground (arith, five) in
            rw full (ground (arith, late, from))),
    )

signed_in-IsGuarded :
    (v : Verifiers) (start : ℕ) (c : Credential) (remaining : List String)
    → IsGuarded start (signed_in v c remaining)
signed_in-IsGuarded v start c remaining = (omega arith, λ five. absurd (omega (arith, five)))

IsGuardedAt-set :
    (start user i : ℕ) (c : Credential) (s : Vault)
    → (i ≡ user → IsGuarded start c)
    → IsGuardedAt start (s.credentials i)
    → IsGuardedAt start (set_credential user c s.credentials i)
IsGuardedAt-set start user i c s new old = elim (Bool-cases (i == user)) [
  | inl e ↦ rw e (new ((nat_beq_iff i user).0 e))
  | inr e ↦ rw e old
]

module _ (v : Verifiers) (ttl start : ℕ) where
  judge-IsGuarded :
      (user i : ℕ) (c : Credential) (login : Login) (valid used : Bool) (remaining : List String)
      (s : Vault)
      → IsWithin start login
      → is_locked c.locked_until login.now ≡ false
      → (i ≡ user → IsGuarded start c)
      → IsGuardedAt start (s.credentials i)
      → IsGuardedAt start ((judge v ttl user c login (valid, remaining, used) s).1.credentials i)
  judge-IsGuarded user i c login valid used remaining s within free own old =
      elim (Bool-cases (not (v.verify_password c.password_hash login.password) || not valid)) [
        | inl e ↦ rw e (
            IsGuardedAt-set start user i (failed_credential c login.now) s
              (λ same. failed-IsGuarded start login.now c within.0 within.1 free (own same)) old)
        | inr e ↦ rw e (
            IsGuardedAt-set start user i (signed_in v c remaining) s
              (λ same. signed_in-IsGuarded v start c remaining) old)
      ]

  check_factor-IsGuarded :
      (user i : ℕ) (c : Credential) (login : Login) (secret : Option String) (s : Vault)
      → IsWithin start login
      → is_locked c.locked_until login.now ≡ false
      → (i ≡ user → IsGuarded start c)
      → IsGuardedAt start (s.credentials i)
      → IsGuardedAt start ((check_factor v ttl user c login secret s).1.credentials i)
  unfolding check_factor
  check_factor-IsGuarded user i c login none s within free own old = old
  check_factor-IsGuarded user i c login (some secret) s within free own old =
      let verified =
        verify_second_factor v secret (v.strip login.second_factor) c.recovery_code_hashes
          login.now in
      judge-IsGuarded user i c login verified.0 verified.2 verified.1 s within free own old

  login_user-IsGuarded :
      (user i : ℕ) (login : Login) (found : Option Credential) (s : Vault)
      → IsWithin start login
      → s.credentials user ≡ found
      → IsGuardedAt start (s.credentials i)
      → IsGuardedAt start ((login_user v ttl user login found s).1.credentials i)
  unfolding login_user
  login_user-IsGuarded user i login none s within at old = old
  login_user-IsGuarded user i login (some c) s within at old =
      elim (Bool-cases (is_locked c.locked_until login.now)) [
        | inl e ↦ rw e old
        | inr e ↦ rw e (
            check_factor-IsGuarded user i c login (v.decrypt c.totp_secret_ciphertext) s within e
              (λ same. subst (IsGuardedAt start) (ap s.credentials same ∙ at) old) old)
      ]

  login_found-IsGuarded :
      (i : ℕ) (login : Login) (found : Option LocalUser) (s : Vault)
      → IsWithin start login
      → IsGuardedAt start (s.credentials i)
      → IsGuardedAt start ((login_found v ttl login found s).1.credentials i)
  unfolding login_found
  login_found-IsGuarded i login none s within old = old
  login_found-IsGuarded i login (some u) s within old =
      login_user-IsGuarded u.id i login (s.credentials u.id) s within refl old

  run-IsGuarded :
      (i : ℕ) (logins : List Login) (s : Vault)
      → All (IsWithin start) logins
      → IsGuardedAt start (s.credentials i)
      → IsGuardedAt start ((run v ttl logins s).credentials i)
  unfolding run authenticate
  run-IsGuarded i [] s within old = old
  run-IsGuarded i (login ∷ logins) s within old =
      run-IsGuarded i logins (authenticate v ttl login s).1 within.1 (
        login_found-IsGuarded i login
          (find? (is_reviewer v (v.lower (v.strip login.email)) s) s.users) s within.0 old)

  -- In logins of anyone within fifteen minutes, in any number, the failures that are counted for a user
  -- who had none before stay at most five, and when they are five the credential is locked at every
  -- time before the fifteen minutes are over.
  pub run-IsLimited :
      (i : ℕ) (logins : List Login) (s : Vault) (c c' : Credential)
      → All (IsWithin start) logins
      → s.credentials i ≡ some c
      → c.failed_attempts ≡ 0
      → (run v ttl logins s).credentials i ≡ some c'
      → IsGuarded start c'
  run-IsLimited i logins s c c' within at none_failed after =
      let first : IsGuarded start c =
        (omega (arith, none_failed), λ five. absurd (omega (arith, five, none_failed))) in
      subst (IsGuardedAt start) after
        (run-IsGuarded i logins s within (subst (IsGuardedAt start) (sym at) first))
