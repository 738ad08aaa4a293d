-- ===== src/SignIn/Recovery.antt =====
-- Recovery codes under `authenticate` (services/enrichment/app/local_auth.py).
use challanse_website.SignIn.{
  LocalIdentity, LocalUser, Credential, Vault, Verifiers, Login, has_code, is_locked,
  set_credential, failed_credential, verify_second_factor, signed_in, sign_in, judge, check_factor,
  login_user, is_reviewer, login_found, authenticate,
}
use challanse_website.Prelude.{
  ℕ, String, ◌≡◌, ◌≢◌, refl, sym, ap, ◌∙◌, subst, inl, inr, Bool, true, false, not, Option, none,
  some, List, [], ◌∷◌, arith, ◌==◌, ◌||◌, Bool-cases, nat_beq_iff, nat_eq, string_eq, find?, delete,
  ok,
}

has_code-delete_self :
    (h : String) (hashes : List String) → has_code h (delete (λ x. x == h) hashes) ≡ false
has_code-delete_self h [] = refl
has_code-delete_self h (x ∷ xs) = elim (Bool-cases (x == h)) [
  | inl e ↦ rw e (has_code-delete_self h xs)
  | inr e ↦ rw e (rw e (has_code-delete_self h xs))
]

has_code-delete :
    (h : String) (p : String → Bool) (hashes : List String)
    → has_code h hashes ≡ false
    → has_code h (delete p hashes) ≡ false
has_code-delete h p [] e = refl
has_code-delete h p (x ∷ xs) e = ground (arith, e, has_code-delete h p xs)

-- The user, if the user has credentials, has not the recovery code.
abbrev pub Lacks : String → Option Credential → Type 0
Lacks h none = Unit
Lacks h (some c) = has_code h c.recovery_code_hashes ≡ false

Lacks-set :
    (h : String) (user i : ℕ) (c : Credential) (s : Vault)
    → (i ≡ user → has_code h c.recovery_code_hashes ≡ false)
    → Lacks h (s.credentials i)
    → Lacks h (set_credential user c s.credentials i)
Lacks-set h user i c s new old = elim (Bool-cases (i == user)) [
  | inl e ↦ rw e (new ((nat_beq_iff i user).0 e))
  | inr e ↦ rw e old
]

module _ (v : Verifiers) (ttl : ℕ) where
  verify-lacks :
      (h secret supplied : String) (hashes : List String) (now : ℕ)
      → has_code h hashes ≡ false
      → has_code h (verify_second_factor v secret supplied hashes now).1 ≡ false
  unfolding verify_second_factor
  verify-lacks h secret supplied hashes now e =
      ground (arith, e, has_code-delete h (λ x. x == v.sha256 supplied) hashes e)

  -- A second factor that is valid and no time-based code is a recovery code, which is used up.
  verify-uses :
      (secret supplied : String) (hashes : List String) (now : ℕ)
      → v.verify_totp secret supplied now ≡ false
      → (verify_second_factor v secret supplied hashes now).0 ≡ true
      → (has_code (v.sha256 supplied) hashes ≡ true)
        × (has_code (v.sha256 supplied) (verify_second_factor v secret supplied hashes now).1
            ≡ false)
  unfolding verify_second_factor
  verify-uses secret supplied hashes now totp valid =
      elim (Bool-cases (has_code (v.sha256 supplied) hashes)) [
        | inl e ↦ (e, rw totp (rw e (has_code-delete_self (v.sha256 supplied) hashes)))
        | inr e ↦ let k : false ≡ true = rw e at (rw totp at valid) in ground (arith, k)
      ]

  judge-Lacks :
      (h : String) (user i : ℕ) (c : Credential) (login : Login) (valid used : Bool)
      (remaining : List String) (s : Vault)
      → (i ≡ user → has_code h c.recovery_code_hashes ≡ false)
      → (i ≡ user → has_code h remaining ≡ false)
      → Lacks h (s.credentials i)
      → Lacks h ((judge v ttl user c login (valid, remaining, used) s).1.credentials i)
  judge-Lacks h user i c login valid used remaining s own left old =
      elim (Bool-cases (not (v.verify_password c.password_hash login.password) || not valid)) [
        | inl e ↦ rw e (Lacks-set h user i (failed_credential c login.now) s own old)
        | inr e ↦ rw e (Lacks-set h user i (signed_in v c remaining) s left old)
      ]

  check_factor-Lacks :
      (h : String) (user i : ℕ) (c : Credential) (login : Login) (secret : Option String)
      (s : Vault)
      → (i ≡ user → has_code h c.recovery_code_hashes ≡ false)
      → Lacks h (s.credentials i)
      → Lacks h ((check_factor v ttl user c login secret s).1.credentials i)
  unfolding check_factor
  check_factor-Lacks h user i c login none s own old = old
  check_factor-Lacks h user i c login (some secret) s own old =
      let supplied = v.strip login.second_factor in
      let verified = verify_second_factor v secret supplied c.recovery_code_hashes login.now in
      judge-Lacks h user i c login verified.0 verified.2 verified.1 s own
        (λ same. verify-lacks h secret supplied c.recovery_code_hashes login.now (own same)) old

  login_user-Lacks :
      (h : String) (user i : ℕ) (login : Login) (found : Option Credential) (s : Vault)
      → s.credentials user ≡ found
      → Lacks h (s.credentials i)
      → Lacks h ((login_user v ttl user login found s).1.credentials i)
  unfolding login_user
  login_user-Lacks h user i login none s at old = old
  login_user-Lacks h user i login (some c) s at old =
      elim (Bool-cases (is_locked c.locked_until login.now)) [
        | inl e ↦ rw e old
        | inr e ↦ rw e (
            check_factor-Lacks h user i c login (v.decrypt c.totp_secret_ciphertext) s
              (λ same. subst (Lacks h) (ap s.credentials same ∙ at) old) old)
      ]

  login_found-Lacks :
      (h : String) (i : ℕ) (login : Login) (found : Option LocalUser) (s : Vault)
      → Lacks h (s.credentials i)
      → Lacks h ((login_found v ttl login found s).1.credentials i)
  unfolding login_found
  login_found-Lacks h i login none s old = old
  login_found-Lacks h i login (some u) s old =
      login_user-Lacks h u.id i login (s.credentials u.id) s refl old

  -- Logins that follow one another, of anyone.
  unfoldable pub run : List Login → Vault → Vault
  run [] s = s
  run (login ∷ logins) s = run logins (authenticate v ttl login s).1

  run-Lacks :
      (h : String) (i : ℕ) (logins : List Login) (s : Vault)
      → Lacks h (s.credentials i)
      → Lacks h ((run logins s).credentials i)
  unfolding run authenticate
  run-Lacks h i [] s old = old
  run-Lacks h i (login ∷ logins) s old = run-Lacks h i logins (authenticate v ttl login s).1 (
      login_found-Lacks h i login (find? (is_reviewer v (v.lower (v.strip login.email)) s) s.users)
        s old)

  -- No time-based code is the second factor.
  abbrev pub IsNoTotp : Login → Type 0
  IsNoTotp login =
      (secret : String) (now : ℕ) → v.verify_totp secret (v.strip login.second_factor) now ≡ false

  abbrev pub code_of : Login → String
  code_of login = v.sha256 (v.strip login.second_factor)

  -- What a login that answers so says of the user: the code was there, and is not there any more.
  abbrev UsesUp : Login → Vault → LocalIdentity → Vault → Type 0
  UsesUp login s a after =
      (Lacks (code_of login) (s.credentials a.user_id) → ⊥)
      × Lacks (code_of login) (after.credentials a.user_id)

  judge-UsesUp :
      (user : ℕ) (c : Credential) (login : Login) (valid used : Bool) (remaining : List String)
      (s : Vault) (a : LocalIdentity)
      → s.credentials user ≡ some c
      → (valid ≡ true
          → (has_code (code_of login) c.recovery_code_hashes ≡ true)
            × (has_code (code_of login) remaining ≡ false))
      → (judge v ttl user c login (valid, remaining, used) s).0 ≡ ok a
      → UsesUp login s a (judge v ttl user c login (valid, remaining, used) s).1
  judge-UsesUp user c login valid used remaining s a at uses h =
      elim (Bool-cases (not (v.verify_password c.password_hash login.password) || not valid)) [
        | inl e ↦ ground (arith, rw e at h)
        | inr e ↦
            let k : (sign_in v ttl user c login remaining used s).0 ≡ ok a = rw e at h in
            let who : a.user_id ≡ user = ground (arith, k) in
            let (had, left) = uses (ground (arith, e)) in
            rw e (
              rw who (
                (λ lacks.
                    (let lacks' : Lacks (code_of login) (some c) =
                        subst (Lacks (code_of login)) at lacks in
                      ground (arith, lacks', had))),
                rw ((nat_beq_iff user user).1 refl) left,
              ))
      ]

  check_factor-UsesUp :
      (user : ℕ) (c : Credential) (login : Login) (secret : Option String) (s : Vault)
      (a : LocalIdentity)
      → IsNoTotp login
      → s.credentials user ≡ some c
      → (check_factor v ttl user c login secret s).0 ≡ ok a
      → UsesUp login s a (check_factor v ttl user c login secret s).1
  unfolding check_factor
  check_factor-UsesUp user c login none s a never at h = ground (arith, h)
  check_factor-UsesUp user c login (some secret) s a never at h =
      let supplied = v.strip login.second_factor in
      let verified = verify_second_factor v secret supplied c.recovery_code_hashes login.now in
      judge-UsesUp user c login verified.0 verified.2 verified.1 s a at
        (verify-uses secret supplied c.recovery_code_hashes login.now (never secret login.now)) h

  login_user-UsesUp :
      (user : ℕ) (login : Login) (found : Option Credential) (s : Vault) (a : LocalIdentity)
      → IsNoTotp login
      → s.credentials user ≡ found
      → (login_user v ttl user login found s).0 ≡ ok a
      → UsesUp login s a (login_user v ttl user login found s).1
  unfolding login_user
  login_user-UsesUp user login none s a never at h = ground (arith, h)
  login_user-UsesUp user login (some c) s a never at h =
      elim (Bool-cases (is_locked c.locked_until login.now)) [
        | inl e ↦ ground (arith, rw e at h)
        | inr e ↦ rw e (
            check_factor-UsesUp user c login (v.decrypt c.totp_secret_ciphertext) s a never at
              (rw e at h))
      ]

  login_found-UsesUp :
      (login : Login) (found : Option LocalUser) (s : Vault) (a : LocalIdentity)
      → IsNoTotp login
      → (login_found v ttl login found s).0 ≡ ok a
      → UsesUp login s a (login_found v ttl login found s).1
  unfolding login_found
  login_found-UsesUp login none s a never h = ground (arith, h)
  login_found-UsesUp login (some u) s a never h =
      login_user-UsesUp u.id login (s.credentials u.id) s a never refl h

  authenticate-UsesUp :
      (login : Login) (s : Vault) (a : LocalIdentity)
      → IsNoTotp login
      → (authenticate v ttl login s).0 ≡ ok a
      → UsesUp login s a (authenticate v ttl login s).1
  unfolding authenticate
  authenticate-UsesUp login s a never h =
      login_found-UsesUp login (find? (is_reviewer v (v.lower (v.strip login.email)) s) s.users) s a
        never h

  -- A recovery code that has signed a user in signs the same user in no more, whatever logins of anyone
  -- come in between. The code is not also a time-based code, of any secret at any time.
  pub recovery_code_once :
      (login again : Login) (a b : LocalIdentity) (between : List Login) (s : Vault)
      → IsNoTotp login
      → v.strip again.second_factor ≡ v.strip login.second_factor
      → (authenticate v ttl login s).0 ≡ ok a
      → (authenticate v ttl again (run between (authenticate v ttl login s).1)).0 ≡ ok b
      → b.user_id ≢ a.user_id
  recovery_code_once login again a b between s never same first second who =
      let later = run between (authenticate v ttl login s).1 in
      let used = authenticate-UsesUp login s a never first in
      let never' : IsNoTotp again =
        λ secret now. ap (λ f. v.verify_totp secret f now) same ∙ never secret now in
      let needs = authenticate-UsesUp again later b never' second in
      let gone =
        run-Lacks (code_of login) a.user_id between (authenticate v ttl login s).1 used.1 in
      needs.0 (
        subst (λ i. Lacks (code_of again) (later.credentials i)) (sym who)
          (subst (λ f. Lacks (v.sha256 f) (later.credentials a.user_id)) (sym same) gone))
