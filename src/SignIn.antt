-- ===== src/SignIn.antt =====
-- The sign-in of reviewers of the local pilot: `_verify_second_factor` and `authenticate` of
-- services/enrichment/app/local_auth.py.
pub mod Recovery
pub mod Lockout
mod Tests
use challanse_website.Prelude.{
  ℕ, String, Bool, true, false, not, Option, none, some, List, [], ◌∷◌, ◌++◌, ◌+◌, ◌*◌, ◌&&◌, ◌||◌,
  ltb, leb, ◌==◌, find?, delete, exists_in, Result, ok, err, Action, if◌then◌else◌, nat_eq,
  string_eq,
}

abbrev pub max_failed_attempts : ℕ
max_failed_attempts = 5

abbrev pub sign_in_minute : ℕ
sign_in_minute = 60_000_000

-- `LOCKOUT_MINUTES`
abbrev pub lockout : ℕ
lockout = 15 * sign_in_minute

-- `LocalIdentity`
pub record LocalIdentity : Type 0 where
  pub user_id : ℕ
  pub email : String
  pub csrf_token : String

pub record LocalUser : Type 0 where
  pub id : ℕ
  pub email : String
  pub active : Bool

-- A row of `local_reviewer_credentials`
pub record Credential : Type 0 where
  pub password_hash : String
  pub totp_secret_ciphertext : String
  pub recovery_code_hashes : List String
  pub failed_attempts : ℕ
  pub locked_until : Option ℕ
  pub enabled : Bool

-- A row of `local_reviewer_sessions`
pub record LocalSession : Type 0 where
  pub token_hash : String
  pub user_id : ℕ
  pub csrf_hash : String
  pub expires_at : ℕ

pub data AuthEventType : Type 0 where
  login_succeeded login_failed locked recovery_code_used : AuthEventType

pub record AuthEvent : Type 0 where
  pub id : ℕ
  pub user_id : Option ℕ
  pub event_type : AuthEventType

-- The tables; the credentials by their primary key.
pub record Vault : Type 0 where
  pub users : List LocalUser
  pub credentials : ℕ → Option Credential
  pub sessions : List LocalSession
  pub auth_events : List AuthEvent
  pub next_id : ℕ

-- What the functions outside the repository answer: `str.strip`, `str.lower`, SHA-256, argon2, Fernet
-- with the key of the settings, and the time-based codes of pyotp in a window of one step.
pub record Verifiers : Type 0 where
  pub strip : String → String
  pub lower : String → String
  pub sha256 : String → String
  pub verify_password : String → String → Bool
  pub decrypt : String → Option String
  pub verify_totp : String → String → ℕ → Bool

-- The form, and what is drawn for the session.
pub record Login : Type 0 where
  pub email : String
  pub password : String
  pub second_factor : String
  pub token : String
  pub csrf : String
  pub now : ℕ

abbrev pub has_code : String → List String → Bool
has_code hash hashes = exists_in (λ h. h == hash) hashes

abbrev pub is_locked : Option ℕ → ℕ → Bool
is_locked none now = false
is_locked (some until) now = ltb now until

abbrev pub set_credential : ℕ → Credential → (ℕ → Option Credential) → ℕ → Option Credential
set_credential user c credentials i = if i == user then some c else credentials i

abbrev pub audit : AuthEventType → Option ℕ → Vault → Vault
audit type user s = record s {
  auth_events = s.auth_events ++ record { id = s.next_id; user_id = user; event_type = type } ∷ [];
  next_id = s.next_id + 1;
}

-- Whether a failure locks the account
abbrev pub locks : Credential → Bool
locks c = leb max_failed_attempts (c.failed_attempts + 1)

abbrev pub failed_credential : Credential → ℕ → Credential
failed_credential c now = record c {
  failed_attempts = c.failed_attempts + 1;
  locked_until = (if locks c then some (now + lockout) else none);
}

abbrev pub fail_login : ℕ → Credential → ℕ → Action Vault LocalIdentity
fail_login user c now s = (
  err "invalid_credentials",
  audit (if locks c then locked else login_failed) (some user)
      (record s { credentials = set_credential user (failed_credential c now) s.credentials }),
)

abbrev pub is_enabled : Option Credential → Bool
is_enabled none = false
is_enabled (some c) = c.enabled

module _ (v : Verifiers) where
  -- Whether the second factor is valid, the recovery codes that remain, and whether one was used.
  unfoldable pub verify_second_factor :
      String → String → List String → ℕ → Bool × List String × Bool
  verify_second_factor secret supplied recovery_hashes now =
      if v.verify_totp secret supplied now
      then (true, recovery_hashes, false)
      else if has_code (v.sha256 supplied) recovery_hashes
      then (true, delete (λ h. h == v.sha256 supplied) recovery_hashes, true)
      else (false, recovery_hashes, false)

  abbrev pub signed_in : Credential → List String → Credential
  signed_in c remaining = record c {
    failed_attempts = 0;
    locked_until = none;
    recovery_code_hashes = remaining;
  }

  abbrev pub sign_in : ℕ → ℕ → Credential → Login → List String → Bool → Action Vault LocalIdentity
  sign_in ttl_minutes user c login remaining recovery_used s = (
    ok (record { user_id = user; email = v.lower (v.strip login.email); csrf_token = login.csrf }),
    audit (if recovery_used then recovery_code_used else login_succeeded) (some user) (record s {
      credentials = set_credential user (signed_in c remaining) s.credentials;
      sessions =
          delete (λ row. ltb row.expires_at login.now || row.user_id == user) s.sessions
          ++ record {
            token_hash = v.sha256 login.token;
            user_id = user;
            csrf_hash = v.sha256 login.csrf;
            expires_at = login.now + ttl_minutes * sign_in_minute;
          }
            ∷ [];
    }),
  )

  abbrev pub judge :
      ℕ → ℕ → Credential → Login → Bool × List String × Bool → Action Vault LocalIdentity
  judge ttl_minutes user c login (factor_valid, remaining, recovery_used) s =
      if not (v.verify_password c.password_hash login.password) || not factor_valid
      then fail_login user c login.now s
      else sign_in ttl_minutes user c login remaining recovery_used s

  unfoldable pub check_factor :
      ℕ → ℕ → Credential → Login → Option String → Action Vault LocalIdentity
  unfolding verify_second_factor
  check_factor ttl_minutes user c login none s = (err "reviewer_mfa_secret_invalid", s)
  check_factor ttl_minutes user c login (some secret) s =
      judge ttl_minutes user c login
        (verify_second_factor secret (v.strip login.second_factor) c.recovery_code_hashes login.now)
        s

  unfoldable pub login_user : ℕ → ℕ → Login → Option Credential → Action Vault LocalIdentity
  unfolding check_factor
  login_user ttl_minutes user login none s = (err "invalid_credentials", s)
  login_user ttl_minutes user login (some c) s =
      if is_locked c.locked_until login.now
      then (err "account_locked", s)
      else check_factor ttl_minutes user c login (v.decrypt c.totp_secret_ciphertext) s

  -- The user whom the query of the credential finds
  abbrev pub is_reviewer : String → Vault → LocalUser → Bool
  is_reviewer email s u = v.lower u.email == email && u.active && is_enabled (s.credentials u.id)

  unfoldable pub login_found : ℕ → Login → Option LocalUser → Action Vault LocalIdentity
  unfolding login_user
  login_found ttl_minutes login none s = (err "invalid_credentials", audit login_failed none s)
  login_found ttl_minutes login (some u) s =
      login_user ttl_minutes u.id login (s.credentials u.id) s

  unfoldable pub authenticate : ℕ → Login → Action Vault LocalIdentity
  unfolding login_found
  authenticate ttl_minutes login s =
      login_found ttl_minutes login (find? (is_reviewer (v.lower (v.strip login.email)) s) s.users)
        s
