-- ===== src/SignIn/Tests.antt =====
-- Two reviewers, who were given the same recovery code.
use challanse_website.SignIn.{
  Credential, LocalIdentity, Vault, Verifiers, Login, verify_second_factor, check_factor,
  login_user, login_found, authenticate,
}
use challanse_website.SignIn.Recovery.{run, recovery_code_once}
use challanse_website.SignIn.Lockout.{IsGuarded, run-IsLimited}
use challanse_website.Prelude.{
  ℕ, String, ◌≡◌, ◌≢◌, refl, true, none, some, [], ◌∷◌, arith, ◌==◌, err, nat_eq, string_eq,
  if◌then◌else◌,
}

abbrev verifiers : Verifiers
verifiers = record {
  strip = λ t. t;
  lower = λ t. t;
  sha256 = λ t. t;
  verify_password = λ hash password. hash == password;
  decrypt = λ t. some t;
  verify_totp = λ secret supplied now. supplied == "123456";
}

abbrev credential : ℕ → Credential
credential failed = record {
  password_hash = "correct horse";
  totp_secret_ciphertext = "secret";
  recovery_code_hashes = "recover" ∷ [];
  failed_attempts = failed;
  locked_until = none;
  enabled = true;
}

abbrev vault : Vault
vault = record {
  users =
      record { id = 1; email = "a"; active = true }
      ∷ record { id = 2; email = "b"; active = true }
      ∷ [];
  credentials = λ i. if i == 1 then some (credential 0) else some (credential 0);
  sessions = [];
  auth_events = [];
  next_id = 10;
}

abbrev login : String → String → String → ℕ → Login
login email password factor now = record {
  email = email;
  password = password;
  second_factor = factor;
  token = "t";
  csrf = "c";
  now = now;
}

abbrev identity : ℕ → String → LocalIdentity
identity user email = record { user_id = user; email = email; csrf_token = "c" }

recovery_code_once_example : (identity 2 "b").user_id ≢ (identity 1 "a").user_id
unfolding authenticate login_found login_user check_factor verify_second_factor run
recovery_code_once_example =
    recovery_code_once verifiers 30 (login "a" "correct horse" "recover" 5)
      (login "b" "correct horse" "recover" 9) (identity 1 "a") (identity 2 "b")
      (login "a" "wrong" "recover" 6 ∷ []) vault (λ secret now. refl) refl refl refl

run-IsLimited_example : IsGuarded 5 (credential 2)
unfolding authenticate login_found login_user check_factor verify_second_factor run
run-IsLimited_example =
    run-IsLimited verifiers 30 5 1 (login "a" "wrong" "recover" 6 ∷ login "a" "wrong" "1" 7 ∷ [])
      vault (credential 0) (credential 2)
      ((omega arith, omega arith), ((omega arith, omega arith), tt)) refl refl refl

-- A code that was used is refused.
used_code :
    (authenticate verifiers 30
      (login "a" "correct horse" "recover" 9)
      (authenticate verifiers 30 (login "a" "correct horse" "recover" 5) vault).1).0
    ≡ err "invalid_credentials"
unfolding authenticate login_found login_user check_factor verify_second_factor
used_code = refl
