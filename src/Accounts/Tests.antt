-- ===== src/Accounts/Tests.antt =====
-- A user who signs in.
use ai_powered_codebase_engi.Prelude.{◌≡◌, refl, true, none, [], ◌∷◌, false, ◌==◌, arith}
use ai_powered_codebase_engi.Prelude.Result.{ok}
use ai_powered_codebase_engi.Sql.{update_where, select_where}
use ai_powered_codebase_engi.Accounts.Model.{
  User, Identity, Tables, Crypto, has_email, find_user, set_hash, has_id, delete_expired_sessions,
  delete_session, without_previous, session_of, new_session, rehashed, store_hash, login_as, login,
}
use ai_powered_codebase_engi.Accounts.Sessions.{IsSession, login-IsSession}

abbrev crypto : Crypto
crypto = record {
  hash_password = λ password. 11;
  verify_password = λ hash password. hash == 11;
  needs_rehash = λ hash. false;
  token_hash = λ token. token;
  valid_token = λ token. true;
  dummy_hash = 0;
  lifetime = 100;
}

abbrev ada : User
ada = record { id = 1; email = "ada"; name = "Ada"; password_hash = 11 }

abbrev before : Tables
before = record {
  users = ada ∷ [];
  sessions = record { token_hash = 5; user_id = 1; expires_at = 8 } ∷ [];
}

abbrev identity : Identity
identity = record {
  user = ada;
  session = record { token_hash = 9; user_id = 1; expires_at = 120 };
  token = 9;
}

abbrev after : Tables
after = record {
  users = ada ∷ [];
  sessions = record { token_hash = 9; user_id = 1; expires_at = 120 } ∷ [];
}

signed_in : login crypto 10 20 9 "ada" "secret" none before ≡ ok (identity, after)
unfolding update_where select_where has_email find_user set_hash has_id delete_expired_sessions
    delete_session without_previous session_of new_session rehashed store_hash login_as login
signed_in = refl

login-IsSession_example : IsSession crypto 20 30 9 identity after
login-IsSession_example =
    login-IsSession crypto 10 20 9 30 "ada" "secret" none before refl (ground arith, tt)
      (omega arith) signed_in
