-- ===== src/Accounts/Model.antt =====
-- services/auth.py and repositories/auth.py. Password hashes, digests and tokens are numbers;
-- hashing and the form of a token are a record of functions, and a new token is a parameter.
use text.Mathlib.Text
use ai_powered_codebase_engi.Prelude.{
  ℕ, ◌+◌, ◌&&◌, not, String, Bool, Option, none, some, List, [], ◌∷◌, ◌++◌, any, ltb, leb, ◌==◌,
  if◌then◌else◌,
}
use ai_powered_codebase_engi.Prelude.Result.{Result, ok, err, app_error, raise_if, ◌>>◌}
use ai_powered_codebase_engi.Sql.{update_where, select_where, scalar, find}

pub record User : Type 0 where
  pub id : ℕ
  pub email : String
  pub name : String
  pub password_hash : ℕ

pub record Session : Type 0 where
  pub token_hash : ℕ
  pub user_id : ℕ
  pub expires_at : ℕ

pub record Identity : Type 0 where
  pub user : User
  pub session : Session
  pub token : ℕ

pub record Tables : Type 0 where
  pub users : List User
  pub sessions : List Session

-- auth/passwords.py and auth/tokens.py, with the service's settings
pub record Crypto : Type 0 where
  pub hash_password : String → ℕ
  pub verify_password : ℕ → String → Bool
  pub needs_rehash : ℕ → Bool
  pub token_hash : ℕ → ℕ
  pub valid_token : ℕ → Bool
  pub dummy_hash : ℕ
  pub lifetime : ℕ

abbrev pub user_id : User → ℕ
user_id u = u.id

unfoldable pub has_email : String → User → Bool
has_email email u = Text.◌==◌ u.email email

-- `find_user`
unfoldable pub find_user : String → List User → Option User
unfolding has_email
find_user email users = scalar (select_where (has_email email) users)

unfoldable pub is_live : ℕ → ℕ → Session → Bool
is_live digest now s = s.token_hash == digest && ltb now s.expires_at

unfoldable pub first_row : Session → Option User → Option (User × Session) → Option (User × Session)
first_row s none rest = rest
first_row s (some u) rest = some (u, s)

-- The first row of the join
unfoldable pub join_user : List User → List Session → Option (User × Session)
unfolding first_row
join_user users [] = none
join_user users (s ∷ ss) =
    let rest = join_user users ss in first_row s (find user_id s.user_id users) rest

-- `find_session`
unfoldable pub find_session : ℕ → ℕ → Tables → Option (User × Session)
unfolding is_live join_user
find_session digest now db = join_user db.users (select_where (is_live digest now) db.sessions)

unfoldable pub other_hash : ℕ → Session → Bool
other_hash digest s = not (s.token_hash == digest)

-- `delete_session`
unfoldable pub delete_session : ℕ → List Session → List Session
unfolding other_hash
delete_session digest = select_where (other_hash digest)

unfoldable pub is_unexpired : ℕ → Session → Bool
is_unexpired now s = not (leb s.expires_at now)

-- `delete_expired_sessions`
unfoldable pub delete_expired_sessions : ℕ → List Session → List Session
unfolding is_unexpired
delete_expired_sessions now = select_where (is_unexpired now)

unfoldable pub set_hash : ℕ → User → User
set_hash hash u = record u { password_hash = hash }

unfoldable pub has_id : ℕ → User → Bool
has_id id u = u.id == id

module _ (crypto : Crypto) where
  unfoldable pub without_previous : Option ℕ → List Session → List Session
  unfolding delete_session
  without_previous none sessions = sessions
  without_previous (some token) sessions =
      if crypto.valid_token token
      then delete_session (crypto.token_hash token) sessions
      else sessions

  unfoldable pub session_of : ℕ → ℕ → ℕ → Session
  session_of created token user = record {
    token_hash = crypto.token_hash token;
    user_id = user;
    expires_at = created + crypto.lifetime;
  }

  -- `_new_session`; it reads two clocks.
  unfoldable pub new_session : ℕ → ℕ → ℕ → User → Option ℕ → Tables → Identity × Tables
  unfolding without_previous delete_expired_sessions session_of
  new_session now created token user previous db = (
    record { user = user; session = session_of created token user.id; token = token },
    record db {
      sessions =
          delete_expired_sessions now (without_previous previous db.sessions)
          ++ session_of created token user.id ∷ [];
    },
  )

  unfoldable pub new_user : ℕ → String → String → String → User
  new_user id email name password = record {
    id = id;
    email = email;
    name = name;
    password_hash = crypto.hash_password password;
  }

  -- `register`; the only constraint on users is that an email stands once. `id` is the new UUID.
  unfoldable pub register :
      ℕ → ℕ → ℕ → ℕ → String → String → String → Option ℕ → Tables → Result (Identity × Tables)
  unfolding has_email new_user new_session
  register now created token id email name password previous db = do
    raise_if (any (has_email email) db.users) (app_error "account_unavailable" 409)
    ok (
        new_session now created token (new_user id email name password) previous
          (record db { users = db.users ++ new_user id email name password ∷ [] }))

  unfoldable pub rehashed : String → User → User
  unfolding set_hash
  rehashed password user =
      if crypto.needs_rehash user.password_hash
      then set_hash (crypto.hash_password password) user
      else user

  unfoldable pub store_hash : User → List User → List User
  unfolding set_hash has_id
  store_hash user users = update_where (has_id user.id) (set_hash user.password_hash) users

  unfoldable pub login_as :
      ℕ → ℕ → ℕ → String → Option User → Option ℕ → Tables → Result (Identity × Tables)
  unfolding rehashed store_hash new_session
  login_as now created token password none previous db = err (app_error "invalid_credentials" 401)
  login_as now created token password (some user) previous db = do
    raise_if (not (crypto.verify_password user.password_hash password))
        (app_error "invalid_credentials" 401)
    ok (
        new_session now created token (rehashed password user) previous
          (record db { users = store_hash (rehashed password user) db.users }))

  -- `login`; for an email without a user the dummy hash is verified, to no effect.
  unfoldable pub login :
      ℕ → ℕ → ℕ → String → String → Option ℕ → Tables → Result (Identity × Tables)
  unfolding find_user login_as
  login now created token email password previous db =
      login_as now created token password (find_user email db.users) previous db

  unfoldable pub identify : ℕ → Option (User × Session) → Result Identity
  identify token none = err (app_error "unauthenticated" 401)
  identify token (some (user, session)) =
      ok (record { user = user; session = session; token = token })

  unfoldable pub authenticate : ℕ → Option ℕ → Tables → Result Identity
  unfolding find_session identify
  authenticate now none db = err (app_error "unauthenticated" 401)
  authenticate now (some token) db = do
    raise_if (not (crypto.valid_token token)) (app_error "unauthenticated" 401)
    identify token (find_session (crypto.token_hash token) now db)

  unfoldable pub logout : Identity → Tables → Tables
  unfolding delete_session
  logout identity db = record db {
    sessions = delete_session (crypto.token_hash identity.token) db.sessions;
  }
