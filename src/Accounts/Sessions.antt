-- ===== src/Accounts/Sessions.antt =====
-- A session of services/auth.py, from its login to its end.
use mathlib.Core.Option
use mathlib.Core.List.{Memᴰ}
use ai_powered_codebase_engi.Prelude.{
  ℕ, ◌+◌, ◌<◌, ◌≡◌, ◌≢◌, refl, ap, ◌∙◌, subst, String, Bool, true, false, not, Option, none, some,
  List, [], ◌∷◌, ◌++◌, arith, ==_refl, ==_ne, if◌then◌else◌, Bool-cases, Option-cases, inl, inr,
  All, All-map, All-Memᴰ,
}
use ai_powered_codebase_engi.Prelude.Result.{ok, err, app_error, raise_if_passed, ok-injective}
use ai_powered_codebase_engi.Sql.{
  update_where, select_where, select_where-append, select_where-keeps, select_where-Memᴰ, find,
  find-none, find-key, find-update_where, select_where-All,
}
use ai_powered_codebase_engi.Accounts.Model.{
  User, Session, Identity, Tables, Crypto, user_id, has_email, find_user, is_live, first_row,
  join_user, find_session, other_hash, delete_session, is_unexpired, delete_expired_sessions,
  set_hash, has_id, without_previous, session_of, new_session, rehashed, store_hash, login_as,
  login, identify, authenticate, logout,
}

none_selected :
    (p : Session → Bool) (ss : List Session) → All (λ s. p s ≡ false) ss → select_where p ss ≡ []
unfolding select_where
none_selected p [] h = refl
none_selected p (s ∷ ss) h = rw h.0 (none_selected p ss h.1)

-- A user that is stored is found, also after a new hash.
stored_found :
    (users : List User) (user : User)
    → Memᴰ user users
    → (u : User) × (find user_id user.id users ≡ some u)
stored_found users user m = elim (Option-cases (find user_id user.id users)) [
  | inl e ↦
      absurd (All-Memᴰ (λ r. user_id r ≢ user.id) users m (find-none user_id user.id users e) refl)
  | inr (u, e) ↦ (u, e)
]

rehash_found :
    (users : List User) (user : User) (hash : ℕ)
    → Memᴰ user users
    → (u : User) × (find user_id user.id (update_where (has_id user.id) (set_hash hash) users)
        ≡ some u)
rehash_found users user hash m =
    let (u, e) = stored_found users user m in
    (
      (if has_id user.id u then set_hash hash u else u),
      find-update_where user_id (has_id user.id) (set_hash hash) (λ r. unfold set_hash in refl)
            user.id users
          ∙ ap (Option.map (λ r. if has_id user.id r then set_hash hash r else r)) e,
    )

module _ (crypto : Crypto) where
  -- Sessions that have another hash.
  abbrev pub AreOther : ℕ → List Session → Type 0
  AreOther digest ss = All (λ (s : Session). s.token_hash ≢ digest) ss

  previous-AreOther :
      (digest : ℕ) (previous : Option ℕ) (ss : List Session)
      → AreOther digest ss
      → AreOther digest (without_previous crypto previous ss)
  unfolding without_previous
  previous-AreOther digest none ss h = h
  previous-AreOther digest (some token) ss h = elim (Bool-cases (crypto.valid_token token)) [
    | inl e ↦
        rw e (
          unfold delete_session in select_where-keeps _ (other_hash (crypto.token_hash token)) ss h)
    | inr e ↦ rw e h
  ]

  not_live :
      (digest t : ℕ) (ss : List Session)
      → AreOther digest ss
      → select_where (is_live digest t) ss ≡ []
  not_live digest t ss h =
      none_selected (is_live digest t) ss (All-map (λ (s : Session) k. dead s k) ss h)
    where
      dead : (s : Session) → s.token_hash ≢ digest → is_live digest t s ≡ false
      dead s k = unfold is_live in rw (==_ne s.token_hash digest k) refl

  module _ (token created user : ℕ) (kept : List Session)
      (other : AreOther (crypto.token_hash token) kept) where
    abbrev latest : Session
    latest = session_of crypto created token user

    live_now :
        (t : ℕ)
        → t < created + crypto.lifetime
        → select_where (is_live (crypto.token_hash token) t) (kept ++ latest ∷ []) ≡ latest ∷ []
    live_now t h =
        select_where-append (is_live (crypto.token_hash token) t) kept (latest ∷ [])
        ∙ ap (λ l. l ++ select_where (is_live (crypto.token_hash token) t) (latest ∷ []))
            (not_live (crypto.token_hash token) t kept other)
        ∙ unfold select_where in
          unfold is_live in
          unfold session_of in rw (==_refl (crypto.token_hash token)) (ground (arith, h))

    gone_later :
        (t : ℕ)
        → select_where
            (is_live (crypto.token_hash token) (created + crypto.lifetime + t))
            (kept ++ latest ∷ [])
          ≡ []
    gone_later t =
        select_where-append (is_live (crypto.token_hash token) (created + crypto.lifetime + t)) kept
          (latest ∷ [])
        ∙ ap
            (λ l.
              l
              ++ select_where (is_live (crypto.token_hash token) (created + crypto.lifetime + t))
                  (latest ∷ []))
            (not_live (crypto.token_hash token) (created + crypto.lifetime + t) kept other)
        ∙ unfold select_where in
          unfold is_live in
          unfold session_of in rw (==_refl (crypto.token_hash token)) (ground arith)

    gone_after_logout :
        (t : ℕ)
        → select_where
            (is_live (crypto.token_hash token) t)
            (delete_session (crypto.token_hash token) (kept ++ latest ∷ []))
          ≡ []
    gone_after_logout t =
        not_live (crypto.token_hash token) t _
          (All-map (λ (s : Session) k. differs s k) _ (deleted (kept ++ latest ∷ [])))
      where
        differs :
            (s : Session)
            → other_hash (crypto.token_hash token) s ≡ true
            → s.token_hash ≢ crypto.token_hash token
        differs s k same = unfold other_hash in ground (arith, k, same)

        deleted :
            (ss : List Session)
            → All
                (λ s. other_hash (crypto.token_hash token) s ≡ true)
                (delete_session (crypto.token_hash token) ss)
        deleted ss =
            unfold delete_session in select_where-All (other_hash (crypto.token_hash token)) ss

  sign_in :
      (later token : ℕ) (users : List User) (sessions : List Session) (s : Session) (u : User)
      → crypto.valid_token token ≡ true
      → select_where (is_live (crypto.token_hash token) later) sessions ≡ s ∷ []
      → find user_id s.user_id users ≡ some u
      → authenticate crypto later (some token) (record { users = users; sessions = sessions })
        ≡ ok (record { user = u; session = s; token = token })
  unfolding authenticate find_session
  sign_in later token users sessions s u valid found stored =
      rw (valid, found)
        (unfold join_user in rw stored (unfold first_row in unfold identify in refl))

  refused :
      (later token : ℕ) (users : List User) (sessions : List Session)
      → crypto.valid_token token ≡ true
      → select_where (is_live (crypto.token_hash token) later) sessions ≡ []
      → authenticate crypto later (some token) (record { users = users; sessions = sessions })
        ≡ err (app_error "unauthenticated" 401)
  unfolding authenticate find_session
  refused later token users sessions valid found =
      rw (valid, found) (unfold join_user in unfold identify in refl)

  -- What a login is good for.
  pub record IsSession (created later token : ℕ) (identity : Identity) (db : Tables) : Type 0 where
    pub user : User
    pub same_user : user.id ≡ identity.user.id
    pub accepted :
        authenticate crypto later (some token) db
        ≡ ok (record { user = user; session = identity.session; token = token })
    pub expired :
        (t : ℕ)
        → authenticate crypto (created + crypto.lifetime + t) (some token) db
          ≡ err (app_error "unauthenticated" 401)
    pub ended :
        (t : ℕ)
        → authenticate crypto t (some token) (logout crypto identity db)
          ≡ err (app_error "unauthenticated" 401)

  new-IsSession :
      (now created token later : ℕ) (user u : User) (previous : Option ℕ) (users : List User)
      (sessions : List Session)
      → crypto.valid_token token ≡ true
      → AreOther (crypto.token_hash token) sessions
      → later < created + crypto.lifetime
      → find user_id user.id users ≡ some u
      → IsSession created later token
          (new_session crypto now created token user previous
            (record { users = users; sessions = sessions })).0
          (new_session crypto now created token user previous
            (record { users = users; sessions = sessions })).1
  unfolding new_session
  new-IsSession now created token later user u previous users sessions valid fresh early stored =
      let kept = delete_expired_sessions now (without_previous crypto previous sessions) in
      let other : AreOther (crypto.token_hash token) kept =
        unfold delete_expired_sessions in
        select_where-keeps _ (is_unexpired now) (without_previous crypto previous sessions)
          (previous-AreOther (crypto.token_hash token) previous sessions fresh) in
      let s = session_of crypto created token user.id in
      record {
        user = u;
        same_user = find-key user_id user.id users stored;
        accepted =
            sign_in later token users (kept ++ s ∷ []) s u valid
              (live_now token created user.id kept other later early) (unfold session_of in stored);
        expired = λ t.
            refused (created + crypto.lifetime + t) token users (kept ++ s ∷ []) valid
              (gone_later token created user.id kept other t);
        ended = λ t.
            unfold logout in
            refused t token users (delete_session (crypto.token_hash token) (kept ++ s ∷ [])) valid
              (gone_after_logout token created user.id kept other t);
      }

  as-IsSession :
      (now created token later : ℕ) (password : String) (o : Option User) (previous : Option ℕ)
      (db : Tables) {identity : Identity} {after : Tables}
      → crypto.valid_token token ≡ true
      → AreOther (crypto.token_hash token) db.sessions
      → later < created + crypto.lifetime
      → ((user : User) → o ≡ some user → Memᴰ user db.users)
      → login_as crypto now created token password o previous db ≡ ok (identity, after)
      → IsSession created later token identity after
  unfolding login_as
  as-IsSession now created token later password none previous db valid fresh early known e = cc
  as-IsSession now created token later password (some user) previous db valid fresh early known e =
      let made =
        ok-injective
          (raise_if_passed (not (crypto.verify_password user.password_hash password)) _ _ e) in
      let hashed = rehashed crypto password user in
      let same : hashed.id ≡ user.id = unfold rehashed in unfold set_hash in ground arith in
      let (u, stored) = rehash_found db.users user hashed.password_hash (known user refl) in
      let found : find user_id hashed.id (store_hash crypto hashed db.users) ≡ some u =
        unfold store_hash in
        (ap (λ i. find user_id i (update_where (has_id i) (set_hash hashed.password_hash) db.users))
            same
          ∙ stored) in
      subst (λ (r : Identity × Tables). IsSession created later token r.0 r.1) made
        (new-IsSession now created token later hashed u previous (store_hash crypto hashed db.users)
          db.sessions valid fresh early found)

  -- Login, authentication and logout belong together: if the new token has the form of one and no
  -- stored session has its hash, then after a login that succeeds the token is accepted as the
  -- user's until its lifetime is over, and is refused from then on, and at any time after a logout.
  pub login-IsSession :
      (now created token later : ℕ) (email password : String) (previous : Option ℕ) (db : Tables)
      {identity : Identity} {after : Tables}
      → crypto.valid_token token ≡ true
      → AreOther (crypto.token_hash token) db.sessions
      → later < created + crypto.lifetime
      → login crypto now created token email password previous db ≡ ok (identity, after)
      → IsSession created later token identity after
  unfolding login
  login-IsSession now created token later email password previous db valid fresh early e =
      as-IsSession now created token later password (find_user email db.users) previous db valid
        fresh early
        (λ user found.
          select_where-Memᴰ user_id (has_email email) db.users (unfold find_user in found))
        e
