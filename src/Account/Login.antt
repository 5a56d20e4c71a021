-- ===== src/Account/Login.antt =====
-- What a login answers, and what its tokens are good for.
use package.text.Mathlib.TextEquality.{eq_iff}
use doc_mind_ai.Base.{
  ℕ, ◌≤◌, ◌<◌, ◌≡◌, refl, ◌∙◌, ◌⊎◌, inl, inr, String, true, false, none, some, [], ◌∷◌, find,
  insert, find-insert, ==_refl, rows_where, rows_where-append,
}
use doc_mind_ai.Account.Types.{
  User, UserCreate, Users, TokenPair, http, returns, fails, request, is_empty_text,
  password_strength, to_schema,
}
use doc_mind_ai.Account.Tokens.{
  AuthLibraries, AuthSettings, Draw, text, jwt_secret, jwt_algorithm, token_claims, access_expiry,
  refresh_expiry, create_token_pair, item, get,
}
use doc_mind_ai.Account.Laws.{
  IsLawful, is_hmac, pair_of, to_uuid-str_of, access_of, refresh_of, create_token_pair_lem,
  get_subject_for_token_type-encode, decode_refresh_token-encode,
}
use doc_mind_ai.Account.Users.{
  has_email, scalar_one_or_none, get_by_email, new_user, authenticate_user, refresh, with_id,
  get_user, get_by_id, get_user_by_email,
}
use doc_mind_ai.Account.Requests.{
  get_current_user_id, get_current_user_email, register, login, refresh_token, me,
}
use doc_mind_ai.Account.Registration.{register-new}

module _ (libraries : AuthLibraries) (settings : AuthSettings) (first second : Draw)
    (email password : String) (users : Users) where
  -- A login with an email that no user has, and one with a wrong password for the only user of the
  -- email, get the same 401 with the same text, and nothing changes.
  login-refused :
      (rows_where (has_email email) users ≡ [])
        ⊎ ((row : ℕ × User) × (rows_where (has_email email) users ≡ row ∷ [])
            × (libraries.checkpw password row.1.password_hash ≡ returns false))
      → login libraries settings first second email password users
        ≡ (fails (http 401 "invalid email or password"), users)
  unfolding login authenticate_user request get_by_email scalar_one_or_none
  login-refused (inl e) = rw (e, scalar_one_or_none) refl
  login-refused (inr (row, e, wrong)) =
      rw (e, scalar_one_or_none) (rw (wrong, authenticate_user) refl)

  login-accepted :
      (i : ℕ) (user : User) (pair : TokenPair libraries.Jws)
      → rows_where (has_email email) users ≡ (i, user) ∷ []
      → libraries.checkpw password user.password_hash ≡ returns true
      → create_token_pair libraries settings first second (libraries.str_of i) user.email
        ≡ returns pair
      → login libraries settings first second email password users ≡ (returns pair, users)
  unfolding login authenticate_user request get_by_email scalar_one_or_none
  login-accepted i user pair e right made =
      rw (e, scalar_one_or_none) (rw (right, authenticate_user) (rw made refl))

module _ (libraries : AuthLibraries) (lawful : IsLawful libraries) (settings : AuthSettings)
    (key : String) (configured : jwt_secret settings ≡ returns key) where
  module _ (symmetric : is_hmac (jwt_algorithm settings) ≡ true) (i now : ℕ) (email : String)
      (draw : Draw) (named : is_empty_text email ≡ false) (issued : draw.issued ≤ now) where
    current_user :
        now < access_expiry libraries settings draw
        → let token =
            access_of libraries lawful settings key configured draw (libraries.str_of i) email in
          (get_current_user_id libraries settings now (some token) ≡ returns i)
          × (get_current_user_email libraries settings now (some token) ≡ returns (text email))
    unfolding get_current_user_id get_current_user_email
    current_user fresh =
        let id = libraries.str_of i in
        let expire = access_expiry libraries settings draw in
        let blank =
          lawful.encode-not_blank (token_claims id email "access" expire draw) key
            (jwt_algorithm settings) in
        let subject =
          get_subject_for_token_type-encode libraries lawful settings key configured symmetric id
            email "access" expire now draw issued fresh (lawful.str_of-not_blank i) named in
        rw blank (rw subject (rw (to_uuid-str_of libraries lawful settings i) (refl, refl)))

    renewed :
        (first second : Draw) (user : User) (users : Users)
        → now < refresh_expiry libraries settings draw
        → is_empty_text draw.jti ≡ false
        → find i users ≡ some user
        → user.is_active ≡ true
        → user.email ≡ email
        → (refresh_token libraries settings now first second
            (refresh_of libraries lawful settings key configured draw (libraries.str_of i) email)
            users)
          ≡ (
            returns (
                pair_of libraries lawful settings key configured first second
                  (libraries.str_of i)
                  email),
            users,
          )
    unfolding refresh_token refresh get_user get_by_id request item token_claims get to_schema
    renewed first second user users fresh jti there active same =
        let id = libraries.str_of i in
        let decoded =
          decode_refresh_token-encode libraries lawful settings key configured symmetric id email
            (refresh_expiry libraries settings draw) now draw issued fresh jti in
        rw decoded (
          rw (to_uuid-str_of libraries lawful settings i)
            (rw (there, with_id) (rw active (rw same (rw configured refl)))))

  module _ (symmetric : is_hmac (jwt_algorithm settings) ≡ true) (i now : ℕ) (salt hash : String)
      (body : UserCreate) (users : Users) (strong : password_strength body.password ≡ true)
      (named : is_empty_text body.email ≡ false)
      (hashed : libraries.hashpw body.password salt ≡ returns hash)
      (untaken : rows_where (has_email body.email) users ≡ []) (unused : find i users ≡ none) where
    abbrev user : User
    user = new_user now body.email hash true false

    users_after : rows_where (has_email body.email) (insert i user users) ≡ (i, user) ∷ []
    unfolding insert
    users_after =
        rows_where-append (has_email body.email) users ((i, user) ∷ [])
        ∙ rw (untaken, (eq_iff body.email body.email).1 refl) refl

    find-user : find i (insert i user users) ≡ some user
    find-user = find-insert i i user users unused ∙ rw (==_refl i) refl

    me-user :
        me body.email (insert i user users)
        ≡ (returns (some (to_schema (i, user))), insert i user users)
    unfolding me request get_user_by_email get_by_email scalar_one_or_none
    me-user = rw (users_after, scalar_one_or_none) refl

    -- A new user can use the account until the tokens expire. A registration with a strong
    -- password, an email that no user has and an id that is not in use returns the new user; a
    -- login with the email and the password then returns a pair of tokens; from its issue until it
    -- expires, the access token identifies the user in every request, and me answers with the new
    -- user; and from its issue until it expires, the refresh token gets a new pair. Condition: a
    -- secret and one of the symmetric algorithms HS256, HS384 and HS512 are configured, bcrypt
    -- gives a hash of the password, the email and the jti of the refresh token are not empty, and
    -- PyJWT, bcrypt and uuid take back what they gave out: a token from its issue until its expiry
    -- with its own key and algorithm.
    pub register-login :
        (first second third fourth : Draw) (t t' : ℕ)
        → first.issued ≤ t
        → t < access_expiry libraries settings first
        → second.issued ≤ t'
        → t' < refresh_expiry libraries settings second
        → is_empty_text second.jti ≡ false
        → let id = libraries.str_of i in
          let users' = insert i user users in
          let pair = pair_of libraries lawful settings key configured first second id body.email in
          let next = pair_of libraries lawful settings key configured third fourth id body.email in
          let token = refresh_of libraries lawful settings key configured second id body.email in
          (register libraries settings now i salt body users
            ≡ (returns (to_schema (i, user)), users'))
          × (login libraries settings first second body.email body.password users'
              ≡ (returns pair, users'))
          × (get_current_user_id libraries settings t (some pair.access_token) ≡ returns i)
          × (get_current_user_email libraries settings t (some pair.access_token)
              ≡ returns (text body.email))
          × (me body.email users' ≡ (returns (some (to_schema (i, user))), users'))
          × (pair.refresh_token ≡ some token)
          × (refresh_token libraries settings t' third fourth token users' ≡ (returns next, users'))
    register-login first second third fourth t t' a b c d jti =
        let id = libraries.str_of i in
        let users' = insert i user users in
        let made =
          create_token_pair_lem libraries lawful settings key configured first second id
            body.email in
        let pair = pair_of libraries lawful settings key configured first second id body.email in
        let known = current_user symmetric i t body.email first named a b in
        (
          register-new libraries settings now i salt body users strong hash untaken unused hashed,
          login-accepted libraries settings first second body.email body.password users' i user pair
              users_after (lawful.checkpw-hashpw body.password salt hash hashed) made,
          known.0,
          known.1,
          me-user,
          refl,
          renewed symmetric i t' body.email second named c third fourth user users' d jti find-user
              refl refl,
        )
