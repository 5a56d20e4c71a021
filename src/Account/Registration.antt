-- ===== src/Account/Registration.antt =====
-- What a registration comes to.
use doc_mind_ai.Base.{ℕ, ◌≡◌, refl, String, true, false, none, [], ◌∷◌, find, insert, rows_where}
use doc_mind_ai.Account.Types.{
  User, UserCreate, Users, http, returns, fails, request, password_strength, to_schema,
}
use doc_mind_ai.Account.Tokens.{AuthLibraries, AuthSettings}
use doc_mind_ai.Account.Users.{
  has_email, scalar_one_or_none, get_by_email, exists_by_email, create_user, new_user,
  register_user,
}
use doc_mind_ai.Account.Requests.{register}

module _ (libraries : AuthLibraries) (settings : AuthSettings) (now i : ℕ) (salt : String)
    (body : UserCreate) where
  module _ (users : Users) (strong : password_strength body.password ≡ true) where
    -- An email that a user has is refused with 409, and nothing changes.
    pub register-taken :
        (row : ℕ × User)
        → rows_where (has_email body.email) users ≡ row ∷ []
        → register libraries settings now i salt body users
          ≡ (fails (http 409 "Email Already registered"), users)
    unfolding register register_user request exists_by_email get_by_email scalar_one_or_none
    register-taken row e = rw strong (rw (e, scalar_one_or_none) refl)

    pub register-new :
        (hash : String)
        → rows_where (has_email body.email) users ≡ []
        → find i users ≡ none
        → libraries.hashpw body.password salt ≡ returns hash
        → let user = new_user now body.email hash true false in
          register libraries settings now i salt body users
          ≡ (returns (to_schema (i, user)), insert i user users)
    unfolding register register_user request exists_by_email get_by_email scalar_one_or_none
        create_user
    register-new hash e f h =
        rw strong (rw (e, scalar_one_or_none) (rw (h, register_user) (rw (e, f) refl)))
