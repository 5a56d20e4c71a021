-- ===== src/Account/Requests.antt =====
-- The handlers of backend/app/api/v1/auth.py, and from backend/app/core/deps.py what they and the other
-- handlers take the current user from.
use doc_mind_ai.Base.{ℕ, String, Option, none, some, if◌then◌else◌}
use doc_mind_ai.Account.Types.{
  UserCreate, UserResponse, TokenPair, Failure, value_error, validation_error, Answer, returns,
  fails, Users, Query, throw, request, password_strength, is_empty_text,
}
use doc_mind_ai.Account.Tokens.{
  AuthLibraries, AuthSettings, Draw, Claim, exception_401, exception_409,
  get_subject_for_token_type, to_uuid,
}
use doc_mind_ai.Account.Users.{register_user, authenticate_user, refresh, get_user_by_email}

-- `except ValueError as e: raise …`
abbrev pub on_value_error {ℓ} :
    {A : Type ℓ} → (String → Failure) → Answer A × Users → Answer A × Users
on_value_error f (fails (value_error m), users) = (fails (f m), users)
on_value_error f r = r

-- `except Exception as exec: raise get_exception_401("Unauthorized")`
abbrev pub unauthorized : Answer ℕ → Answer ℕ
unauthorized (returns i) = returns i
unauthorized (fails e) = fails (exception_401 "Unauthorized")

module _ (libraries : AuthLibraries) (settings : AuthSettings) where
  open libraries use {Jws, characters_of}

  -- The guards that both dependencies begin with.
  abbrev pub credentials_token : Option Jws → Answer Jws
  credentials_token none = fails (exception_401 "Unauthorized, messing authentication token")
  credentials_token (some token) =
      if is_empty_text (characters_of token)
      then fails (exception_401 "Unauthorized, empty authentication token")
      else returns token

  abbrev pub access_subject : ℕ → Answer Jws → Answer (Claim × Claim)
  unfolding get_subject_for_token_type
  access_subject now (returns token) =
      get_subject_for_token_type libraries settings now token "access"
  access_subject now (fails e) = fails e

  abbrev pub user_id_of : Answer (Claim × Claim) → Answer ℕ
  unfolding to_uuid
  user_id_of (returns s) = unauthorized (to_uuid libraries settings s.0)
  user_id_of (fails e) = fails e

  abbrev pub email_of : Answer (Claim × Claim) → Answer Claim
  email_of (returns s) = returns s.1
  email_of (fails e) = fails e

  unfoldable pub get_current_user_email : ℕ → Option Jws → Answer Claim
  unfolding get_subject_for_token_type
  get_current_user_email now credentials =
      email_of (access_subject now (credentials_token credentials))

  unfoldable pub get_current_user_id : ℕ → Option Jws → Answer ℕ
  unfolding get_subject_for_token_type to_uuid
  get_current_user_id now credentials =
      user_id_of (access_subject now (credentials_token credentials))

  -- `POST /register`, with the validation of its body.
  unfoldable pub register : ℕ → ℕ → String → UserCreate → Query UserResponse
  unfolding register_user request
  register now i salt body =
      if password_strength body.password
      then request (λ users.
        on_value_error exception_409 (register_user libraries settings now i salt body users))
      else throw validation_error

  -- `POST /login`
  unfoldable pub login : Draw → Draw → String → String → Query (TokenPair Jws)
  unfolding authenticate_user request
  login first second email password = request (λ users.
      on_value_error (λ m. exception_401 "invalid email or password")
        (authenticate_user libraries settings first second email password users))

  -- `POST /refresh`
  unfoldable pub refresh_token : ℕ → Draw → Draw → Jws → Query (TokenPair Jws)
  unfolding refresh request
  refresh_token now first second token = request (λ users.
      on_value_error (λ m. exception_401 "Invalid or expired refresh token")
        (refresh libraries settings now first second token users))

-- `GET /me`, for an email of the dependency.
unfoldable pub me : String → Query (Option UserResponse)
unfolding get_user_by_email request
me email =
    request
      (λ users. on_value_error (λ m. exception_401 "invalid user") (get_user_by_email email users))
