-- ===== src/Account/Users.antt =====
-- backend/app/db/repositories/user_repo.py with what it takes of base.py, and
-- backend/app/services/user_service.py. The clock, new ids and the salt are arguments.
use package.text.Mathlib.Text.{◌==◌ as str_eq}
use doc_mind_ai.Base.{
  ℕ, String, Bool, true, false, not, ◌||◌, Option, none, some, List, [], ◌∷◌, map, find, update,
  insert, rows_where, take, drop, if◌then◌else◌,
}
use doc_mind_ai.Account.Types.{
  User, UserCreate, UserResponse, TokenPair, value_error, type_error, integrity_error,
  multiple_results, Answer, returns, fails, Query, ◌>>=◌, ◌>>◌, pure, throw, call, to_schema,
}
use doc_mind_ai.Account.Tokens.{
  AuthLibraries, AuthSettings, Draw, Claim, create_token_pair, decode_refresh_token, to_uuid, item,
}

abbrev pub has_email : String → User → Bool
has_email email user = str_eq user.email email

-- `result.scalar_one_or_none()`
unfoldable pub scalar_one_or_none {ℓ} : {A : Type ℓ} → List A → Answer (Option A)
scalar_one_or_none [] = returns none
scalar_one_or_none (row ∷ []) = returns (some row)
scalar_one_or_none (row ∷ other ∷ rest) = fails multiple_results

abbrev pub with_id : ℕ → Option User → Option (ℕ × User)
with_id i none = none
with_id i (some user) = some (i, user)

unfoldable pub get_by_id : ℕ → Query (Option (ℕ × User))
get_by_id i users = (returns (with_id i (find i users)), users)

unfoldable pub get_by_email : String → Query (Option (ℕ × User))
unfolding scalar_one_or_none
get_by_email email users = (scalar_one_or_none (rows_where (has_email email) users), users)

-- Without an order, the rows as the table has them.
unfoldable pub get_all : ℕ → ℕ → Query (List (ℕ × User))
get_all skip limit users = (returns (take limit (drop skip users)), users)

abbrev pub is_some {ℓ} : {A : Type ℓ} → Option A → Bool
is_some none = false
is_some (some a) = true

abbrev pub is_some_row {ℓ} : {A : Type ℓ} → List A → Bool
is_some_row [] = false
is_some_row (a ∷ rest) = true

unfoldable pub exists_by_email : String → Query Bool
unfolding get_by_email
exists_by_email email = get_by_email email >>= λ user. pure (is_some user)

-- The `INSERT` of the flush, with the unique constraint on the emails and the primary key.
abbrev pub add_user : ℕ → User → Query (Unit {0})
add_user i user users =
    if is_some_row (rows_where (has_email user.email) users) || is_some (find i users)
    then (fails integrity_error, users)
    else (returns tt, insert i user users)

abbrev pub new_user : ℕ → String → String → Bool → Bool → User
new_user now email password_hash is_active is_verified = record {
  email = email;
  password_hash = password_hash;
  is_active = is_active;
  is_verified = is_verified;
  created_at = now;
  updated_at = now;
}

unfoldable pub create_user : ℕ → ℕ → String → String → Bool → Bool → Query (ℕ × User)
create_user now i email password_hash is_active is_verified =
    let user = new_user now email password_hash is_active is_verified in
    add_user i user >> pure (i, user)

abbrev confirmed : ℕ → ℕ → Option User → Query (Option (ℕ × User))
confirmed now i none users = (returns none, users)
confirmed now i (some user) users =
    let user' = record user { is_verified = true; is_active = true; updated_at = now } in
    (returns (some (i, user')), update i user' users)

-- `update(id=user_id, is_verified=True, is_active=True)`, where the commit of `update` is that of the
-- request.
unfoldable pub confirm_user_email : ℕ → ℕ → Query (Option (ℕ × User))
confirm_user_email now i users = confirmed now i (find i users) users

abbrev pub schema_or_none : Option (ℕ × User) → Option UserResponse
unfolding to_schema
schema_or_none none = none
schema_or_none (some row) = some (to_schema row)

unfoldable pub get_user : ℕ → Query (Option UserResponse)
unfolding get_by_id to_schema
get_user i = get_by_id i >>= λ user. pure (schema_or_none user)

unfoldable pub get_user_by_email : String → Query (Option UserResponse)
unfolding get_by_email to_schema
get_user_by_email email = get_by_email email >>= λ user. pure (schema_or_none user)

unfoldable pub get_all_user : ℕ → ℕ → Query (List UserResponse)
unfolding get_all to_schema
get_all_user skip limit = get_all skip limit >>= λ users. pure (map to_schema users)

-- `raise ValueError(message)` under a condition.
abbrev pub refuse_if : Bool → String → Query (Unit {0})
refuse_if true message = throw (value_error message)
refuse_if false message = pure tt

abbrev pub some_or_raise {ℓ} : {A : Type ℓ} → String → Option A → Query A
some_or_raise message none = throw (value_error message)
some_or_raise message (some a) = pure a

-- `except (ValueError, TypeError) as e: raise ValueError("Invalid token subject") from e`
abbrev pub bad_subject : Answer ℕ → Answer ℕ
bad_subject (fails (value_error m)) = fails (value_error "Invalid token subject")
bad_subject (fails type_error) = fails (value_error "Invalid token subject")
bad_subject r = r

module _ (libraries : AuthLibraries) (settings : AuthSettings) where
  open libraries use {Jws, hashpw, checkpw, str_of}

  unfoldable pub register_user : ℕ → ℕ → String → UserCreate → Query UserResponse
  unfolding exists_by_email create_user to_schema
  register_user now i salt user_data = do
    taken ← exists_by_email user_data.email
    refuse_if taken "Email Already registered"
    hashed_password ← call (hashpw user_data.password salt)
    user ← create_user now i user_data.email hashed_password true false
    pure (to_schema user)

  unfoldable pub authenticate_user : Draw → Draw → String → String → Query (TokenPair Jws)
  unfolding get_by_email create_token_pair
  authenticate_user first second email password = do
    found ← get_by_email email
    user ← some_or_raise "there are no user with current email" found
    matches ← call (checkpw password user.1.password_hash)
    refuse_if (not matches) "Invalid email or password"
    call (create_token_pair libraries settings first second (str_of user.0) user.1.email)

  -- `try: user_id = UUID(payload["sub"])`
  abbrev pub subject_id : Answer Claim → Answer ℕ
  unfolding to_uuid
  subject_id (returns c) = to_uuid libraries settings c
  subject_id (fails e) = fails e

  unfoldable pub refresh : ℕ → Draw → Draw → Jws → Query (TokenPair Jws)
  unfolding decode_refresh_token get_user create_token_pair to_uuid item
  refresh now first second token = do
    payload ← call (decode_refresh_token libraries settings now token)
    user_id ← call (bad_subject (subject_id (item "sub" payload)))
    found ← get_user user_id
    user ← some_or_raise "User not found" found
    refuse_if (not user.is_active) "User is inactive"
    call (create_token_pair libraries settings first second (str_of user.id) user.email)
