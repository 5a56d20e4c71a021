-- ===== src/Account/Types.antt =====
-- backend/app/models/user.py, backend/app/schemas/user.py and backend/app/schemas/auth.py: the rows of
-- the users and what the requests exchange; and how a call on an `AsyncSession` returns or raises.
use package.text.Mathlib.Text.{◌==◌ as str_eq}
use Prim.Native.Char.{code}
use doc_mind_ai.Base.{ℕ, String, Bool, ◌&&◌, Option, Table, any, length, leb}
use doc_mind_ai.Storage.Validation.{characters, is_digit}

pub record User : Type 0 where
  pub email : String
  pub password_hash : String
  pub is_active : Bool
  pub is_verified : Bool
  pub created_at : ℕ
  pub updated_at : ℕ

pub record UserCreate : Type 0 where
  pub email : String
  pub password : String

pub record UserResponse : Type 0 where
  pub id : ℕ
  pub email : String
  pub is_active : Bool
  pub created_at : ℕ
  pub updated_at : ℕ

-- `Token`, over the type of an encoded token.
pub record TokenPair (Jws : Type 0) : Type 0 where
  pub access_token : Jws
  pub token_type : String
  pub expires_in : ℕ
  pub refresh_token : Option Jws
  pub refresh_expires_at : Option ℕ

-- What the code raises, and what it lets pass from its libraries.
pub data Failure : Type 0 where
  http : ℕ → String → Failure  -- HTTPException(status, detail)
  value_error : String → Failure
  runtime_error : String → Failure
  type_error attribute_error : Failure
  key_error : String → Failure
  validation_error : Failure  -- a body that pydantic refuses
  integrity_error : Failure  -- a unique constraint of the database
  multiple_results : Failure  -- `scalar_one_or_none` with more than one row

pub data Answer {ℓ} (A : Type ℓ) : Type ℓ where
  returns : A → Answer A
  fails : Failure → Answer A

abbrev pub Users : Type 0
Users = Table User

-- A call on the session of a request.
abbrev pub Query {ℓ} : Type ℓ → Type ℓ
Query A = Users → Answer A × Users

abbrev pub and_then {ℓ κ} : {A : Type ℓ} {B : Type κ} → Answer A → (A → Query B) → Query B
and_then (returns a) f users = f a users
and_then (fails e) f users = (fails e, users)

infixl 5 ◌>>=◌ ◌>>◌
abbrev pub ◌>>=◌ {ℓ κ} : {A : Type ℓ} {B : Type κ} → Query A → (A → Query B) → Query B
◌>>=◌ m f users = let (r, users') = m users in and_then r f users'

abbrev pub ◌>>◌ {ℓ κ} : {A : Type ℓ} {B : Type κ} → Query A → Query B → Query B
m >> n = m >>= λ _. n

abbrev pub pure {ℓ} : {A : Type ℓ} → A → Query A
pure a users = (returns a, users)

abbrev pub throw {ℓ} : {A : Type ℓ} → Failure → Query A
throw e users = (fails e, users)

-- A call that does not touch the session.
abbrev pub call {ℓ} : {A : Type ℓ} → Answer A → Query A
call r users = (r, users)

-- `get_db`: a request commits at its end, and is rolled back by any exception.
abbrev pub commit_or_roll_back {ℓ} : {A : Type ℓ} → Users → Answer A → Users → Answer A × Users
commit_or_roll_back before (returns a) after = (returns a, after)
commit_or_roll_back before (fails e) after = (fails e, before)

unfoldable pub request {ℓ} : {A : Type ℓ} → Query A → Query A
request m users = let (r, after) = m users in commit_or_roll_back users r after

-- The checks of `UserCreate.password`: its field's bounds, and `password_strength`.
unfoldable pub password_strength : String → Bool
unfolding characters
password_strength v =
    let letters = characters v in
    leb 8 (length letters)
    && leb (length letters) 128
    && any (λ c. leb 65 (code c) && leb (code c) 90) letters
    && any is_digit letters

abbrev pub is_empty_text : String → Bool
is_empty_text s = str_eq s ""

-- `_convert_user_to_schema`
unfoldable pub to_schema : ℕ × User → UserResponse
to_schema (i, user) = record {
  id = i;
  email = user.email;
  is_active = user.is_active;
  created_at = user.created_at;
  updated_at = user.updated_at;
}
