-- ===== src/Account/Tokens.antt =====
-- backend/app/core/auth.py: passwords and tokens. PyJWT, bcrypt, `uuid.UUID` and the settings are
-- parameters; log calls and the headers of the exceptions are left out.
use package.text.Mathlib.Text.{◌==◌ as str_eq}
use Prim.Native.Char.{code}
use doc_mind_ai.Base.{
  ℕ, ◌+◌, ◌*◌, String, Bool, false, not, ◌&&◌, ◌||◌, Option, none, some, List, [], ◌∷◌, ◌++◌,
  if◌then◌else◌, ◌==◌, leb,
}
use doc_mind_ai.Storage.Validation.{Piece, maybe, many, literally, is_match}
use doc_mind_ai.Account.Types.{
  TokenPair, Failure, http, value_error, runtime_error, key_error, type_error, attribute_error,
  Answer, returns, fails, is_empty_text,
}

-- A value of a token's payload; lists and objects are left out.
pub data Claim : Type 0 where
  null : Claim
  flag : Bool → Claim
  number : ℕ → Claim
  text : String → Claim

abbrev pub Payload : Type 0
Payload = List (String × Claim)

-- `payload.get(name)`, with `none` for a missing name.
unfoldable pub get : String → Payload → Option Claim
get name [] = none
get name ((n, c) ∷ rest) = if str_eq n name then some c else get name rest

-- Whether `payload.get(name)` is true in a condition.
abbrev pub is_set : Option Claim → Bool
is_set none = false
is_set (some null) = false
is_set (some (flag b)) = b
is_set (some (number n)) = not (n == 0)
is_set (some (text s)) = not (is_empty_text s)

abbrev pub is_text : String → Option Claim → Bool
is_text s (some (text t)) = str_eq t s
is_text s _ = false

abbrev pub or_null : Option Claim → Claim
or_null none = null
or_null (some c) = c

-- What `jwt.decode` does: it returns a payload, raises `ExpiredSignatureError`, or another `PyJWTError`.
pub data Decoded : Type 0 where
  payload : Payload → Decoded
  expired invalid : Decoded

pub record AuthLibraries : Type 1 where
  pub Jws : Type 0  -- encoded tokens
  pub characters_of : Jws → String
  pub encode : Payload → String → String → Jws  -- with a key and an algorithm
  pub decode : ℕ → Jws → String → List String → Decoded  -- at a time, with a key and the algorithms
  pub hashpw : String → String → Answer String  -- with a salt
  pub checkpw : String → String → Answer Bool
  pub str_of : ℕ → String  -- `str(user_id)`
  pub uuid_of : String → Option ℕ  -- `UUID(text)`, which may raise `ValueError`

pub record AuthSettings : Type 0 where
  pub jwt_secret : Option String
  pub jwt_algorithm : String
  pub access_token_expire_minutes : ℕ
  pub refresh_token_expire_days : ℕ

-- What the creation of a token draws: two readings of the clock, and the text of a fresh UUID.
pub record Draw : Type 0 where
  pub now : ℕ
  pub issued : ℕ
  pub jti : String

abbrev secret_of : Option String → Answer String
secret_of none = fails (runtime_error "JWT_SECRET is not configured")
secret_of (some s) =
    if is_empty_text s then fails (runtime_error "JWT_SECRET is not configured") else returns s

unfoldable pub jwt_secret : AuthSettings → Answer String
jwt_secret settings = secret_of settings.jwt_secret

unfoldable pub jwt_algorithm : AuthSettings → String
jwt_algorithm settings =
    if is_empty_text settings.jwt_algorithm then "HS256" else settings.jwt_algorithm

abbrev pub exception_401 : String → Failure
exception_401 detail = http 401 detail

abbrev pub exception_409 : String → Failure
exception_409 detail = http 409 detail

infixl 5 ◌>>=◌
abbrev pub ◌>>=◌ {ℓ κ} : {A : Type ℓ} {B : Type κ} → Answer A → (A → Answer B) → Answer B
returns a >>= f = f a
fails e >>= f = fails e

-- The claims of a token.
unfoldable pub token_claims : String → String → String → ℕ → Draw → Payload
token_claims user_id email type expire draw =
    ("sub", text user_id)
    ∷ ("email", text email)
    ∷ ("type", text type)
    ∷ ("exp", number expire)
    ∷ ("jti", text draw.jti)
    ∷ ("iat", number draw.issued)
    ∷ []

-- `[A-Za-z0-9-_]`
abbrev is_token_character : ℕ → Bool
is_token_character n =
    leb 65 n && leb n 90 || leb 97 n && leb n 122 || leb 48 n && leb n 57 || n == 45 || n == 95

-- The pattern of `verify_token`, whose `$` also matches before a newline at the end.
abbrev jwt_pattern : List Piece
jwt_pattern =
    many (λ c. is_token_character (code c))
    ∷ (literally "."
        ++ many (λ c. is_token_character (code c))
          ∷ (literally "."
              ++ many (λ c. is_token_character (code c)) ∷ maybe (λ c. code c == 10) ∷ []))

module _ (libraries : AuthLibraries) (settings : AuthSettings) where
  open libraries use {Jws, characters_of, encode, decode, hashpw, checkpw, uuid_of}

  abbrev sign : Payload → Answer String → Answer Jws
  sign claims key = key >>= λ k. returns (encode claims k (jwt_algorithm settings))

  abbrev pub access_expiry : Draw → ℕ
  access_expiry draw = draw.now + settings.access_token_expire_minutes * 60

  abbrev pub refresh_expiry : Draw → ℕ
  refresh_expiry draw = draw.now + settings.refresh_token_expire_days * 86400

  unfoldable pub create_access_token : Draw → String → String → Answer Jws
  unfolding token_claims jwt_secret
  create_access_token draw user_id email =
      sign (token_claims user_id email "access" (access_expiry draw) draw) (jwt_secret settings)

  unfoldable pub create_refresh_token : Draw → String → String → Answer (Jws × ℕ)
  unfolding token_claims jwt_secret
  create_refresh_token draw user_id email = do
    t ← sign (token_claims user_id email "refresh" (refresh_expiry draw) draw) (jwt_secret settings)
    returns (t, refresh_expiry draw)

  unfoldable pub create_token_pair : Draw → Draw → String → String → Answer (TokenPair Jws)
  unfolding create_access_token create_refresh_token
  create_token_pair first second user_id email = do
    access_token ← create_access_token first user_id email
    refresh ← create_refresh_token second user_id email
    returns (record {
      access_token = access_token;
      token_type = "bearer";
      expires_in = settings.access_token_expire_minutes * 60;
      refresh_token = some refresh.0;
      refresh_expires_at = some refresh.1;
    })

  abbrev decoded : Decoded → Answer Payload
  decoded (payload p) = returns p
  decoded expired = fails (exception_401 "Unauthorized, Token has expired")
  decoded invalid = fails (exception_401 "Unauthorized, invalid token")

  unfoldable pub decode_token_payload : ℕ → Jws → Answer Payload
  unfolding jwt_secret jwt_algorithm
  decode_token_payload now token = do
    key ← jwt_secret settings
    decoded (decode now token key (jwt_algorithm settings ∷ []))

  abbrev pub check_subject : String → Payload → Answer (Claim × Claim)
  unfolding get
  check_subject payload_type p =
      if not (is_set (get "sub" p)) || not (is_set (get "email" p))
      then fails (exception_401 "Unauthorized, malformed token")
      else if not (is_text payload_type (get "type" p))
      then fails (exception_401 "Unauthorized, invalid token type")
      else returns (or_null (get "sub" p), or_null (get "email" p))

  unfoldable pub get_subject_for_token_type : ℕ → Jws → String → Answer (Claim × Claim)
  unfolding decode_token_payload get
  get_subject_for_token_type now token payload_type =
      decode_token_payload now token >>= check_subject payload_type

  abbrev pub check_refresh : Payload → Answer Payload
  unfolding get
  check_refresh p =
      if not (is_text "refresh" (get "type" p))
      then fails (exception_401 "Unauthorized, invalid token type")
      else if not (is_set (get "jti" p))
      then fails (exception_401 "Unauthorized, malformed refresh token")
      else returns p

  unfoldable pub decode_refresh_token : ℕ → Jws → Answer Payload
  unfolding decode_token_payload get
  decode_refresh_token now token = decode_token_payload now token >>= check_refresh

  abbrev has_subject : Option Claim → Option Claim → Option (Claim × Claim)
  has_subject none email = none
  has_subject (some null) email = none
  has_subject (some c) none = none
  has_subject (some c) (some null) = none
  has_subject (some c) (some e) = some (c, e)

  abbrev subject_or_none : Decoded → Option (Claim × Claim)
  unfolding get
  subject_or_none (payload p) = has_subject (get "sub" p) (get "email" p)
  subject_or_none expired = none
  subject_or_none invalid = none

  -- `verify_token`, whose call of `jwt.decode` names no accepted algorithm.
  unfoldable pub verify_token : ℕ → Jws → Answer (Option (Claim × Claim))
  unfolding get jwt_secret
  verify_token now token =
      if is_empty_text (characters_of token)
      then fails (value_error "Token must be a non-empty string")
      else if not (is_match jwt_pattern (characters_of token))
      then fails (value_error "Token format is invalid - expected JWT format")
      else jwt_secret settings >>= λ key. returns (subject_or_none (decode now token key []))

  -- `UUID(value)`
  unfoldable pub to_uuid : Claim → Answer ℕ
  to_uuid (text s) = elim (uuid_of s) [
    | none ↦ fails (value_error "badly formed hexadecimal UUID string")
    | some i ↦ returns i
  ]
  to_uuid null = fails type_error
  to_uuid (flag b) = fails attribute_error
  to_uuid (number n) = fails attribute_error

-- `payload[name]`
unfoldable pub item : String → Payload → Answer Claim
unfolding get
item name p = elim (get name p) [ none ↦ fails (key_error name) | some c ↦ returns c ]
