-- ===== src/Examples/Accounts.antt =====
-- A user who registers and logs in, with libraries of the simplest kind: a token is its payload with the key
-- and the algorithm, a hash is the password, and the text of an id counts it.
use Prim.Native.String.{◌∷◌ as ◌∷ˢ◌}
use package.text.Mathlib.Text.{◌==◌ as str_eq}
use package.text.Mathlib.TextEquality.{eq_iff}
use doc_mind_ai.Base.{
  ℕ, zero, suc, ◌-◌, ◌≡◌, refl, ap, inl, inr, String, Bool, true, false, ◌&&◌, Option, some, List,
  [], ◌∷◌, length, if◌then◌else◌, ltb, lt→ltb, Bool-cases, find, insert, arith,
}
use doc_mind_ai.Storage.Validation.{characters}
use doc_mind_ai.Account.Types.{
  User, UserCreate, Users, http, returns, fails, is_empty_text, password_strength, to_schema,
}
use doc_mind_ai.Account.Tokens.{
  jwt_algorithm, AuthLibraries, AuthSettings, Draw, Payload, Claim, number, text, payload, expired,
  invalid, get, token_claims, jwt_secret, decode_token_payload, create_token_pair, is_text, item,
}
use doc_mind_ai.Account.Laws.{IsLawful, refresh_of, pair_of}
use doc_mind_ai.Account.Users.{new_user, subject_id}
use doc_mind_ai.Account.Requests.{
  get_current_user_id, get_current_user_email, register, login, refresh_token, me,
}
use doc_mind_ai.Account.Login.{register-login}
use doc_mind_ai.Account.Access.{get_current_user_id-refresh_token}
use doc_mind_ai.Account.Renewal.{refresh_token-returns}

abbrev expiry_of : Option Claim → ℕ
expiry_of (some (number n)) = n
expiry_of _ = 0

abbrev accepts : String → List String → Bool
accepts a [] = false
accepts a (b ∷ rest) = str_eq a b

-- The next character of a text for an id.
abbrev text_of_id : ℕ → String
text_of_id zero = "i"
text_of_id (suc n) = "i" ∷ˢ text_of_id n

abbrev simple : AuthLibraries
unfolding get characters
simple = record {
  Jws = Payload × String × String;
  characters_of = λ token. "token";
  encode = λ p key algorithm. (p, key, algorithm);
  decode = λ now token key algorithms.
      if str_eq token.1 key && accepts token.2 algorithms
      then if ltb now (expiry_of (get "exp" token.0)) then payload token.0 else expired
      else invalid;
  hashpw = λ password salt. returns password;
  checkpw = λ password hash. returns (str_eq hash password);
  str_of = text_of_id;
  uuid_of = λ s. some (length (characters s) - 1);
}

count-text_of_id : (i : ℕ) → length (characters (text_of_id i)) ≡ suc i
unfolding characters
count-text_of_id zero = refl
count-text_of_id (suc n) = ap suc (count-text_of_id n)

text_of_id-not_blank : (i : ℕ) → is_empty_text (text_of_id i) ≡ false
unfolding characters
text_of_id-not_blank i = elim (Bool-cases (is_empty_text (text_of_id i))) [
  | inl e ↦ absurd (
      omega (
        arith,
        count-text_of_id i,
        ap (λ s. length (characters s)) ((eq_iff (text_of_id i) "").0 e),
      ))
  | inr e ↦ e
]

simple-IsLawful : IsLawful simple
unfolding get token_claims characters
simple-IsLawful = record {
  decode-encode = λ now user_id email type expire draw key algorithm symmetric issued fresh.
      rw ((eq_iff key key).1 refl, (eq_iff algorithm algorithm).1 refl, lt→ltb now expire fresh)
        refl;
  checkpw-hashpw = λ password salt hash h.
      let e : hash ≡ password = cc in ap returns ((eq_iff hash password).1 e);
  uuid_of-str_of = λ i. ap some (omega (arith, count-text_of_id i));
  str_of-not_blank = text_of_id-not_blank;
  encode-not_blank = λ p key algorithm. refl;
}

abbrev settings : AuthSettings
settings = record {
  jwt_secret = some "secret";
  jwt_algorithm = "HS256";
  access_token_expire_minutes = 60;
  refresh_token_expire_days = 7;
}

abbrev body : UserCreate
body = record { email = "ada@example.org"; password = "Engine1842" }

abbrev grace : User
grace = new_user 5 "grace@example.org" "Compiler1952" true true

abbrev users : Users
users = (1, grace) ∷ []

abbrev draw : ℕ → String → Draw
draw now jti = record { now = now; issued = now; jti = jti }

secret : jwt_secret settings ≡ returns "secret"
unfolding jwt_secret
secret = refl

register-login_example :
    let id = text_of_id 2 in
    let user = new_user 10 "ada@example.org" "Engine1842" true false in
    let users' = insert 2 user users in
    let pair =
      pair_of simple simple-IsLawful settings "secret" secret
        (draw 20 "a")
        (draw 21 "b")
        id
        body.email in
    let next =
      pair_of simple simple-IsLawful settings "secret" secret
        (draw 90 "c")
        (draw 91 "d")
        id
        body.email in
    let token =
      refresh_of simple simple-IsLawful settings "secret" secret (draw 21 "b") id body.email in
    (register simple settings 10 2 "salt" body users ≡ (returns (to_schema (2, user)), users'))
    × (login simple settings (draw 20 "a") (draw 21 "b") body.email body.password users'
        ≡ (returns pair, users'))
    × (get_current_user_id simple settings 60 (some pair.access_token) ≡ returns 2)
    × (get_current_user_email simple settings 60 (some pair.access_token)
        ≡ returns (text body.email))
    × (me body.email users' ≡ (returns (some (to_schema (2, user))), users'))
    × (pair.refresh_token ≡ some token)
    × (refresh_token simple settings 5000 (draw 90 "c") (draw 91 "d") token users'
        ≡ (returns next, users'))
unfolding simple password_strength characters find jwt_algorithm
register-login_example =
    register-login simple simple-IsLawful settings "secret" secret refl 2 10 "salt" "Engine1842"
      body users refl refl refl refl refl (draw 20 "a") (draw 21 "b") (draw 90 "c") (draw 91 "d") 60
      5000 (omega arith) (omega arith) (omega arith) (omega arith) refl

abbrev access : simple.Jws
unfolding simple token_claims
access = (token_claims "ii" "grace@example.org" "access" 100 (draw 20 "a"), "secret", "HS256")

get_current_user_id-refresh_token_example :
    refresh_token simple settings 60 (draw 20 "a") (draw 21 "b") access users
    ≡ (fails (http 401 "Unauthorized, invalid token type"), users)
unfolding simple get_current_user_id token_claims get characters
get_current_user_id-refresh_token_example =
    get_current_user_id-refresh_token simple settings 60 1 (draw 20 "a") (draw 21 "b") access users
      refl

abbrev renewal : simple.Jws
unfolding simple token_claims
renewal = (token_claims "ii" "grace@example.org" "refresh" 100 (draw 20 "a"), "secret", "HS256")

refresh_token-returns_example :
    let pair =
      pair_of simple simple-IsLawful settings "secret" secret
        (draw 60 "c")
        (draw 61 "d")
        (text_of_id 1)
        "grace@example.org" in
    (i : ℕ) × (user : User) × (p : Payload) × (decode_token_payload simple settings 60 renewal
      ≡ returns p)
    × (is_text "refresh" (get "type" p) ≡ true)
    × (subject_id simple settings (item "sub" p) ≡ returns i)
    × (find i users ≡ some user)
    × (user.is_active ≡ true)
    × (create_token_pair simple settings (draw 60 "c") (draw 61 "d") (simple.str_of i) user.email
        ≡ returns pair)
    × (users ≡ users)
unfolding simple refresh_token token_claims get characters find
refresh_token-returns_example =
    refresh_token-returns simple settings 60 (draw 60 "c") (draw 61 "d") renewal users _ users refl
