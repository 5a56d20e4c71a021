-- ===== src/Account/Laws.antt =====
-- What the theorems about tokens rely on of PyJWT, bcrypt and `uuid`, and what a created token decodes to.
use doc_mind_ai.Base.{
  ℕ, ◌≡◌, refl, ◌≤◌, ◌<◌, ◌*◌, String, Bool, true, false, ◌||◌, some, List, [], ◌∷◌,
}
use package.text.Mathlib.Text.{◌==◌ as str_eq}
use package.text.Mathlib.TextEquality.{eq_iff}
use doc_mind_ai.Account.Types.{TokenPair, returns, is_empty_text}
use doc_mind_ai.Account.Tokens.{
  AuthLibraries, AuthSettings, Draw, Claim, text, payload, token_claims, get, jwt_secret,
  jwt_algorithm, access_expiry, refresh_expiry, create_access_token, create_refresh_token,
  create_token_pair, decode_token_payload, get_subject_for_token_type, decode_refresh_token,
  to_uuid,
}

-- PyJWT signs with one of these and the secret, and verifies with the same.
abbrev pub is_hmac : String → Bool
is_hmac algorithm = str_eq algorithm "HS256" || str_eq algorithm "HS384" || str_eq algorithm "HS512"

pub record IsLawful (libraries : AuthLibraries) : Type 0 where
  -- A token of a symmetric algorithm decodes with its own key and algorithm from its issue until its expiry.
  pub decode-encode :
      (now : ℕ) (user_id email type : String) (expire : ℕ) (draw : Draw) (key algorithm : String)
      → is_hmac algorithm ≡ true
      → draw.issued ≤ now
      → now < expire
      → libraries.decode now
          (libraries.encode (token_claims user_id email type expire draw) key algorithm)
          key
          (algorithm ∷ [])
        ≡ payload (token_claims user_id email type expire draw)
  pub checkpw-hashpw :
      (password salt hash : String)
      → libraries.hashpw password salt ≡ returns hash
      → libraries.checkpw password hash ≡ returns true
  pub uuid_of-str_of : (i : ℕ) → libraries.uuid_of (libraries.str_of i) ≡ some i
  pub str_of-not_blank : (i : ℕ) → is_empty_text (libraries.str_of i) ≡ false
  pub encode-not_blank :
      (p : List (String × Claim)) (key algorithm : String)
      → is_empty_text (libraries.characters_of (libraries.encode p key algorithm)) ≡ false

pub to_uuid-str_of :
    (libraries : AuthLibraries) (lawful : IsLawful libraries) (settings : AuthSettings) (i : ℕ)
    → to_uuid libraries settings (text (libraries.str_of i)) ≡ returns i
unfolding to_uuid
to_uuid-str_of libraries lawful settings i = rw (lawful.uuid_of-str_of i, to_uuid) refl

module _ (libraries : AuthLibraries) (lawful : IsLawful libraries) (settings : AuthSettings)
    (key : String) (configured : jwt_secret settings ≡ returns key) where
  module _ (symmetric : is_hmac (jwt_algorithm settings) ≡ true) (user_id email type : String)
      (expire now : ℕ) (draw : Draw) (issued : draw.issued ≤ now) (fresh : now < expire) where
    decode_token_payload-encode :
        decode_token_payload libraries settings now (
          libraries.encode
            (token_claims user_id email type expire draw)
            key
            (jwt_algorithm settings))
        ≡ returns (token_claims user_id email type expire draw)
    unfolding decode_token_payload
    decode_token_payload-encode = rw configured (
        rw
          (lawful.decode-encode now user_id email type expire draw key (jwt_algorithm settings)
            symmetric issued fresh)
          refl)

    pub get_subject_for_token_type-encode :
        is_empty_text user_id ≡ false
        → is_empty_text email ≡ false
        → get_subject_for_token_type libraries settings now
            (libraries.encode
              (token_claims user_id email type expire draw)
              key
              (jwt_algorithm settings))
            type
          ≡ returns (text user_id, text email)
    unfolding get_subject_for_token_type token_claims get
    get_subject_for_token_type-encode u e =
        rw decode_token_payload-encode (rw (u, e, (eq_iff type type).1 refl) refl)

  module _ (symmetric : is_hmac (jwt_algorithm settings) ≡ true) (user_id email : String)
      (expire now : ℕ) (draw : Draw) (issued : draw.issued ≤ now) (fresh : now < expire) where
    pub decode_refresh_token-encode :
        is_empty_text draw.jti ≡ false
        → decode_refresh_token libraries settings now (
            libraries.encode
              (token_claims user_id email "refresh" expire draw)
              key
              (jwt_algorithm settings))
          ≡ returns (token_claims user_id email "refresh" expire draw)
    unfolding decode_refresh_token token_claims get
    decode_refresh_token-encode j =
        rw
          (decode_token_payload-encode symmetric user_id email "refresh" expire now draw issued
            fresh)
          (rw j refl)

  abbrev pub access_of : Draw → String → String → libraries.Jws
  access_of draw user_id email =
      libraries.encode
        (token_claims user_id email "access" (access_expiry libraries settings draw) draw) key
        (jwt_algorithm settings)

  abbrev pub refresh_of : Draw → String → String → libraries.Jws
  refresh_of draw user_id email =
      libraries.encode
        (token_claims user_id email "refresh" (refresh_expiry libraries settings draw) draw) key
        (jwt_algorithm settings)

  abbrev pub pair_of : Draw → Draw → String → String → TokenPair libraries.Jws
  pair_of first second user_id email = record {
    access_token = access_of first user_id email;
    token_type = "bearer";
    expires_in = settings.access_token_expire_minutes * 60;
    refresh_token = some (refresh_of second user_id email);
    refresh_expires_at = some (refresh_expiry libraries settings second);
  }

  pub create_token_pair_lem :
      (first second : Draw) (user_id email : String)
      → create_token_pair libraries settings first second user_id email
        ≡ returns (pair_of first second user_id email)
  unfolding create_token_pair create_access_token create_refresh_token
  create_token_pair_lem first second user_id email = rw configured refl
