-- ===== src/Account/Access.antt =====
-- Which tokens a request accepts.
use package.text.Mathlib.TextEquality.{eq_iff}
use mathlib.Core.Path.{subst}
use doc_mind_ai.Base.{
  ℕ, ◌≡◌, refl, sym, true, false, Option, none, some, inl, inr, Bool-cases, arith,
}
use doc_mind_ai.Account.Types.{Users, http, Answer, returns, fails, is_empty_text, request}
use doc_mind_ai.Account.Tokens.{
  AuthLibraries, AuthSettings, Draw, Claim, text, Payload, get, is_text, check_subject,
  decode_token_payload, get_subject_for_token_type, decode_refresh_token, to_uuid, ◌>>=◌,
}
use doc_mind_ai.Account.Users.{refresh}
use doc_mind_ai.Account.Requests.{
  unauthorized, user_id_of, access_subject, credentials_token, get_current_user_id, refresh_token,
}

-- What a chain of two calls returns.
pub >>=-returns {ℓ κ} :
    {A : Type ℓ} {B : Type κ} (m : Answer A) (f : A → Answer B) {b : B}
    → (m >>= f) ≡ returns b
    → (a : A) × (m ≡ returns a) × (f a ≡ returns b)
>>=-returns (returns a) f h = (a, refl, h)
>>=-returns (fails e) f h = cc

unauthorized-returns : (r : Answer ℕ) {i : ℕ} → unauthorized r ≡ returns i → r ≡ returns i
unauthorized-returns (returns j) h = h
unauthorized-returns (fails e) h = cc

is_text-disjoint : (c : Option Claim) → is_text "access" c ≡ true → is_text "refresh" c ≡ false
is_text-disjoint none h = refl
is_text-disjoint (some (text s)) h = rw ((eq_iff s "access").0 h) refl
is_text-disjoint (some c) h = refl

module _ (libraries : AuthLibraries) (settings : AuthSettings) where
  check_subject-type :
      (p : Payload) (s : Claim × Claim)
      → check_subject libraries settings "access" p ≡ returns s
      → is_text "access" (get "type" p) ≡ true
  unfolding get
  check_subject-type p s h = ground (arith, h)

  user_id_of-returns :
      (r : Answer (Claim × Claim)) {i : ℕ}
      → user_id_of libraries settings r ≡ returns i
      → (s : Claim × Claim) × (r ≡ returns s) × (to_uuid libraries settings s.0 ≡ returns i)
  unfolding to_uuid
  user_id_of-returns (returns s) h = (s, refl, unauthorized-returns _ h)
  user_id_of-returns (fails e) h = cc

  access_subject-returns :
      (now : ℕ) (r : Answer libraries.Jws) {s : Claim × Claim}
      → access_subject libraries settings now r ≡ returns s
      → (token : libraries.Jws) × (r ≡ returns token)
        × (get_subject_for_token_type libraries settings now token "access" ≡ returns s)
  unfolding get_subject_for_token_type
  access_subject-returns now (returns token) h = (token, refl, h)
  access_subject-returns now (fails e) h = cc

  credentials_token-returns :
      (token other : libraries.Jws)
      → credentials_token libraries settings (some token) ≡ returns other
      → token ≡ other
  credentials_token-returns token other h =
      elim (Bool-cases (is_empty_text (libraries.characters_of token))) [
        | inl e ↦ ground (arith, e, h)
        | inr e ↦ ground (arith, e, h)
      ]

  -- A token that identifies the user of a request carries the type "access", and names the user.
  get_current_user_id-returns :
      (now : ℕ) (token : libraries.Jws) {i : ℕ}
      → get_current_user_id libraries settings now (some token) ≡ returns i
      → (p : Payload) × (decode_token_payload libraries settings now token ≡ returns p)
        × (is_text "access" (get "type" p) ≡ true)
  unfolding get_current_user_id
  get_current_user_id-returns now token h =
      let (s, a, _) = user_id_of-returns _ h in
      let (t, b, c) = access_subject-returns now _ a in
      let (p, d, e) = >>=-returns (decode_token_payload libraries settings now t) _ c in
      (
        p,
        subst (λ x. decode_token_payload libraries settings now x ≡ returns p)
            (sym (credentials_token-returns token t b)) d,
        check_subject-type p s e,
      )

  -- A token with which a request is made as a user cannot be exchanged for new tokens at that
  -- time: the refresh answers 401 and changes nothing.
  pub get_current_user_id-refresh_token :
      (now i : ℕ) (first second : Draw) (token : libraries.Jws) (users : Users)
      → get_current_user_id libraries settings now (some token) ≡ returns i
      → refresh_token libraries settings now first second token users
        ≡ (fails (http 401 "Unauthorized, invalid token type"), users)
  unfolding refresh_token refresh decode_refresh_token request
  get_current_user_id-refresh_token now i first second token users h =
      let (p, d, e) = get_current_user_id-returns now token h in
      rw d (rw (is_text-disjoint (get "type" p) e) refl)
