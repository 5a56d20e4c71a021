-- ===== src/Account/Renewal.antt =====
-- For whom a refresh returns new tokens.
use mathlib.Core.Path.{subst}
use doc_mind_ai.Base.{
  ℕ, ◌≡◌, refl, sym, ap, String, Bool, true, false, not, Option, none, some, find, arith,
}
use doc_mind_ai.Account.Types.{
  User, Users, Query, TokenPair, Failure, value_error, type_error, UserResponse, to_schema, Answer,
  returns, fails, request, call, ◌>>=◌, ◌>>◌, commit_or_roll_back, and_then,
}
use doc_mind_ai.Account.Tokens.{
  AuthLibraries, AuthSettings, Draw, Payload, get, is_text, check_refresh, decode_token_payload,
  decode_refresh_token, to_uuid, item, create_token_pair,
}
use doc_mind_ai.Account.Users.{
  with_id, schema_or_none, get_by_id, get_user, refuse_if, some_or_raise, bad_subject, subject_id,
  refresh,
}
use doc_mind_ai.Account.Requests.{on_value_error, refresh_token}
use doc_mind_ai.Account.Access.{>>=-returns}

and_then-returns {ℓ κ} :
    {A : Type ℓ} {B : Type κ} (r : Answer A) (f : A → Query B) (users : Users) {b : B}
    {after : Users}
    → and_then r f users ≡ (returns b, after)
    → (a : A) × (r ≡ returns a) × (f a users ≡ (returns b, after))
and_then-returns (returns a) f users h = (a, refl, h)
and_then-returns (fails e) f users h = cc

commit_or_roll_back-returns {ℓ} :
    {A : Type ℓ} (r : Answer A) (before now : Users) {a : A} {after : Users}
    → commit_or_roll_back before r now ≡ (returns a, after)
    → ◌≡◌ {A = Answer A × Users} (r, now) (returns a, after)
commit_or_roll_back-returns (returns b) before now h = h
commit_or_roll_back-returns (fails e) before now h = cc

bad_subject-returns : (r : Answer ℕ) {i : ℕ} → bad_subject r ≡ returns i → r ≡ returns i
bad_subject-returns (returns j) h = h
bad_subject-returns (fails (value_error m)) h = cc
bad_subject-returns (fails type_error) h = cc
bad_subject-returns (fails e) h = h

refuse_if-returns {ℓ} :
    {A : Type ℓ} (active : Bool) (message : String) (r : Answer A) (users : Users) {a : A}
    {after : Users}
    → (refuse_if (not active) message >> call r) users ≡ (returns a, after)
    → (active ≡ true) × (r ≡ returns a) × (after ≡ users)
refuse_if-returns true message r users h = (refl, ap (λ x. x.0) h, sym (ap (λ x. x.1) h))
refuse_if-returns false message r users h = cc

on_value_error-returns {ℓ} :
    {A : Type ℓ} (f : String → Failure) (r : Answer A × Users) {a : A} {after : Users}
    → on_value_error f r ≡ (returns a, after)
    → r ≡ (returns a, after)
on_value_error-returns f (returns b, users) h = h
on_value_error-returns f (fails (value_error m), users) h = cc
on_value_error-returns f (fails e, users) h = h

module _ (libraries : AuthLibraries) (settings : AuthSettings) where
  abbrev renew : Draw → Draw → ℕ → Option UserResponse → Query (TokenPair libraries.Jws)
  unfolding create_token_pair
  renew first second i found = do
    user ← some_or_raise "User not found" found
    refuse_if (not user.is_active) "User is inactive"
    call (create_token_pair libraries settings first second (libraries.str_of user.id) user.email)

  renew-returns :
      (first second : Draw) (i : ℕ) (o : Option User) (users : Users)
      {pair : TokenPair libraries.Jws} {after : Users}
      → renew first second i (schema_or_none (with_id i o)) users ≡ (returns pair, after)
      → (user : User) × (o ≡ some user)
        × (user.is_active ≡ true)
        × (create_token_pair libraries settings first second (libraries.str_of i) user.email
            ≡ returns pair)
        × (after ≡ users)
  unfolding to_schema create_token_pair
  renew-returns first second i none users h = cc
  renew-returns first second i (some user) users h =
      let (a, b, c) = refuse_if-returns user.is_active _ _ users h in (user, refl, a, b, c)

  check_refresh-returns :
      (p q : Payload)
      → check_refresh libraries settings p ≡ returns q
      → (is_text "refresh" (get "type" p) ≡ true) × (p ≡ q)
  unfolding get
  check_refresh-returns p q h = (ground (arith, h), ground (arith, h))

  decode_refresh_token-returns :
      (now : ℕ) (token : libraries.Jws) {p : Payload}
      → decode_refresh_token libraries settings now token ≡ returns p
      → (decode_token_payload libraries settings now token ≡ returns p)
        × (is_text "refresh" (get "type" p) ≡ true)
  unfolding decode_refresh_token
  decode_refresh_token-returns now token {p} h =
      let (q, e, r) = >>=-returns (decode_token_payload libraries settings now token) _ h in
      let (t, same) = check_refresh-returns q p r in
      (
        subst (λ x. decode_token_payload libraries settings now token ≡ returns x) same e,
        subst (λ x. is_text "refresh" (get "type" x) ≡ true) same t,
      )

  -- If a refresh returns tokens, then its token decodes to a payload of type "refresh" whose
  -- subject is the id of a user who is active, the tokens are made for this user and the email of
  -- the row, and no user changes.
  pub refresh_token-returns :
      (now : ℕ) (first second : Draw) (token : libraries.Jws) (users : Users)
      (pair : TokenPair libraries.Jws) (after : Users)
      → refresh_token libraries settings now first second token users ≡ (returns pair, after)
      → (i : ℕ) × (user : User) × (p : Payload) × (decode_token_payload libraries settings now token
          ≡ returns p)
        × (is_text "refresh" (get "type" p) ≡ true)
        × (subject_id libraries settings (item "sub" p) ≡ returns i)
        × (find i users ≡ some user)
        × (user.is_active ≡ true)
        × (create_token_pair libraries settings first second (libraries.str_of i) user.email
            ≡ returns pair)
        × (after ≡ users)
  unfolding refresh_token refresh request get_user get_by_id decode_refresh_token to_uuid item
      create_token_pair
  refresh_token-returns now first second token users pair after h =
      let a = on_value_error-returns _ _ (commit_or_roll_back-returns _ users _ h) in
      let (p, e, b) =
        and_then-returns (decode_refresh_token libraries settings now token) _ users a in
      let (i, g, c) =
        and_then-returns (bad_subject (subject_id libraries settings (item "sub" p))) _ users b in
      let (d, t) = decode_refresh_token-returns now token e in
      let (user, f, active, made, kept) = renew-returns first second i (find i users) users c in
      (i, user, p, d, t, bad_subject-returns _ g, f, active, made, kept)
