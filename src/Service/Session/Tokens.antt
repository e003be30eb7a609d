-- ===== src/Service/Session/Tokens.antt =====
-- What the tokens of Login are worth, and what Logout takes away.
use Prim.Native.String.{String, ◌++◌ as str_append, len}
use text.Mathlib.TextPositions.{len-append}
use mathlib.Core.Path.{subst}
use fraud_detection_lite.Prelude.{
  ℕ, ◌+◌, ◌-◌, ◌≡◌, ◌≢◌, ◌∙◌, refl, sym, ap, Bool, Bool-cases, inl, inr, true, false, arith, ltb,
  str_eq, str_eq_iff, if◌then◌else◌,
}
use fraud_detection_lite.Prelude.Text.{trim_prefix, trim_prefix-append}
use fraud_detection_lite.Prelude.Int.{ℤ, pos}
use fraud_detection_lite.Time.{Time}
use fraud_detection_lite.Specs.Error.{Error, Result, ok, err, invalid_token, expired_token}
use fraud_detection_lite.Specs.User.{UserLoginRequest, UserLoginResponse, UserTokenClaims}
use fraud_detection_lite.Repository.Models.{User}
use fraud_detection_lite.Repository.Queries.{UserQueries}
use fraud_detection_lite.Service.Session.{
  Token, Security, key_for, accepted_claims, get_claims_from_request, make_jwt, secret_or_default,
  login_response, login_checked, login_found, login, blacklist_key, logout, logout_stored,
  authenticate, admit_claims, admit_known,
}

abbrev pub bearer : String → String
bearer token = str_append "Bearer " token

bearer-ne : (t : String) → str_eq t (bearer t) ≡ false
bearer-ne t = elim (Bool-cases (str_eq t (bearer t))) [
  | inl same ↦ absurd (too_long (ap len ((str_eq_iff t (bearer t)).0 same)))
  | inr other ↦ other
]
  where
    too_long : len t ≡ len (bearer t) → ⊥
    too_long h = omega (arith, h, len-append "Bearer " t)

not_empty : (t : String) → str_eq (bearer t) "" ≡ false
not_empty t = elim (Bool-cases (str_eq (bearer t) "")) [
  | inl same ↦ absurd (too_long (ap len ((str_eq_iff (bearer t) "").0 same)))
  | inr other ↦ other
]
  where
    too_long : len (bearer t) ≡ 0 → ⊥
    too_long h = omega (arith, h, len-append "Bearer " t)

-- A response's token comes back out of its header.
from_header : (t : String) → trim_prefix (bearer t) "Bearer " ≡ t
from_header t = trim_prefix-append t "Bearer "

-- The JWT library: a token that was signed with a key is parsed, given that key, to its claims until
-- they expire, and given another, to an error. The secret of the process does not change.
pub record HasTokens {S : Type 0} (security : Security S) (secret : String) : Type 0 where
  pub clock : S → Time
  pub expired : Error
  pub other_key : Error
  pub same_secret : (s : S) → security.jwt_secret s ≡ secret
  pub parses :
      (claims : UserTokenClaims) (key text : String) (s : S)
      → security.signed_string claims key ≡ ok text
      → security.parse_with_claims text (key_for key) s ≡ (
          if ltb (clock s).secs claims.expires_at.secs
          then ok (record { claims = claims; valid = true })
          else err expired)
  pub refuses :
      (claims : UserTokenClaims) (key other text : String) (s : S)
      → security.signed_string claims key ≡ ok text
      → other ≢ key
      → security.parse_with_claims text (key_for other) s ≡ err other_key

abbrev default_secret : String
default_secret = "default_secret"

abbrev no_secret : String
no_secret = ""

default_differs : no_secret ≢ default_secret
default_differs h = omega (arith, ap len h)

-- The response of a login holds a token of these claims, signed with this secret.
record IsSigned {S : Type 0} (security : Security S) (secret : String) (claims : UserTokenClaims)
    (response : UserLoginResponse) : Type 0 where
  signed : security.signed_string claims secret ≡ ok response.token

-- The claims of a user who logs in: a new identifier, the two readings of the clock after it, and 24
-- hours from the second.
abbrev pub claims_for : {S : Type 0} → Security S → User → S → UserTokenClaims
claims_for security user s =
    let (id, s1) = security.new_uuid s in
    let (first, s2) = security.now s1 in
    let second = (security.now s2).0 in
    record {
      user_id = user.id;
      name = user.name;
      email = user.email;
      id = id;
      issued_at = first;
      expires_at = record { secs = second.secs + 86400; zone = second.zone };
    }

module _ {S : Type 0} (security : Security S) where
  token_of :
      (made : Result String × S) (response : UserLoginResponse) (s : S)
      → login_response security made ≡ (ok response, s)
      → made.0 ≡ ok response.token
  token_of (ok token, s') response s h = cc
  token_of (err e, s') response s h = cc

  checked-signs :
      (checked : Result (Unit {0})) (user : User) (s1 s : S) (response : UserLoginResponse)
      → login_checked security checked user s1 ≡ (ok response, s)
      → IsSigned security
          (secret_or_default security (security.jwt_secret s1))
          (claims_for security user s1)
          response
  unfolding make_jwt
  checked-signs (ok done) user s1 s response h = record { signed = token_of _ response s h }
  checked-signs (err e) user s1 s response h = cc

  found-signs :
      (password : String) (found : Result User) (s1 s : S) (response : UserLoginResponse)
      → login_found security password found s1 ≡ (ok response, s)
      → (user : User) × (found ≡ ok user)
        × IsSigned security
            (secret_or_default security (security.jwt_secret s1))
            (claims_for security user s1)
            response
  found-signs password (ok user) s1 s response h =
      (user, refl, checked-signs _ user s1 s response h)
  found-signs password (err e) s1 s response h = cc

  -- The claims of a request whose header carries a token, by what the library makes of the token.
  claims_of :
      (token : String) (s : S) (parsed : Result Token)
      → security.parse_with_claims token (key_for (security.jwt_secret s)) s ≡ parsed
      → get_claims_from_request security (bearer token) s ≡ accepted_claims parsed
  unfolding get_claims_from_request
  claims_of token s parsed h = rw (not_empty token, from_header token, bearer-ne token, h) refl

  in_force :
      (b : Bool) (claims : UserTokenClaims) (e : Error)
      → accepted_claims (if b then ok (record { claims = claims; valid = true }) else err e)
        ≡ (if b then ok claims else err invalid_token)
  in_force true claims e = refl
  in_force false claims e = refl

module _ {S : Type 0} (security : Security S) (queries : UserQueries S) (secret : String)
    (tokens : HasTokens security secret) (req : UserLoginRequest) (s s1 : S)
    (response : UserLoginResponse)
    (logged_in : login security queries req s ≡ (ok response, s1)) where
  login-IsSigned :
      (user : User) × ((queries.get_user_by_email req.email s).0 ≡ ok user)
      × IsSigned security
          (secret_or_default security secret)
          (claims_for security user (queries.get_user_by_email req.email s).1)
          response
  unfolding login
  login-IsSigned =
      let (found, s2) = queries.get_user_by_email req.email s in
      subst
        (λ k.
          (user : User) × (found ≡ ok user)
          × IsSigned security (secret_or_default security k) (claims_for security user s2) response)
        (tokens.same_secret s2) (found-signs security req.password found s2 s1 response logged_in)

  -- Where the JWT library parses what it signed and the secret of the process is fixed and set, the
  -- token of a successful login authenticates a later request as the user that was found for the e-mail
  -- address, with the claims of the login, as long as the clock shows less than 24 hours after it, and
  -- from then on no request.
  pub login_accepted :
      str_eq secret "" ≡ false
      → (s' : S)
      → let (found, asked) = queries.get_user_by_email req.email s in
        let started = (security.now (security.now (security.new_uuid asked).1).1).0 in
        (user : User) × (found ≡ ok user)
        × (get_claims_from_request security (bearer response.token) s' ≡ (
            if ltb (tokens.clock s').secs (started.secs + 86400)
            then ok (claims_for security user asked)
            else err invalid_token))
  login_accepted set s' =
      let (user, found, i) = login-IsSigned in
      let claims = claims_for security user (queries.get_user_by_email req.email s).1 in
      (
        user,
        found,
        claims_of security response.token s' _ (
              ap (λ k. security.parse_with_claims response.token (key_for k) s')
                (tokens.same_secret s')
              ∙ tokens.parses claims secret response.token s' (
                  subst (λ k. security.signed_string claims k ≡ ok response.token)
                    (ap (λ b. if b then "default_secret" else secret) set) i.signed))
            ∙ in_force security _ claims tokens.expired,
      )

  -- Where the JWT library refuses what was signed with another key and the secret of the process is
  -- the empty text, the token of a successful login authenticates no request.
  pub login_unset_secret :
      secret ≡ ""
      → (s' : S) → get_claims_from_request security (bearer response.token) s' ≡ err invalid_token
  login_unset_secret unset s' =
      let (user, found, i) = login-IsSigned in
      let claims = claims_for security user (queries.get_user_by_email req.email s).1 in
      claims_of security response.token s' (err tokens.other_key) (
        ap (λ k. security.parse_with_claims response.token (key_for k) s')
          (tokens.same_secret s' ∙ unset)
        ∙ tokens.refuses claims "default_secret" "" response.token s'
            (subst
              (λ k.
                security.signed_string claims (secret_or_default security k) ≡ ok response.token)
              unset i.signed)
            default_differs)

-- Redis: a key that was set exists.
pub record KeepsKeys {S : Type 0} (security : Security S) : Type 0 where
  pub set_exists :
      (key : String) (n : ℕ) (s : S)
      → (security.set_key key n s).0 ≡ ok tt
      → (security.exists_key key (security.set_key key n s).1).0 ≡ ok (pos 1)

module _ {S : Type 0} (security : Security S) where
  stored_ok :
      (made : Result (Unit {0}) × S) (s : S)
      → logout_stored security made ≡ (ok tt, s)
      → (made.0 ≡ ok tt) × (made.1 ≡ s)
  stored_ok (ok done, s') s h = (refl, ap (λ r. r.1) h)
  stored_ok (err e, s') s h = cc

  refused_known :
      (claims : UserTokenClaims) (found : Result ℤ × S)
      → found.0 ≡ ok (pos 1)
      → (admit_known security claims found).0 ≡ err expired_token
  refused_known claims (ok n, s) h = ap (λ (r : Result ℤ). (admit_known security claims (r, s)).0) h
  refused_known claims (err e, s) h = cc

  -- Where Redis keeps what it was given, a logout that succeeds before the token has expired revokes
  -- it: in the state after it, a request with any token of these claims is refused.
  pub logout_revokes :
      KeepsKeys security
      → (claims : UserTokenClaims) (s s' : S) (header : String)
      → ltb claims.expires_at.secs (security.now s).0.secs ≡ false
      → logout security claims s ≡ (ok tt, s')
      → get_claims_from_request security header s' ≡ ok claims
      → (authenticate security header s').0 ≡ err expired_token
  unfolding logout authenticate
  logout_revokes keeps claims s s' header live done known =
      let (now, s1) = security.now s in
      let left = claims.expires_at.secs - now.secs in
      let made = security.set_key (blacklist_key security claims) left s1 in
      let stored =
        stored_ok made s'
          (ap (λ b. if b then (ok tt, s1) else logout_stored security made) (sym live) ∙ done) in
      ap (λ c. (admit_claims security c s').0) known
      ∙ refused_known claims (security.exists_key (blacklist_key security claims) s') (
          subst (λ t. (security.exists_key (blacklist_key security claims) t).0 ≡ ok (pos 1))
            stored.1 (keeps.set_exists (blacklist_key security claims) left s1 stored.0))
