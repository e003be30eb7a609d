-- ===== src/Service/Session.antt =====
-- internal/service/user_service.go, internal/pkg/helpers/auth.go and internal/pkg/middleware/auth.go:
-- signing up, in and out, and the tokens.
pub mod Tokens
pub mod Keeps
use Prim.Native.String.{◌++◌ as str_append}
use fraud_detection_lite.Prelude.{
  ℕ, ◌+◌, ◌-◌, String, Bool, true, false, Option, none, some, ltb, str_eq, if◌then◌else◌,
}
use fraud_detection_lite.Prelude.Text.{trim_prefix}
use fraud_detection_lite.Prelude.Int.{ℤ, pos, eqb_ℤ}
use fraud_detection_lite.Time.{Time}
use fraud_detection_lite.Specs.Error.{
  Error, Result, ok, err, user_not_found, wrong_password, empty_token, invalid_token, expired_token,
  logout_failed, auth_service_unavailable,
}
use fraud_detection_lite.Specs.User.{
  UserSignupRequest, UserSignupResponse, UserLoginRequest, UserLoginResponse, UserTokenClaims,
}
use fraud_detection_lite.Repository.Models.{User}
use fraud_detection_lite.Repository.Queries.{UserQueries, CreateUserParams}

-- A token as the library parses it: its claims, and whether it is valid.
pub record Token : Type 0 where
  pub claims : UserTokenClaims
  pub valid : Bool

-- bcrypt, uuid, the clock, the environment variable JWT_SECRET, the HS256 signature, the parsing of a
-- token with the caller's key function, which is told whether the method is HMAC, and Redis.
pub record Security (S : Type 0) : Type 0 where
  pub generate_from_password : String → S → Result String × S
  pub compare_hash_and_password : String → String → Result (Unit {0})
  pub new_uuid : S → String × S
  pub now : S → Time × S
  pub jwt_secret : S → String
  pub signed_string : UserTokenClaims → String → Result String
  pub parse_with_claims : String → (Bool → Result String) → S → Result Token
  pub set_key : String → ℕ → S → Result (Unit {0}) × S
  pub exists_key : String → S → Result ℤ × S

-- The key function of GetClaimsFromRequest.
abbrev pub key_for : String → Bool → Result String
key_for secret true = ok secret
key_for secret false = err invalid_token

-- What GetClaimsFromRequest makes of the parsed token.
abbrev pub accepted_claims : Result Token → Result UserTokenClaims
accepted_claims (ok token) = if token.valid then ok token.claims else err invalid_token
accepted_claims (err e) = err invalid_token

-- time.Now().Add(24 * time.Hour)
abbrev pub add_seconds : ℕ → Time → Time
add_seconds n t = record t { secs = t.secs + n }

module _ {S : Type 0} (security : Security S) where
  -- GetClaimsFromRequest of the Authorization header.
  unfoldable pub get_claims_from_request : String → S → Result UserTokenClaims
  get_claims_from_request header s =
      let token_string = trim_prefix header "Bearer " in
      let parsed = security.parse_with_claims token_string (key_for (security.jwt_secret s)) s in
      if str_eq header ""
      then err empty_token
      else if str_eq token_string header
      then err invalid_token
      else accepted_claims parsed

  -- MakeJWT
  unfoldable pub make_jwt : ℤ → String → String → String → ℕ → S → Result String × S
  make_jwt user_id user_name email token_secret expires_in s =
      let (id, s1) = security.new_uuid s in
      let (issued_at, s2) = security.now s1 in
      let (started_at, s3) = security.now s2 in
      let claims : UserTokenClaims = record {
        user_id = user_id;
        name = user_name;
        email = email;
        id = id;
        issued_at = issued_at;
        expires_at = add_seconds expires_in started_at;
      } in
      (security.signed_string claims token_secret, s3)

  abbrev pub secret_or_default : String → String
  secret_or_default secret = if str_eq secret "" then "default_secret" else secret

  abbrev pub login_response : Result String × S → Result UserLoginResponse × S
  login_response (ok token, s) = (ok (record { message = "Login Success!"; token = token }), s)
  login_response (err e, s) = (err e, s)

  -- Login once the user is found, by the check of the password.
  abbrev pub login_checked : Result (Unit {0}) → User → S → Result UserLoginResponse × S
  login_checked (ok done) user s =
      login_response
        (make_jwt user.id user.name user.email (secret_or_default (security.jwt_secret s)) 86400 s)
  login_checked (err e) user s = (err wrong_password, s)

  -- CheckPasswordHash
  abbrev pub check_password_hash : String → String → Result (Unit {0})
  check_password_hash password hash = security.compare_hash_and_password hash password

  abbrev pub login_found : String → Result User → S → Result UserLoginResponse × S
  login_found password (ok user) s =
      login_checked (check_password_hash password user.hashed_pass) user s
  login_found password (err e) s = (err user_not_found, s)

  -- UserService.Login
  unfoldable pub login : UserQueries S → UserLoginRequest → S → Result UserLoginResponse × S
  login queries req s =
      let (found, s1) = queries.get_user_by_email req.email s in login_found req.password found s1

  abbrev pub signup_created : Result User × S → Result UserSignupResponse × S
  signup_created (ok user, s) = (
    ok (record { message = "Signup Success!"; id = user.id; name = user.name; email = user.email }),
    s,
  )
  signup_created (err e, s) = (err e, s)

  abbrev pub signup_hashed :
      UserQueries S → UserSignupRequest → Result String → S → Result UserSignupResponse × S
  signup_hashed queries req (ok hashed) s =
      signup_created (
        queries.create_user (record { name = req.name; email = req.email; hashed_pass = hashed }) s)
  signup_hashed queries req (err e) s = (err e, s)

  -- HashPassword, with the cost 10.
  abbrev pub hash_password : String → S → Result String × S
  hash_password password s = security.generate_from_password password s

  -- UserService.Signup
  unfoldable pub signup : UserQueries S → UserSignupRequest → S → Result UserSignupResponse × S
  signup queries req s =
      let (hashed, s1) = hash_password req.password s in signup_hashed queries req hashed s1

  abbrev pub blacklist_key : UserTokenClaims → String
  blacklist_key claims = str_append "blacklist:" claims.id

  abbrev pub logout_stored : Result (Unit {0}) × S → Result (Unit {0}) × S
  logout_stored (ok done, s) = (ok tt, s)
  logout_stored (err e, s) = (err logout_failed, s)

  -- UserService.Logout; the difference of the times is taken where it is not negative.
  unfoldable pub logout : UserTokenClaims → S → Result (Unit {0}) × S
  logout claims s =
      let (now, s1) = security.now s in
      let stored =
        logout_stored
          (security.set_key (blacklist_key claims) (claims.expires_at.secs - now.secs) s1) in
      if ltb claims.expires_at.secs now.secs then (ok tt, s1) else stored

  abbrev pub admit_known : UserTokenClaims → Result ℤ × S → Result UserTokenClaims × S
  admit_known claims (ok found, s) =
      (if eqb_ℤ found (pos 1) then err expired_token else ok claims, s)
  admit_known claims (err e, s) = (err auth_service_unavailable, s)

  abbrev pub admit_claims : Result UserTokenClaims → S → Result UserTokenClaims × S
  admit_claims (ok claims) s = admit_known claims (security.exists_key (blacklist_key claims) s)
  admit_claims (err e) s = (err invalid_token, s)

  -- AuthMiddleware: the claims with which the request goes on, or the error of the response.
  unfoldable pub authenticate : String → S → Result UserTokenClaims × S
  authenticate header s = admit_claims (get_claims_from_request header s) s
