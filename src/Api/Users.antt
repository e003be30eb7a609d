-- ===== src/Api/Users.antt =====
-- internal/api/handler/user_login_handler.go, with the decoders of decoder.go that it uses.
use fraud_detection_lite.Prelude.{String, not, str_eq, if◌then◌else◌}
use fraud_detection_lite.Specs.Error.{
  Error, Result, ok, err, invalid_body, method_not_allowed, user_not_found, wrong_password,
}
use fraud_detection_lite.Specs.User.{
  UserSignupRequest, UserSignupResponse, UserLoginRequest, UserLoginResponse, UserTokenClaims,
  validate_signup, validate_login,
}
use fraud_detection_lite.Service.Session.{Security, get_claims_from_request}
use fraud_detection_lite.Api.Http.{
  Request, Codec, Writer, signed_up, logged_in, message, success_response, error_response,
}

-- userServiceInterface
pub record UserServiceInterface (S : Type 0) : Type 0 where
  pub signup : UserSignupRequest → S → Result UserSignupResponse × S
  pub login : UserLoginRequest → S → Result UserLoginResponse × S
  pub logout : UserTokenClaims → S → Result (Unit {0}) × S

abbrev pub trim_signup : (String → String) → Result UserSignupRequest → Result UserSignupRequest
trim_signup trim (ok req) = ok (record req { name = trim req.name; email = trim req.email })
trim_signup trim (err e) = err invalid_body

-- decodeUserSignupRequest
unfoldable pub decode_user_signup_request : Codec → Request → Result UserSignupRequest
decode_user_signup_request codec r = trim_signup codec.trim_space (codec.decode_signup r.body)

abbrev pub trim_login : (String → String) → Result UserLoginRequest → Result UserLoginRequest
trim_login trim (ok req) = ok (record req { email = trim req.email })
trim_login trim (err e) = err e

-- decodeUserLoginRequest
unfoldable pub decode_user_login_request : Codec → Request → Result UserLoginRequest
decode_user_login_request codec r = trim_login codec.trim_space (codec.decode_login r.body)

module _ {S : Type 0} (codec : Codec) (security : Security S)
    (service : UserServiceInterface S) where
  -- The test of the method in Signup and Login: it writes an error, and goes on.
  abbrev pub complain_unless_post : Request → Writer → Writer
  complain_unless_post r w =
      if not (str_eq r.method "POST") then error_response codec 405 method_not_allowed w else w

  abbrev pub signup_answer : Result UserSignupResponse × S → Writer → Writer × S
  signup_answer (ok res, s) w = (success_response codec 201 (signed_up res) w, s)
  signup_answer (err e, s) w = (error_response codec 500 e w, s)

  abbrev pub signup_validated : Result (Unit {0}) → UserSignupRequest → Writer → S → Writer × S
  signup_validated (ok u) req w s = signup_answer (service.signup req s) w
  signup_validated (err e) req w s = (error_response codec 400 e w, s)

  abbrev pub signup_decoded : Result UserSignupRequest → Writer → S → Writer × S
  signup_decoded (ok req) w s = signup_validated (validate_signup codec.matches_email req) req w s
  signup_decoded (err e) w s = (error_response codec 400 e w, s)

  -- Signup
  unfoldable pub handle_signup : Request → Writer → S → Writer × S
  handle_signup r w s =
      signup_decoded (decode_user_signup_request codec r) (complain_unless_post r w) s

  -- The status of an error of Login.
  abbrev pub login_error : Error → Writer → Writer
  login_error user_not_found w = error_response codec 404 user_not_found w
  login_error wrong_password w = error_response codec 401 wrong_password w
  login_error e w = error_response codec 500 e w

  abbrev pub login_answer : Result UserLoginResponse × S → Writer → Writer × S
  login_answer (ok res, s) w = (success_response codec 200 (logged_in res) w, s)
  login_answer (err e, s) w = (login_error e w, s)

  abbrev pub login_validated : Result (Unit {0}) → UserLoginRequest → Writer → S → Writer × S
  login_validated (ok u) req w s = login_answer (service.login req s) w
  login_validated (err e) req w s = (error_response codec 400 e w, s)

  abbrev pub login_decoded : Result UserLoginRequest → Writer → S → Writer × S
  login_decoded (ok req) w s = login_validated (validate_login codec.matches_email req) req w s
  login_decoded (err e) w s = (error_response codec 400 e w, s)

  -- Login
  unfoldable pub handle_login : Request → Writer → S → Writer × S
  handle_login r w s =
      login_decoded (decode_user_login_request codec r) (complain_unless_post r w) s

  abbrev pub logout_answer : Result (Unit {0}) × S → Writer → Writer × S
  logout_answer (ok u, s) w = (success_response codec 200 (message "Logged out successfully") w, s)
  logout_answer (err e, s) w = (error_response codec 500 e w, s)

  abbrev pub logout_claimed : Result UserTokenClaims → Writer → S → Writer × S
  logout_claimed (ok claims) w s = logout_answer (service.logout claims s) w
  logout_claimed (err e) w s = (error_response codec 401 e w, s)

  -- Logout
  unfoldable pub handle_logout : Request → Writer → S → Writer × S
  handle_logout r w s = logout_claimed (get_claims_from_request security r.authorization s) w s
