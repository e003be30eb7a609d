-- ===== src/Api/Keeps/Users.antt =====
-- What the handlers of users do to the state.
use fraud_detection_lite.Specs.Error.{Result, ok, err}
use fraud_detection_lite.Specs.User.{
  UserSignupRequest, UserSignupResponse, UserLoginRequest, UserLoginResponse, UserTokenClaims,
  validate_signup, validate_login,
}
use fraud_detection_lite.Service.Session.{Security, get_claims_from_request}
use fraud_detection_lite.Api.Http.{Request, Codec, Writer}
use fraud_detection_lite.Api.Users.{
  UserServiceInterface, decode_user_signup_request, decode_user_login_request, complain_unless_post,
  signup_answer, signup_validated, signup_decoded, handle_signup, login_answer, login_validated,
  login_decoded, handle_login, logout_answer, logout_claimed, handle_logout,
}
use fraud_detection_lite.Api.Keeps.{KeepsUsers}

module _ {ℓ} {S : Type 0} (Inv : S → Type ℓ) (codec : Codec) (security : Security S)
    (users : UserServiceInterface S) (keeps : KeepsUsers Inv users) where
  signup_answer-keeps :
      (made : Result UserSignupResponse × S) (w : Writer)
      → Inv made.1
      → Inv (signup_answer codec security users made w).1
  signup_answer-keeps (ok res, s) w h = h
  signup_answer-keeps (err e, s) w h = h

  signup_validated-keeps :
      (valid : Result (Unit {0})) (req : UserSignupRequest) (w : Writer) (s : S)
      → Inv s
      → Inv (signup_validated codec security users valid req w s).1
  signup_validated-keeps (ok u) req w s h =
      signup_answer-keeps (users.signup req s) w (keeps.signup req s h)
  signup_validated-keeps (err e) req w s h = h

  signup_decoded-keeps :
      (decoded : Result UserSignupRequest) (w : Writer) (s : S)
      → Inv s
      → Inv (signup_decoded codec security users decoded w s).1
  signup_decoded-keeps (ok req) w s h =
      signup_validated-keeps (validate_signup codec.matches_email req) req w s h
  signup_decoded-keeps (err e) w s h = h

  login_answer-keeps :
      (made : Result UserLoginResponse × S) (w : Writer)
      → Inv made.1
      → Inv (login_answer codec security users made w).1
  login_answer-keeps (ok res, s) w h = h
  login_answer-keeps (err e, s) w h = h

  login_validated-keeps :
      (valid : Result (Unit {0})) (req : UserLoginRequest) (w : Writer) (s : S)
      → Inv s
      → Inv (login_validated codec security users valid req w s).1
  login_validated-keeps (ok u) req w s h =
      login_answer-keeps (users.login req s) w (keeps.login req s h)
  login_validated-keeps (err e) req w s h = h

  login_decoded-keeps :
      (decoded : Result UserLoginRequest) (w : Writer) (s : S)
      → Inv s
      → Inv (login_decoded codec security users decoded w s).1
  login_decoded-keeps (ok req) w s h =
      login_validated-keeps (validate_login codec.matches_email req) req w s h
  login_decoded-keeps (err e) w s h = h

  logout_answer-keeps :
      (made : Result (Unit {0}) × S) (w : Writer)
      → Inv made.1
      → Inv (logout_answer codec security users made w).1
  logout_answer-keeps (ok u, s) w h = h
  logout_answer-keeps (err e, s) w h = h

  logout_claimed-keeps :
      (claimed : Result UserTokenClaims) (w : Writer) (s : S)
      → Inv s
      → Inv (logout_claimed codec security users claimed w s).1
  logout_claimed-keeps (ok claims) w s h =
      logout_answer-keeps (users.logout claims s) w (keeps.logout claims s h)
  logout_claimed-keeps (err e) w s h = h

  pub handle_signup-keeps :
      (r : Request) (w : Writer) (s : S) → Inv s → Inv (handle_signup codec security users r w s).1
  unfolding handle_signup
  handle_signup-keeps r w s h =
      signup_decoded-keeps (decode_user_signup_request codec r)
        (complain_unless_post codec security users r w) s h

  pub handle_login-keeps :
      (r : Request) (w : Writer) (s : S) → Inv s → Inv (handle_login codec security users r w s).1
  unfolding handle_login
  handle_login-keeps r w s h =
      login_decoded-keeps (decode_user_login_request codec r)
        (complain_unless_post codec security users r w) s h

  pub handle_logout-keeps :
      (r : Request) (w : Writer) (s : S) → Inv s → Inv (handle_logout codec security users r w s).1
  unfolding handle_logout
  handle_logout-keeps r w s h =
      logout_claimed-keeps (get_claims_from_request security r.authorization s) w s h
