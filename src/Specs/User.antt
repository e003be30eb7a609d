-- ===== src/Specs/User.antt =====
-- internal/pkg/specs/user.go: the requests of users, their validation, and the responses.
pub mod Validation
use Prim.Native.String.{len}
use fraud_detection_lite.Prelude.{String, Bool, ◌&&◌, not, ltb, str_eq}
use fraud_detection_lite.Prelude.Int.{ℤ}
use fraud_detection_lite.Time.{Time}
use fraud_detection_lite.Specs.Error.{
  Result, ok, ◌>>◌, refuse_if, invalid_body, missing_email_in_request, missing_name_in_request,
  missing_password_in_request, invalid_email,
}

pub record UserSignupRequest : Type 0 where
  pub name : String
  pub email : String
  pub password : String

pub record UserSignupResponse : Type 0 where
  pub message : String
  pub id : ℤ
  pub name : String
  pub email : String

pub record UserLoginRequest : Type 0 where
  pub email : String
  pub password : String

pub record UserLoginResponse : Type 0 where
  pub message : String
  pub token : String

-- With the registered claims that the program sets.
pub record UserTokenClaims : Type 0 where
  pub user_id : ℤ
  pub name : String
  pub email : String
  pub id : String
  pub issued_at : Time
  pub expires_at : Time

-- UserSignupRequest.Validate with the matching of EmailRegex; `len` counts the bytes of a string, as in Go.
unfoldable pub validate_signup : (String → Bool) → UserSignupRequest → Result (Unit {0})
validate_signup matches_email r = do
  refuse_if (str_eq r.email "" && str_eq r.name "" && str_eq r.password "") invalid_body
  refuse_if (str_eq r.email "") missing_email_in_request
  refuse_if (str_eq r.name "") missing_name_in_request
  refuse_if (str_eq r.password "") missing_password_in_request
  refuse_if (not (matches_email r.email)) invalid_email
  refuse_if (ltb (len r.password) 8) invalid_body
  ok tt

-- UserLoginRequest.Validate
unfoldable pub validate_login : (String → Bool) → UserLoginRequest → Result (Unit {0})
validate_login matches_email r = do
  refuse_if (str_eq r.email "" && str_eq r.password "") invalid_body
  refuse_if (str_eq r.email "") missing_email_in_request
  refuse_if (str_eq r.password "") missing_password_in_request
  refuse_if (not (matches_email r.email)) invalid_email
  ok tt
