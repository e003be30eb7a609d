-- ===== src/Specs/User/Validation.antt =====
-- What UserSignupRequest.Validate accepts.
use Prim.Native.String.{String, len}
use fraud_detection_lite.Prelude.{◌≡◌, refl, Bool, true, false, not, ◌&&◌, ltb, str_eq}
use fraud_detection_lite.Specs.Error.{
  ok, ◌>>◌, refuse_if, invalid_body, missing_email_in_request, missing_name_in_request,
  missing_password_in_request, invalid_email,
}
use fraud_detection_lite.Specs.Txn.Validation.{is_ok}
use fraud_detection_lite.Specs.User.{UserSignupRequest, validate_signup}

signup_chain :
    (email name password foreign short : Bool)
    → is_ok (
        refuse_if (email && name && password) invalid_body
        >> (refuse_if email missing_email_in_request
            >> (refuse_if name missing_name_in_request
                >> (refuse_if password missing_password_in_request
                    >> (refuse_if foreign invalid_email
                        >> (refuse_if short invalid_body >> ok tt))))))
      ≡ (not email && not name && not password && not foreign && not short)
signup_chain true true true foreign short = refl
signup_chain true true false foreign short = refl
signup_chain true false password foreign short = refl
signup_chain false true password foreign short = refl
signup_chain false false true foreign short = refl
signup_chain false false false true short = refl
signup_chain false false false false true = refl
signup_chain false false false false false = refl

-- A sign-up is accepted exactly if the e-mail address, the name and the password are not empty, the
-- address matches the pattern, and the password has at least eight bytes.
pub validate_signup-accepts :
    (matches_email : String → Bool) (r : UserSignupRequest)
    → is_ok (validate_signup matches_email r) ≡ (
        not (str_eq r.email "")
        && not (str_eq r.name "")
        && not (str_eq r.password "")
        && not (not (matches_email r.email))
        && not (ltb (len r.password) 8))
unfolding validate_signup
validate_signup-accepts matches_email r =
    signup_chain (str_eq r.email "") (str_eq r.name "") (str_eq r.password "")
      (not (matches_email r.email)) (ltb (len r.password) 8)
