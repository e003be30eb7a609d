-- ===== src/Service/Session/Keeps.antt =====
-- A predicate of the state that the user table, bcrypt, uuid, the clock and Redis keep is kept by the
-- user service.
use fraud_detection_lite.Prelude.{ℕ, Bool, true, false, ltb, String, if◌then◌else◌}
use fraud_detection_lite.Specs.Error.{Result, ok, err}
use fraud_detection_lite.Specs.User.{UserSignupRequest, UserLoginRequest, UserTokenClaims}
use fraud_detection_lite.Repository.Models.{User}
use fraud_detection_lite.Repository.Queries.{UserQueries, CreateUserParams}
use fraud_detection_lite.Service.Session.{
  Security, secret_or_default, make_jwt, login_response, login_checked, login_found, login,
  signup_created, signup_hashed, signup, logout_stored, logout,
}

pub record KeepsSession {ℓ} {S : Type 0} (Inv : S → Type ℓ) (security : Security S)
    (queries : UserQueries S) : Type ℓ where
  pub now : (s : S) → Inv s → Inv (security.now s).1
  pub new_uuid : (s : S) → Inv s → Inv (security.new_uuid s).1
  pub hash : (p : String) (s : S) → Inv s → Inv (security.generate_from_password p s).1
  pub set_key : (k : String) (n : ℕ) (s : S) → Inv s → Inv (security.set_key k n s).1
  pub create_user : (p : CreateUserParams) (s : S) → Inv s → Inv (queries.create_user p s).1
  pub by_email : (email : String) (s : S) → Inv s → Inv (queries.get_user_by_email email s).1

module _ {ℓ} {S : Type 0} (Inv : S → Type ℓ) (security : Security S) (queries : UserQueries S)
    (keeps : KeepsSession Inv security queries) where
  signup_created-keeps :
      (made : Result User × S) → Inv made.1 → Inv (signup_created security made).1
  signup_created-keeps (ok user, s) h = h
  signup_created-keeps (err e, s) h = h

  signup_hashed-keeps :
      (req : UserSignupRequest) (hashed : Result String) (s : S)
      → Inv s
      → Inv (signup_hashed security queries req hashed s).1
  signup_hashed-keeps req (ok hashed) s h = signup_created-keeps _ (keeps.create_user _ s h)
  signup_hashed-keeps req (err e) s h = h

  pub signup-keeps :
      (req : UserSignupRequest) (s : S) → Inv s → Inv (signup security queries req s).1
  unfolding signup
  signup-keeps req s h = signup_hashed-keeps req _ _ (keeps.hash req.password s h)

  login_response-keeps :
      (made : Result String × S) → Inv made.1 → Inv (login_response security made).1
  login_response-keeps (ok token, s) h = h
  login_response-keeps (err e, s) h = h

  login_checked-keeps :
      (checked : Result (Unit {0})) (user : User) (s : S)
      → Inv s
      → Inv (login_checked security checked user s).1
  unfolding make_jwt
  login_checked-keeps (ok done) user s h =
      login_response-keeps
        (make_jwt security user.id user.name user.email
          (secret_or_default security (security.jwt_secret s)) 86400 s)
        (keeps.now _ (keeps.now _ (keeps.new_uuid s h)))
  login_checked-keeps (err e) user s h = h

  login_found-keeps :
      (password : String) (found : Result User) (s : S)
      → Inv s
      → Inv (login_found security password found s).1
  login_found-keeps password (ok user) s h = login_checked-keeps _ user s h
  login_found-keeps password (err e) s h = h

  pub login-keeps : (req : UserLoginRequest) (s : S) → Inv s → Inv (login security queries req s).1
  unfolding login
  login-keeps req s h = login_found-keeps req.password _ _ (keeps.by_email req.email s h)

  logout_stored-keeps :
      (made : Result (Unit {0}) × S) → Inv made.1 → Inv (logout_stored security made).1
  logout_stored-keeps (ok done, s) h = h
  logout_stored-keeps (err e, s) h = h

  either_keeps :
      (b : Bool) (x y : Result (Unit {0}) × S) → Inv x.1 → Inv y.1 → Inv (if b then x else y).1
  either_keeps true x y h k = h
  either_keeps false x y h k = k

  pub logout-keeps : (claims : UserTokenClaims) (s : S) → Inv s → Inv (logout security claims s).1
  unfolding logout
  logout-keeps claims s h =
      let h1 = keeps.now s h in
      either_keeps (ltb claims.expires_at.secs (security.now s).0.secs) _ _ h1
        (logout_stored-keeps _ (keeps.set_key _ _ _ h1))
