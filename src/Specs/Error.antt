-- ===== src/Specs/Error.antt =====
-- internal/pkg/errors/errors.go: the error values.
use fraud_detection_lite.Prelude.{String, Bool, true, false, ◌≡◌, ◌⊎◌, refl, inl, inr}

-- The package's variables, and `other` for an error that comes from a library, with its message.
pub data Error : Type 0 where
  missing_name_in_request missing_email_in_request missing_password_in_request : Error
  missing_amount_in_request missing_mode_in_request missing_file_in_request : Error
  amount_out_of_range invalid_payment_mode method_not_allowed invalid_body invalid_email : Error
  user_not_found wrong_password generate_token empty_token invalid_token expired_token : Error
  logout_failed auth_service_unavailable auth_internal_service internal_service txn_blocked : Error
  db_error not_found connection_failed background_job_failed : Error
  failure_in_parsing_excel failure_in_parsing_csv unexpected_headers_in_file : Error
  other : String → Error

-- Error()
unfoldable pub message : Error → String
message missing_name_in_request = "missing name in request body"
message missing_email_in_request = "missing email in request body"
message missing_password_in_request = "missing password in request body"
message missing_amount_in_request = "missing amount in request body"
message missing_mode_in_request = "missing mode in request body"
message missing_file_in_request = "missing file in request body"
message amount_out_of_range = "amount should be in range 1 to 10^13"
message invalid_payment_mode = "invalid mode to make transaction"
message method_not_allowed = "method not allowed"
message invalid_body = "invalid request body"
message invalid_email = "invalid email formatting"
message user_not_found = "user with given parameter not found"
message wrong_password = "password is incorrect"
message generate_token = "unable to generate token"
message empty_token = "empty token"
message invalid_token = "invalid token"
message expired_token = "expired token"
message logout_failed = "token blacklisting failed"
message auth_service_unavailable = "redis down for authentication"
message auth_internal_service = "error in auth package"
message internal_service = "in-built function returning error"
message txn_blocked = "invalid traansaction blocked"
message db_error = "error in operations on db"
message not_found = "Set not found in Redis Server"
message failure_in_parsing_excel = "failure in parsing excel file"
message failure_in_parsing_csv = "failure in parsing csv file"
message unexpected_headers_in_file = "unexpected headers in file"
message connection_failed = "error connecting to database"
message background_job_failed = "error in profile updating job"
message (other text) = text

-- A Go result (T, error) of which the caller reads one part only.
pub data Result {ℓ} (A : Type ℓ) : Type ℓ where
  ok : A → Result A
  err : Error → Result A

-- `if c { return e }`
abbrev pub refuse_if : Bool → Error → Result (Unit {0})
refuse_if true e = err e
refuse_if false e = ok tt

infixl 5 ◌>>=◌
abbrev pub ◌>>=◌ {ℓ κ} : {A : Type ℓ} {C : Type κ} → Result A → (A → Result C) → Result C
err failure >>= next = err failure
ok value >>= next = next value

-- A check, and what follows if it passes.
infixl 5 ◌>>◌
abbrev pub ◌>>◌ {ℓ} : {C : Type ℓ} → Result (Unit {0}) → Result C → Result C
check >> next = check >>= λ passed. next

-- To split on a result and keep the equation.
pub Result-cases {ℓ} :
    {A : Type ℓ} (result : Result A)
    → ((value : A) × (result ≡ ok value)) ⊎ ((failure : Error) × (result ≡ err failure))
Result-cases (ok value) = inl (value, refl)
Result-cases (err failure) = inr (failure, refl)

-- The steps of a chain that succeeds.
pub >>=-ok {ℓ κ} :
    {A : Type ℓ} {C : Type κ} (first : Result A) (next : A → Result C) (c : C)
    → (first >>= next) ≡ ok c
    → (value : A) × (first ≡ ok value) × (next value ≡ ok c)
>>=-ok (ok value) next c h = (value, refl, h)
>>=-ok (err failure) next c h = cc
