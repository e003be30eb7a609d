-- ===== src/Tests/Sessions.antt =====
-- Sessions, with a small token library.
use Prim.Native.String.{String, len}
use fraud_detection_lite.Prelude.{
  ℕ, ◌≡◌, ◌≢◌, ◌∙◌, refl, sym, ap, Bool, Bool-cases, inl, inr, true, false, not, ◌&&◌, ltb, arith,
  List, [], ◌∷◌, str_eq, str_eq_iff, if◌then◌else◌,
}
use fraud_detection_lite.Prelude.Text.{trim_prefix}
use fraud_detection_lite.Prelude.Int.{ℤ, pos, eqb_ℤ}
use fraud_detection_lite.Time.{Time}
use fraud_detection_lite.Specs.Error.{Result, ok, err, other, invalid_token, expired_token}
use fraud_detection_lite.Specs.User.{
  UserSignupRequest, UserLoginRequest, UserLoginResponse, UserTokenClaims, validate_signup,
}
use fraud_detection_lite.Specs.User.Validation.{validate_signup-accepts}
use fraud_detection_lite.Specs.Txn.Validation.{is_ok}
use fraud_detection_lite.Repository.Models.{User}
use fraud_detection_lite.Repository.Queries.{UserQueries}
use fraud_detection_lite.Service.Session.{
  Token, Security, login, logout, make_jwt, get_claims_from_request, authenticate,
}
use fraud_detection_lite.Service.Session.Tokens.{
  HasTokens, KeepsKeys, bearer, claims_for, login_accepted, login_unset_secret, logout_revokes,
}
use fraud_detection_lite.Tests.Samples.{at_hour}

abbrev morning : Time
morning = record { secs = 100_000; zone = 0 }

abbrev ann : User
ann = record {
  id = pos 7;
  name = "Ann";
  email = "ann@example.org";
  hashed_pass = "secretly";
  created_at = at_hour 1;
  updated_at = at_hour 1;
}

-- The claims of Ann's token, the only ones that the small library signs.
abbrev ann_claims : UserTokenClaims
ann_claims = record {
  user_id = pos 7;
  name = "Ann";
  email = "ann@example.org";
  id = "token";
  issued_at = morning;
  expires_at = record { secs = 186_400; zone = 0 };
}

abbrev eqb : ℕ → ℕ → Bool
eqb m n = eqb_ℤ (pos m) (pos n)

abbrev is_ann : UserTokenClaims → Bool
is_ann c =
    eqb_ℤ c.user_id (pos 7)
    && str_eq c.name "Ann"
    && str_eq c.email "ann@example.org"
    && str_eq c.id "token"
    && eqb c.issued_at.secs 100_000
    && eqb c.issued_at.zone 0
    && eqb c.expires_at.secs 186_400
    && eqb c.expires_at.zone 0

is_ann_lem : (c : UserTokenClaims) → is_ann c ≡ true → c ≡ ann_claims
is_ann_lem c h =
    ground (
      arith,
      str_eq_iff c.name "Ann",
      str_eq_iff c.email "ann@example.org",
      str_eq_iff c.id "token",
    )

abbrev read_token : String → Result String → Result Token
read_token text (ok key) =
    if str_eq text key
    then ok (record { claims = ann_claims; valid = true })
    else err (other "signature is invalid")
read_token text (err e) = err e

abbrev seen : String → List String → ℤ
seen key [] = pos 0
seen key (k ∷ ks) = let n = seen key ks in if str_eq k key then pos 1 else n

-- A token is its key; the state is the list of the keys that Redis holds.
abbrev small : String → Security (List String)
small secret = record {
  generate_from_password = λ p s. (ok p, s);
  compare_hash_and_password = λ hash p. if str_eq hash p then ok tt else err (other "mismatch");
  new_uuid = λ s. ("token", s);
  now = λ s. (morning, s);
  jwt_secret = λ s. secret;
  signed_string = λ c key. if is_ann c then ok key else err (other "not signed");
  parse_with_claims = λ text keys s. read_token text (keys true);
  set_key = λ key n s. (ok tt, key ∷ s);
  exists_key = λ key s. (ok (seen key s), s);
}

signs :
    (c : UserTokenClaims) (key text : String) (secret : String)
    → (small secret).signed_string c key ≡ ok text
    → (c ≡ ann_claims) × (text ≡ key)
signs c key text secret h = elim (Bool-cases (is_ann c)) [
  | inl hers ↦ (
    is_ann_lem c hers,
    ap text_of (sym h ∙ ap (λ b. if b then ok key else err (other "not signed")) hers),
  )
  | inr foreign ↦
      absurd (failed (sym (ap (λ b. if b then ok key else err (other "not signed")) foreign) ∙ h))
]
  where
    text_of : Result String → String
    text_of (ok t) = t
    text_of (err e) = text

    failed : err (other "not signed") ≡ ok text → ⊥
    failed e = cc

differs : (text key k : String) → text ≡ key → k ≢ key → str_eq text k ≡ false
differs text key k e ne = elim (Bool-cases (str_eq text k)) [
  | inl same ↦ absurd (ne (sym ((str_eq_iff text k).0 same) ∙ e))
  | inr apart ↦ apart
]

abbrev small-HasTokens : (secret : String) → HasTokens (small secret) secret
small-HasTokens secret = record {
  clock = λ s. morning;
  expired = other "expired";
  other_key = other "signature is invalid";
  same_secret = λ s. refl;
  parses = λ c key text s h.
      let (who, what) = signs c key text secret h in
      ap
        (λ t.
          if t
          then ok (record { claims = ann_claims; valid = true })
          else err (other "signature is invalid"))
        ((str_eq_iff text key).1 what)
      ∙ sym (
          ap
            (λ (d : UserTokenClaims).
              if ltb 100_000 d.expires_at.secs
              then ok (record { claims = d; valid = true })
              else err (other "expired"))
            who);
  refuses = λ c key k text s h ne.
      let (who, what) = signs c key text secret h in
      ap
        (λ t.
          if t
          then ok (record { claims = ann_claims; valid = true })
          else err (other "signature is invalid"))
        (differs text key k what ne);
}

small-KeepsKeys : (secret : String) → KeepsKeys (small secret)
small-KeepsKeys secret = record {
  set_exists =
      λ key n s h. ap (λ b. ok (if b then pos 1 else seen key s)) ((str_eq_iff key key).1 refl);
}

abbrev users : UserQueries (List String)
users = record { create_user = λ p s. (ok ann, s); get_user_by_email = λ email s. (ok ann, s) }

abbrev credentials : UserLoginRequest
credentials = record { email = "ann@example.org"; password = "secretly" }

abbrev welcome : String → UserLoginResponse
welcome token = record { message = "Login Success!"; token = token }

logs_in : login (small "s3cret") users credentials [] ≡ (ok (welcome "s3cret"), [])
unfolding login make_jwt
logs_in = refl

logs_in_by_default : login (small "") users credentials [] ≡ (ok (welcome "default_secret"), [])
unfolding login make_jwt
logs_in_by_default = refl

login_accepted_example :
    (user : User) × (ok ann ≡ ok user)
    × (get_claims_from_request (small "s3cret") (bearer "s3cret") [] ≡ (
        if ltb 100_000 186_400
        then ok (claims_for (small "s3cret") user [])
        else err invalid_token))
login_accepted_example =
    login_accepted (small "s3cret") users "s3cret" (small-HasTokens "s3cret") credentials [] []
      (welcome "s3cret") logs_in refl []

login_unset_secret_example :
    get_claims_from_request (small "") (bearer "default_secret") [] ≡ err invalid_token
login_unset_secret_example =
    login_unset_secret (small "") users "" (small-HasTokens "") credentials [] []
      (welcome "default_secret") logs_in_by_default refl []

logs_out : logout (small "s3cret") ann_claims [] ≡ (ok tt, "blacklist:token" ∷ [])
unfolding logout
logs_out = refl

knows_ann :
    get_claims_from_request (small "s3cret") (bearer "s3cret") ("blacklist:token" ∷ [])
    ≡ ok ann_claims
unfolding get_claims_from_request trim_prefix
knows_ann = refl

logout_revokes_example :
    (authenticate (small "s3cret") (bearer "s3cret") ("blacklist:token" ∷ [])).0 ≡ err expired_token
logout_revokes_example =
    logout_revokes (small "s3cret") (small-KeepsKeys "s3cret") ann_claims []
      ("blacklist:token" ∷ []) (bearer "s3cret") refl logs_out knows_ann

abbrev sign_up : UserSignupRequest
sign_up = record { name = "Ann"; email = "ann@example.org"; password = "secretly" }

validate_signup-accepts_example : is_ok (validate_signup (λ e. true) sign_up) ≡ (
    not (str_eq sign_up.email "")
    && not (str_eq sign_up.name "")
    && not (str_eq sign_up.password "")
    && not (not true)
    && not (ltb (len sign_up.password) 8))
validate_signup-accepts_example = validate_signup-accepts (λ e. true) sign_up
