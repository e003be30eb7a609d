-- ===== src/Tests/Worlds.antt =====
-- Small tables, a small engine, and small libraries around them.
use fraud_detection_lite.Prelude.{ℕ, refl, true, none, [], ◌∷◌, str_eq, String, if◌then◌else◌}
use fraud_detection_lite.Prelude.Int.{pos}
use fraud_detection_lite.Constants.{lit}
use fraud_detection_lite.Specs.Error.{ok, err, other}
use fraud_detection_lite.Specs.User.{UserTokenClaims}
use fraud_detection_lite.Repository.Models.{allow}
use fraud_detection_lite.Repository.Queries.{CreateTransactionParams, CreateUserParams}
use fraud_detection_lite.Risk.Overflow.{amd64}
use fraud_detection_lite.Service.Environment.{Environment}
use fraud_detection_lite.Service.Session.{Security}
use fraud_detection_lite.Api.Http.{Request, missing_file, Codec}
use fraud_detection_lite.Store.Tables.{World, Engine, largest}
use fraud_detection_lite.Store.Users.{create_user}
use fraud_detection_lite.Store.Transactions.{create_transaction}
use fraud_detection_lite.Store.Interfaces.{LeavesTables}
use fraud_detection_lite.System.{fresh_world}
use fraud_detection_lite.Tests.Samples.{noon, request, at_hour}

-- An engine whose average is the largest value, as it is for equal amounts, and which lists the rows
-- as they come.
abbrev pub engine : Engine
engine = record {
  average = λ xs. largest xs;
  deviation = λ xs. none;
  newest_first = λ ts. ts;
  wall = λ t. t.secs;
}

abbrev pub shop : Environment World
shop = record {
  now = λ w. (w.clock, w);
  platform = amd64;
  parse_float = λ t. ok (lit 9000);
  parse_rfc3339 = λ t. err (other "no time");
  format_time = λ t. "20260101120000";
  to_lower = λ t. t;
  to_upper = λ t. t;
  trim_space = λ t. t;
}

-- The claims of the first user.
abbrev pub bea_claims : UserTokenClaims
bea_claims = record {
  user_id = pos 1;
  name = "Bea";
  email = "bea@example.org";
  id = "token";
  issued_at = noon;
  expires_at = record { secs = 129_600; zone = 0 };
}

-- A library that knows one token.
abbrev pub guard : Security World
guard = record {
  generate_from_password = λ p w. (ok p, w);
  compare_hash_and_password = λ hash p. if str_eq hash p then ok tt else err (other "mismatch");
  new_uuid = λ w. ("token", w);
  now = λ w. (w.clock, w);
  jwt_secret = λ w. "key";
  signed_string = λ c key. ok "bea";
  parse_with_claims = λ text keys w.
      if str_eq text "bea"
      then ok (record { claims = bea_claims; valid = true })
      else err (other "malformed");
  set_key = λ key n w. (ok tt, record w { redis = key ∷ w.redis });
  exists_key = λ key w. (ok (pos 0), w);
}

pub shop-LeavesTables : LeavesTables shop guard
shop-LeavesTables = record {
  env_now = λ w. (w.redis, w.clock, refl);
  now = λ w. (w.redis, w.clock, refl);
  new_uuid = λ w. (w.redis, w.clock, refl);
  generate_from_password = λ p w. (w.redis, w.clock, refl);
  set_key = λ k n w. (k ∷ w.redis, w.clock, refl);
  exists_key = λ k w. (w.redis, w.clock, refl);
}

abbrev pub codec : Codec
codec = record {
  decode_signup =
      λ body. ok (record { name = "Bea"; email = "bea@example.org"; password = "p4ssw0rd!" });
  decode_login = λ body. ok (record { email = "bea@example.org"; password = "p4ssw0rd!" });
  decode_transaction = λ body. ok request;
  matches_email = λ text. true;
  atoi = λ text. err (other "invalid syntax");
  parse_int32 = λ text. ok (pos 1);
  trim_space = λ text. text;
  marshals = λ chunk. true;
  writes = λ chunk. true;
}

-- A request with the token of the first user, and one with none.
abbrev pub asks : String → String → Request
asks method header = record {
  method = method;
  path = [];
  query = λ name. "";
  authorization = header;
  context_user_id = none;
  body = "{}";
  form = missing_file;
}

abbrev pub empty : World
empty = fresh_world [] noon

abbrev pub bea : CreateUserParams
bea = record { name = "Bea"; email = "bea@example.org"; hashed_pass = "p4ssw0rd!" }

abbrev pub purchase : ℕ → CreateTransactionParams
purchase amount = record {
  user_id = pos 1;
  amount = lit amount;
  mode = "UPI";
  risk_score = pos 12;
  column5 = "AMOUNT_DEVIATION" ∷ [];
  decision = allow;
  amount_deviation_score = pos 40;
  frequency_deviation_score = pos 0;
  mode_deviation_score = pos 0;
  time_deviation_score = pos 0;
  created_at = at_hour 9;
}

-- The tables of one user without transactions, and with one.
abbrev pub joined : World
joined = (create_user bea empty).1

abbrev pub bought : ℕ → World
bought amount = (create_transaction (purchase amount) joined).1
