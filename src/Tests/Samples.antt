-- ===== src/Tests/Samples.antt =====
-- The profiles, requests and the small world of the tests.
use fraud_detection_lite.Prelude.{
  ℕ, ◌*◌, ap, sym, ◌∙◌, refl, true, false, arith, String, List, [], ◌∷◌, ◌++◌, str_eq,
  if◌then◌else◌,
}
use fraud_detection_lite.Prelude.Int.{pos}
use fraud_detection_lite.Float.Ops.{is_finite}
use fraud_detection_lite.Float.Literals.{lit_mono, lt-lit, from_ℤ-finite, from_ℤ-pos}
use fraud_detection_lite.Constants.{lit}
use fraud_detection_lite.Time.{Time}
use fraud_detection_lite.Repository.Models.{UserProfileBehavior, Timestamp}
use fraud_detection_lite.Repository.Queries.{
  Queries, GetUserProfileByUserIdRow, CreateTransactionParams, CreateTransactionRow,
}
use fraud_detection_lite.Specs.Error.{Result, ok, err, other}
use fraud_detection_lite.Specs.Txn.{CreateTransactionRequest, CreateBulkTransactionRequest}
use fraud_detection_lite.Risk.Amount.{HasSaneAmounts}
use fraud_detection_lite.Risk.Overflow.{amd64}
use fraud_detection_lite.Service.Environment.{Environment, Upload}
use fraud_detection_lite.Service.Transaction.{domain_profile}
use fraud_detection_lite.Service.Ledger.{Log, Ledger}

abbrev pub at_hour : ℕ → Timestamp
at_hour h = record { time = record { secs = h * 3600; zone = 0 }; valid = true }

-- A user with the given counts, who pays by UPI from nine to eighteen o'clock.
abbrev pub user_row : ℕ → ℕ → GetUserProfileByUserIdRow
user_row total allowed = record {
  user_id = pos 7;
  average_transaction_amount = record { float64 = lit 1000; valid = true };
  std_dev_transaction_amount = record { int32 = pos 200; valid = true };
  max_transaction_amount_seen = record { float64 = lit 5000; valid = true };
  average_number_of_transactions_per_day = record { int32 = pos 2; valid = true };
  registered_payment_modes = "UPI" ∷ [];
  usual_transaction_start_hour = at_hour 9;
  usual_transaction_end_hour = at_hour 18;
  total_transactions = pos total;
  allowed_transactions = pos allowed;
  updated_at = at_hour 0;
}

abbrev pub user_profile : ℕ → ℕ → UserProfileBehavior
user_profile total allowed = domain_profile (user_row total allowed)

pub user_profile-HasSaneAmounts : (total allowed : ℕ) → HasSaneAmounts (user_profile total allowed)
unfolding domain_profile
user_profile-HasSaneAmounts total allowed = record {
  average_finite = ap is_finite (sym (from_ℤ-pos 1000)) ∙ from_ℤ-finite (pos 1000) (omega arith);
  maximum_nonneg = lit_mono (omega arith);
  maximum_fits = lt-lit 5000 2147483648 (omega arith) (omega arith);
  deviation_fits = omega arith;
}

abbrev pub seasoned : UserProfileBehavior
seasoned = user_profile 40 36

abbrev pub night : Time
night = record { secs = 3 * 3600; zone = 0 }

abbrev pub noon : Time
noon = record { secs = 12 * 3600; zone = 0 }

abbrev pub request : CreateTransactionRequest
request = record { amount = lit 9000; mode = "CARD" }

abbrev pub bulk_request : CreateBulkTransactionRequest
bulk_request = record { amount = lit 9000; mode = "CARD"; created_at = night }

-- A clock that stands at noon, and a parser that reads one amount.
abbrev pub world : Environment Log
world = record {
  now = λ s. (noon, s);
  platform = amd64;
  parse_float = λ t. if str_eq t "9000" then ok (lit 9000) else err (other "invalid syntax");
  parse_rfc3339 = λ t. err (other "no time");
  format_time = λ t. "20260101120000";
  to_lower = λ t. t;
  to_upper = λ t. t;
  trim_space = λ t. t;
}

abbrev pub stored_row : CreateTransactionParams → CreateTransactionRow
stored_row p = record {
  id = pos 1;
  user_id = p.user_id;
  amount = p.amount;
  mode = p.mode;
  risk_score = p.risk_score;
  triggered_factors = p.column5;
  decision = p.decision;
  created_at = p.created_at;
  updated_at = p.created_at;
}

-- A database of inserted rows; it knows one profile, or none.
abbrev pub database : Result GetUserProfileByUserIdRow → Queries Log
database found = record {
  get_user_profile_by_user_id = λ u s. (found, s);
  count_recent_transactions = λ c s. (ok (pos 4), s);
  create_transaction = λ p s. (ok (stored_row p), s ++ p ∷ []);
  recalculate_user_profile = λ u s. (ok tt, s);
}

abbrev pub known : Queries Log
known = database (ok (user_row 40 36))

abbrev pub unread : Queries Log
unread = database (err (other "connection refused"))

abbrev pub known_ledger : Ledger world known
known_ledger = record {
  log = λ s. s;
  now_keeps = λ s. refl;
  profile_keeps = λ u s. refl;
  count_keeps = λ c s. refl;
  recalculate_keeps = λ u s. refl;
  create_logs = λ p s. refl;
}

abbrev pub unread_ledger : Ledger world unread
unread_ledger = record {
  log = λ s. s;
  now_keeps = λ s. refl;
  profile_keeps = λ u s. refl;
  count_keeps = λ c s. refl;
  recalculate_keeps = λ u s. refl;
  create_logs = λ p s. refl;
}

-- Two rows that count, one with a bad amount, one too short and one that cannot be read.
abbrev pub rows : List (Result (List String))
rows =
    ok ("9000" ∷ "UPI" ∷ "yesterday" ∷ [])
    ∷ ok ("9000" ∷ "CARD" ∷ "" ∷ "more" ∷ [])
    ∷ ok ("nine" ∷ "CARD" ∷ "" ∷ [])
    ∷ ok ("9000" ∷ [])
    ∷ err (other "bare quote")
    ∷ []

abbrev pub truncated_file : Upload
truncated_file = record {
  excel_opens = false;
  excel_rows_open = false;
  excel_headers = err (other "no sheet");
  excel_rows = [];
  csv_headers = ok ("amount" ∷ "mode" ∷ []);
  csv_rows = rows;
}
