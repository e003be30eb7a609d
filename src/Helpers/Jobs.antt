-- ===== src/Helpers/Jobs.antt =====
-- internal/pkg/helpers/job_helper.go and type-changers.go.
use fraud_detection_lite.Prelude.{
  ℕ, suc, String, List, [], ◌∷◌, ◌++◌, Option, some, none, if◌then◌else◌, true,
}
use fraud_detection_lite.Prelude.Int.{ℤ, pos}
use fraud_detection_lite.Float.Ops.{Float64, le}
use fraud_detection_lite.Constants.{lit}
use fraud_detection_lite.Time.{Time}
use fraud_detection_lite.Specs.Error.{Error, Result, ok, err, invalid_body}
use fraud_detection_lite.Specs.Txn.{CreateBulkTransactionRequest}
use fraud_detection_lite.Repository.Models.{Mode, UserProfileBehavior}
use fraud_detection_lite.Repository.Queries.{GetUserProfileByUserIdRow}
use fraud_detection_lite.Service.Environment.{Environment}
use fraud_detection_lite.Service.Transaction.{null_int, null_timestamp}

-- The loops that append the elements to a slice; Mode and TriggerFactors are strings.
unfoldable pub append_strings : List String → List String → List String
append_strings copied [] = copied
append_strings copied (s ∷ rest) = append_strings (copied ++ s ∷ []) rest

-- GetStringSliceFromModeSlice
unfoldable pub get_string_slice_from_mode_slice : List Mode → List String
unfolding append_strings
get_string_slice_from_mode_slice modes = append_strings [] modes

-- GetModeSliceFromStringSlice
unfoldable pub get_mode_slice_from_string_slice : List String → List Mode
unfolding append_strings
get_mode_slice_from_string_slice string_modes = append_strings [] string_modes

-- GetStringSliceFromTriggerFactorsSlice
unfoldable pub get_string_slice_from_trigger_factors_slice : List String → List String
unfolding append_strings
get_string_slice_from_trigger_factors_slice factors = append_strings [] factors

-- NewEmptyUserProfile
unfoldable pub new_empty_user_profile : ℤ → UserProfileBehavior
new_empty_user_profile user_id = record {
  user_id = user_id;
  average_transaction_amount = record { float64 = lit 0; valid = true };
  max_transaction_amount_seen = record { float64 = lit 0; valid = true };
  average_number_of_transactions_per_day = record { int32 = pos 0; valid = true };
  registered_payment_modes = [];
  usual_transaction_start_hour = null_timestamp;
  usual_transaction_end_hour = null_timestamp;
  total_transactions = pos 0;
  allowed_transactions = pos 0;
  updated_at = null_timestamp;
  std_dev_transaction_amount = null_int;
}

-- MapDBProfileToDomain, which leaves the standard deviation out.
unfoldable pub map_db_profile_to_domain : GetUserProfileByUserIdRow → UserProfileBehavior
unfolding get_mode_slice_from_string_slice
map_db_profile_to_domain p = record {
  user_id = p.user_id;
  average_transaction_amount = p.average_transaction_amount;
  max_transaction_amount_seen = p.max_transaction_amount_seen;
  average_number_of_transactions_per_day = p.average_number_of_transactions_per_day;
  registered_payment_modes = get_mode_slice_from_string_slice p.registered_payment_modes;
  usual_transaction_start_hour = p.usual_transaction_start_hour;
  usual_transaction_end_hour = p.usual_transaction_end_hour;
  total_transactions = p.total_transactions;
  allowed_transactions = p.allowed_transactions;
  updated_at = p.updated_at;
  std_dev_transaction_amount = null_int;
}

-- CountCSVRows, of the reads until the end of the file: the rows, and the error that stopped it.
unfoldable pub count_csv_rows : ℕ → List (Result (List String)) → ℕ × Option Error
count_csv_rows count [] = (count, none)
count_csv_rows count (err e ∷ rows) = (count, some e)
count_csv_rows count (ok row ∷ rows) = count_csv_rows (suc count) rows

module _ {S : Type 0} (env : Environment S) where
  abbrev pub parsed_row : Float64 → String → Time × S → Result CreateBulkTransactionRequest × S
  parsed_row amount mode (created_at, s) =
      (ok (record { amount = amount; mode = mode; created_at = created_at }), s)

  abbrev pub parsed_amount :
      Result Float64 → String → Result Time → S → Result CreateBulkTransactionRequest × S
  parsed_amount (err e) mode created_at s = (err invalid_body, s)
  parsed_amount (ok amount) mode (ok created_at) s =
      if le amount (lit 0) then (err invalid_body, s) else parsed_row amount mode (created_at, s)
  parsed_amount (ok amount) mode (err e) s =
      let timed = parsed_row amount mode (env.now s) in
      if le amount (lit 0) then (err invalid_body, s) else timed

  -- ParseTransactionCSVRow
  unfoldable pub parse_transaction_csv_row :
      List String → S → Result CreateBulkTransactionRequest × S
  parse_transaction_csv_row (a ∷ mode ∷ c ∷ more) s =
      parsed_amount (env.parse_float a) mode (env.parse_rfc3339 c) s
  parse_transaction_csv_row (a ∷ m ∷ []) s = (err invalid_body, s)
  parse_transaction_csv_row (a ∷ []) s = (err invalid_body, s)
  parse_transaction_csv_row [] s = (err invalid_body, s)
