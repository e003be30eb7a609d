-- ===== src/Profile/Update.antt =====
-- internal/pkg/helpers/profile_update.go: ApplyTransactionToProfile, which mutates its profile, as a
-- function from the profile before to the profile after.
use fraud_detection_lite.Prelude.{
  List, [], ◌∷◌, ◌++◌, Bool, true, false, not, ◌||◌, ltb, if◌then◌else◌,
}
use fraud_detection_lite.Prelude.Int.{ℤ, pos, add32, eqb_ℤ}
use fraud_detection_lite.Float.Ops.{Float64, from_ℤ, add, sub, mul, div, lt}
use fraud_detection_lite.Constants.{lit}
use fraud_detection_lite.Time.{Time, hour, date_of_hour}
use fraud_detection_lite.Repository.Models.{
  Mode, Float8, Timestamp, UserProfileBehavior, TransactionDecision, allow, flag, block,
  mfa_required,
}
use fraud_detection_lite.Risk.Factors.{contains}

-- The decisions that count as allowed.
abbrev pub is_counted : TransactionDecision → Bool
is_counted allow = true
is_counted flag = true
is_counted block = false
is_counted mfa_required = false

-- The running average, where `allowed` is the raised count.
unfoldable pub update_average : Float64 → ℤ → Float8 → Float8
update_average amount allowed average =
    let n = from_ℤ allowed in
    if eqb_ℤ allowed (pos 1)
    then record { float64 = amount; valid = true }
    else record average { float64 = div (add (mul average.float64 (sub n (lit 1))) amount) n }

unfoldable pub update_maximum : Float64 → Float8 → Float8
update_maximum amount seen =
    if not seen.valid || lt seen.float64 amount
    then record { float64 = amount; valid = true }
    else seen

unfoldable pub update_modes : Mode → List Mode → List Mode
update_modes mode modes = if not (contains modes mode) then modes ++ mode ∷ [] else modes

unfoldable pub update_start : Time → Timestamp → Timestamp
update_start created_at start =
    if not start.valid || ltb (hour created_at) (hour start.time)
    then record { time = date_of_hour (hour created_at); valid = true }
    else start

unfoldable pub update_end : Time → Timestamp → Timestamp
update_end created_at end =
    if not end.valid || ltb (hour end.time) (hour created_at)
    then record { time = date_of_hour (hour created_at); valid = true }
    else end

-- ApplyTransactionToProfile; each of its later blocks reads and writes a field of its own.
unfoldable pub apply_transaction_to_profile :
    UserProfileBehavior → Float64 → Mode → Time → TransactionDecision → UserProfileBehavior
apply_transaction_to_profile p amount mode created_at decision =
    let counted = record p { total_transactions = add32 p.total_transactions (pos 1) } in
    let allowed = add32 p.allowed_transactions (pos 1) in
    if not (is_counted decision) then counted else record counted {
      allowed_transactions = allowed;
      average_transaction_amount = update_average amount allowed p.average_transaction_amount;
      max_transaction_amount_seen = update_maximum amount p.max_transaction_amount_seen;
      registered_payment_modes = update_modes mode p.registered_payment_modes;
      usual_transaction_start_hour = update_start created_at p.usual_transaction_start_hour;
      usual_transaction_end_hour = update_end created_at p.usual_transaction_end_hour;
    }
