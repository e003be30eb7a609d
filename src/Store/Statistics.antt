-- ===== src/Store/Statistics.antt =====
-- internal/repository/transactions.sql.go: the statistics of a day, which nothing runs.
use fraud_detection_lite.Prelude.{◌*◌, not, List, length, keep, ltb}
use fraud_detection_lite.Prelude.Int.{ℤ, pos}
use fraud_detection_lite.Time.{Time}
use fraud_detection_lite.Specs.Error.{Result, ok, ◌>>=◌}
use fraud_detection_lite.Repository.Models.{Transaction, Timestamp}
use fraud_detection_lite.Store.Tables.{World, Engine, cast_integer, or_zero, day}
use fraud_detection_lite.Store.Transactions.{of_user}
use fraud_detection_lite.Store.Profiles.{amounts, extreme, earlier, later}

-- The two times are NULL for a day without transactions.
pub record GetDailyTransactionStatsRow : Type 0 where
  pub total_transactions : ℤ
  pub average_amount : ℤ
  pub first_transaction_time : Timestamp
  pub last_transaction_time : Timestamp

-- created_at >= CURRENT_DATE
abbrev pub since_today : Engine → Time → List Transaction → List Transaction
since_today engine now ts =
    keep
      (λ (t : Transaction).
        not (ltb (engine.wall t.created_at.time) (day (engine.wall now) * 86400)))
      ts

unfoldable pub daily_stats : Engine → List Transaction → Result GetDailyTransactionStatsRow
daily_stats engine ts = do
  average ← cast_integer (or_zero (engine.average (amounts ts)))
  ok (record {
    total_transactions = pos (length ts);
    average_amount = average;
    first_transaction_time = extreme (earlier engine) ts;
    last_transaction_time = extreme (later engine) ts;
  })

-- GetDailyTransactionStats
unfoldable pub get_daily_transaction_stats :
    Engine → ℤ → World → Result GetDailyTransactionStatsRow × World
unfolding daily_stats
get_daily_transaction_stats engine u w =
    (daily_stats engine (since_today engine w.clock (of_user u w.transactions)), w)
