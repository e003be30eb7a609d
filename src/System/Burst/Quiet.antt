-- ===== src/System/Burst/Quiet.antt =====
-- An analysis that counts few transactions reports no spike.
use fraud_detection_lite.Prelude.{
  ℕ, suc, ◌≤◌, ◌<◌, ◌≡◌, ◌∙◌, refl, sym, ap, arith, Bool, true, false, not, ◌&&◌, List, [], ◌∷◌,
  ◌++◌, length, String, leb,
}
use mathlib.Core.Path.{subst}
use fraud_detection_lite.Prelude.Int.{ℤ, pos, negsuc, leb_ℤ}
use fraud_detection_lite.Float.Ops.{Float64, lt, to_int32}
use fraud_detection_lite.Constants.{lit}
use fraud_detection_lite.Time.{Time}
use fraud_detection_lite.Risk.Score.{analyze_transaction}
use fraud_detection_lite.Specs.Error.{Result, ok, err}
use fraud_detection_lite.Specs.Txn.{CreateTransactionRequest}
use fraud_detection_lite.Repository.Models.{Transaction, UserProfileBehavior}
use fraud_detection_lite.Risk.Factors.{
  contains, calculate_amount_deviation_risk, calculate_time_anomaly_risk,
}
use fraud_detection_lite.Risk.Triggers.{report, analyze_transaction-triggered_factors}
use fraud_detection_lite.Service.Transaction.{count_or_zero}
use fraud_detection_lite.Store.Tables.{Engine}
use fraud_detection_lite.Store.Transactions.{is_within, counted, count_within}

abbrev pub HasNoSpike : List String → Type 0
HasNoSpike factors = contains factors "FREQUENCY_SPIKE" ≡ false

pub count_within-le :
    (engine : Engine) (secs : Float64) (now : ℕ) (ts : List Transaction)
    → (n : ℕ) × (count_or_zero (count_within engine secs now ts) ≡ pos n) × (n ≤ length ts)
unfolding count_within
count_within-le engine secs now [] = (0, refl, omega arith)
count_within-le engine secs now (t ∷ ts) =
    let (n, e, l) = count_within-le engine secs now ts in
    go (is_within secs now (engine.wall t.created_at.time)) (count_within engine secs now ts) n e l
  where
    go :
        (recent : Result Bool) (later : Result ℤ) (n : ℕ)
        → count_or_zero later ≡ pos n
        → n ≤ length ts
        → (m : ℕ) × (count_or_zero (elim recent [ ok r ↦ counted r later | err e ↦ err e ]) ≡ pos m)
          × (m ≤ suc (length ts))
    go (err f) later n e l = (0, refl, omega arith)
    go (ok false) later n e l = (n, e, omega arith)
    go (ok true) (ok (pos k)) n e l = (suc n, cc, omega arith)
    go (ok true) (ok (negsuc k)) n e l = (n, e, omega arith)
    go (ok true) (err f) n e l = (n, e, omega arith)

-- The factors of an analysis without a frequency spike.
no_spike :
    (a m t : Bool)
    → HasNoSpike (
        report a "AMOUNT_DEVIATION"
        ++ (report false "FREQUENCY_SPIKE" ++ (report m "NEW_MODE" ++ report t "TIME_ANOMALY")))
unfolding contains
no_spike false false false = refl
no_spike false false true = refl
no_spike false true false = refl
no_spike false true true = refl
no_spike true false false = refl
no_spike true false true = refl
no_spike true true false = refl
no_spike true true true = refl

module _ (platform : Float64 → ℤ) (req : CreateTransactionRequest) (p : UserProfileBehavior)
    (t : Time) where
  pub analyze_transaction-HasNoSpike :
      (c : ℤ) (n : ℕ)
      → c ≡ pos n
      → n < 5
      → HasNoSpike (analyze_transaction platform req p c t).triggered_factors
  analyze_transaction-HasNoSpike c n e l =
      subst HasNoSpike
        (sym (
          ap (λ k. (analyze_transaction platform req p k t).triggered_factors) e
          ∙ analyze_transaction-triggered_factors platform req p n t (omega arith)
          ∙ ap
              (λ b.
                report amount "AMOUNT_DEVIATION"
                ++ (report b "FREQUENCY_SPIKE"
                    ++ (report mode "NEW_MODE" ++ report hour "TIME_ANOMALY")))
              (few n l)))
        (no_spike amount mode hour)
    where
      amount : Bool
      amount =
          lt (lit 30) (calculate_amount_deviation_risk platform (to_int32 platform req.amount) p)

      mode : Bool
      mode =
          not (contains p.registered_payment_modes req.mode)
          && leb_ℤ p.allowed_transactions (pos 16)

      hour : Bool
      hour = lt (lit 35) (calculate_time_anomaly_risk t p)

      few : (k : ℕ) → k < 5 → leb 5 k ≡ false
      few k h = ground arith
