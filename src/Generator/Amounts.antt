-- ===== src/Generator/Amounts.antt =====
-- The amounts of the generator, from the least to the greatest draw.
use fraud_detection_lite.Prelude.{ℕ, zero, suc, ◌≡◌, refl, true, false, Bool, arith}
use fraud_detection_lite.Float.Ops.{Float64, fin, inf, nan, add, mul, le, evaluation}
use fraud_detection_lite.Float.Order.{
  ◌⊑◌, IsPositive, positive, ⊑_trans, ⊑_left, ⊑_right, ⊑_refl, le→⊑,
}
use fraud_detection_lite.Float.Monotone.{add_⊑, mul_⊑, mul_⊑_right}
use fraud_detection_lite.Float.Literals.{lit-IsPositive, lit_mono}
use fraud_detection_lite.Constants.{lit}
use fraud_detection_lite.Risk.Confidence.{Between}
use fraud_detection_lite.Generator.{
  Scenario, amount_deviation, frequency_spike, new_payment_mode, time_anomaly, normal_transaction,
  low_factor, factor_spread, amount_of,
}

-- A test of the sign and the magnitude, for constants.
positive_test : Float64 → Bool
positive_test nan = false
positive_test (inf s) = false
positive_test (fin true a) = false
positive_test (fin false zero) = false
positive_test (fin false (suc a)) = true

positive_test-IsPositive : (x : Float64) → positive_test x ≡ true → IsPositive x
unfolding positive_test
positive_test-IsPositive (fin false (suc a)) e = positive (omega arith)
positive_test-IsPositive (fin false zero) e = cc
positive_test-IsPositive (fin true a) e = cc
positive_test-IsPositive (inf s) e = cc
positive_test-IsPositive nan e = cc

ends : (kind : Scenario) → positive_test (low_factor kind) ≡ true
unfolding evaluation low_factor positive_test
ends amount_deviation = refl
ends frequency_spike = refl
ends new_payment_mode = refl
ends time_anomaly = refl
ends normal_transaction = refl

spreads : (kind : Scenario) → positive_test (factor_spread kind) ≡ true
unfolding evaluation factor_spread positive_test
spreads amount_deviation = refl
spreads frequency_spike = refl
spreads new_payment_mode = refl
spreads time_anomaly = refl
spreads normal_transaction = refl

widest :
    (kind : Scenario)
    → positive_test (add (low_factor kind) (mul (lit 1) (factor_spread kind))) ≡ true
unfolding evaluation low_factor factor_spread positive_test lit
widest amount_deviation = refl
widest frequency_spike = refl
widest new_payment_mode = refl
widest time_anomaly = refl
widest normal_transaction = refl

-- The least and the most of each case: 2.5 to 5 times 500, and around 0.8 or 0.9 to 1.2 times 500.
abbrev pub least_amount : Scenario → ℕ
least_amount amount_deviation = 1250
least_amount frequency_spike = 400
least_amount new_payment_mode = 450
least_amount time_anomaly = 450
least_amount normal_transaction = 400

abbrev pub most_amount : Scenario → ℕ
most_amount amount_deviation = 2500
most_amount frequency_spike = 601
most_amount new_payment_mode = 601
most_amount time_anomaly = 601
most_amount normal_transaction = 601

least : (kind : Scenario) → le (lit (least_amount kind)) (amount_of kind (lit 0)) ≡ true
unfolding evaluation low_factor factor_spread amount_of lit
least amount_deviation = refl
least frequency_spike = refl
least new_payment_mode = refl
least time_anomaly = refl
least normal_transaction = refl

most : (kind : Scenario) → le (amount_of kind (lit 1)) (lit (most_amount kind)) ≡ true
unfolding evaluation low_factor factor_spread amount_of lit
most amount_deviation = refl
most frequency_spike = refl
most new_payment_mode = refl
most time_anomaly = refl
most normal_transaction = refl

-- A greater draw gives a greater amount.
amount_of_mono :
    (kind : Scenario) (r r' : Float64) → r ⊑ r' → r' ⊑ lit 1 → amount_of kind r ⊑ amount_of kind r'
unfolding amount_of
amount_of_mono kind r r' h k =
    let low = ⊑_refl (positive_test-IsPositive (low_factor kind) (ends kind)) in
    let spread = positive_test-IsPositive (factor_spread kind) (spreads kind) in
    let base = lit-IsPositive 500 (omega arith) (omega arith) in
    mul_⊑_right (⊑_refl base) base (add_⊑ low (mul_⊑ h spread)) (add_⊑ low (mul_⊑ k spread))
      (positive_test-IsPositive _ (widest kind))

lit_⊑ : (n : ℕ) → lit n ⊑ lit n
lit_⊑ n = lit_mono (omega arith)

pub amount_of_bounds :
    (kind : Scenario) (r : Float64)
    → Between (lit 0) r (lit 1)
    → Between (lit (least_amount kind)) (amount_of kind r) (lit (most_amount kind))
amount_of_bounds kind r (h, k) =
    let above = amount_of_mono kind (lit 0) r h k in
    let below = amount_of_mono kind r (lit 1) k (lit_⊑ 1) in
    (
      ⊑_trans (le→⊑ (lit_⊑ (least_amount kind)) (⊑_left above) (least kind)) above,
      ⊑_trans below (le→⊑ (⊑_right below) (lit_⊑ (most_amount kind)) (most kind)),
    )
