-- ===== src/Risk/TimeOfDay.antt =====
-- What CalculateTimeAnomalyRisk gives: nothing within the usual hours, read around the clock.
use Prim.Native.Nat.{min}
use mathlib.Core.Path.{ap₂, subst}
use fraud_detection_lite.Prelude.{
  ℕ, ◌+◌, ◌-◌, ◌*◌, ◌%◌, ◌≤◌, ◌<◌, ◌≡◌, refl, sym, ap, ◌∙◌, Bool, true, false, not, ◌||◌, ◌&&◌,
  arith, ltb, leb, Bool-cases, inl, inr, if◌then◌else◌,
}
use fraud_detection_lite.Prelude.Int.{pos}
use fraud_detection_lite.Float.Ops.{from_ℤ, mul, min_float, add}
use fraud_detection_lite.Float.Literals.{from_ℤ-pos, mul-lit, min-lit, add-lit, lit_mono}
use fraud_detection_lite.Constants.{lit}
use fraud_detection_lite.Float.Order.{⊑_trans}
use fraud_detection_lite.Risk.Confidence.{Between}
use fraud_detection_lite.Time.{Time, hour, hour-lt}
use fraud_detection_lite.Repository.Models.{UserProfileBehavior}
use fraud_detection_lite.Risk.Factors.{
  heuristic_time_risk, is_within_usual_hours, hours_outside, calculate_time_anomaly_risk,
}

-- Going forward round the clock from `start`, `current` comes no later than `end`.
pub is_within_usual_hours_lem :
    (start end current : ℕ)
    → start < 24
    → end < 24
    → current < 24
    → is_within_usual_hours start end current
      ≡ leb ((current + 24 - start) % 24) ((end + 24 - start) % 24)
unfolding is_within_usual_hours
is_within_usual_hours_lem start end current hs he hc = ground arith

hours_outside-pos :
    (start end current : ℕ)
    → is_within_usual_hours start end current ≡ false
    → 0 < hours_outside start end current
unfolding is_within_usual_hours hours_outside
hours_outside-pos start end current h = ground arith

hours_outside-lt :
    (start end current : ℕ) → start < 24 → current < 24 → hours_outside start end current < 24
unfolding hours_outside
hours_outside-lt start end current hs hc = ground arith

-- The hours from `current` to the nearer end of the usual hours. Where these do not pass midnight, one
-- of the two differences is 0, and neither is counted round midnight.
abbrev pub hours_away : ℕ → ℕ → ℕ → ℕ
hours_away start end current =
    if leb start end
    then (start - current) + (current - end)
    else min (current - end) (start - current)

hours_outside_lem :
    (start end current : ℕ)
    → is_within_usual_hours start end current ≡ false
    → hours_outside start end current ≡ hours_away start end current
unfolding is_within_usual_hours hours_outside
hours_outside_lem start end current h = ground arith

-- The extra points of the small hours.
abbrev pub late_points : ℕ → ℕ
late_points current = if ltb current 4 then 15 else 0

points :
    (k : ℕ) (late : Bool)
    → k < 24
    → let risk = mul (from_ℤ (pos k)) (lit 10) in
      min_float (if late then add risk (lit 15) else risk) (lit 100)
      ≡ lit (min 100 (10 * k + (if late then 15 else 0)))
points k late h =
    ap (λ t. min_float (if late then add t (lit 15) else t) (lit 100)) ten_each ∙ capped late
  where
    ten_each : mul (from_ℤ (pos k)) (lit 10) ≡ lit (k * 10)
    ten_each =
        ap (λ t. mul t (lit 10)) (from_ℤ-pos k)
        ∙ mul-lit k 10 (omega arith) (omega arith) (omega arith)

    capped :
        (b : Bool)
        → min_float (if b then add (lit (k * 10)) (lit 15) else lit (k * 10)) (lit 100)
          ≡ lit (min 100 (10 * k + (if b then 15 else 0)))
    capped true =
        ap (λ t. min_float t (lit 100)) (add-lit (k * 10) 15 (omega arith))
        ∙ min-lit (k * 10 + 15) 100 (omega arith) (omega arith)
        ∙ ap lit {x = min (k * 10 + 15) 100} {y = min 100 (10 * k + 15)} (omega arith)
    capped false =
        min-lit (k * 10) 100 (omega arith) (omega arith)
        ∙ ap lit {x = min (k * 10) 100} {y = min 100 (10 * k + 0)} (omega arith)

late_points_lem : (c : ℕ) → (if leb 0 c && ltb c 4 then 15 else 0) ≡ late_points c
late_points_lem c = ground arith

usual_hours :
    (start end current : ℕ)
    → start < 24
    → end < 24
    → current < 24
    → let risk = mul (from_ℤ (pos (hours_outside start end current))) (lit 10) in
      (if is_within_usual_hours start end current
        then lit 0
        else min_float
            (if leb 0 current && ltb current 4 then add risk (lit 15) else risk)
            (lit 100))
      ≡ (if leb ((current + 24 - start) % 24) ((end + 24 - start) % 24)
          then lit 0
          else lit (min 100 (10 * hours_outside start end current + late_points current)))
usual_hours start end current hs he hc =
    ap₂ (λ b x. if b then lit 0 else x) (is_within_usual_hours_lem start end current hs he hc)
      (points (hours_outside start end current) (leb 0 current && ltb current 4)
          (hours_outside-lt start end current hs hc)
        ∙ ap (λ (n : ℕ). lit (min 100 (10 * hours_outside start end current + n)))
            (late_points_lem current))

away :
    (start end current : ℕ)
    → start < 24
    → end < 24
    → current < 24
    → (if leb ((current + 24 - start) % 24) ((end + 24 - start) % 24)
        then lit 0
        else lit (min 100 (10 * hours_outside start end current + late_points current)))
      ≡ (if leb ((current + 24 - start) % 24) ((end + 24 - start) % 24)
          then lit 0
          else lit (min 100 (10 * hours_away start end current + late_points current)))
away start end current hs he hc =
    elim (Bool-cases (leb ((current + 24 - start) % 24) ((end + 24 - start) % 24))) [
      | inl within ↦ rw within refl
      | inr outside ↦ rw outside (
          ap (λ (n : ℕ). lit (min 100 (10 * n + late_points current)))
            (hours_outside_lem start end current
              (is_within_usual_hours_lem start end current hs he hc ∙ outside)))
    ]

-- With usual hours known, a transaction has no time risk if, going round the clock from the start
-- hour, its hour comes no later than the end hour. Otherwise it has ten points for each hour to the
-- nearer end of the usual hours, and fifteen more before four o'clock, at most 100. Where the usual
-- hours do not pass midnight, the hours before them are counted to their start and the hours after
-- them from their end, and neither round midnight.
pub calculate_time_anomaly_risk_lem :
    (t : Time) (p : UserProfileBehavior)
    → p.usual_transaction_start_hour.valid ≡ true
    → p.usual_transaction_end_hour.valid ≡ true
    → let start = hour p.usual_transaction_start_hour.time in
      let end = hour p.usual_transaction_end_hour.time in
      let current = hour t in
      calculate_time_anomaly_risk t p ≡ (
        if leb ((current + 24 - start) % 24) ((end + 24 - start) % 24)
        then lit 0
        else lit (min 100 (10 * hours_away start end current + late_points current)))
unfolding calculate_time_anomaly_risk
calculate_time_anomaly_risk_lem t p hs he =
    rw (hs, he)
      (usual_hours (hour p.usual_transaction_start_hour.time)
          (hour p.usual_transaction_end_hour.time) (hour t)
          (hour-lt p.usual_transaction_start_hour.time) (hour-lt p.usual_transaction_end_hour.time)
          (hour-lt t)
        ∙ away (hour p.usual_transaction_start_hour.time) (hour p.usual_transaction_end_hour.time)
            (hour t) (hour-lt p.usual_transaction_start_hour.time)
            (hour-lt p.usual_transaction_end_hour.time) (hour-lt t))

heuristic_time_risk_bounds : (current : ℕ) → Between (lit 5) (heuristic_time_risk current) (lit 35)
unfolding heuristic_time_risk
heuristic_time_risk_bounds current = elim (Bool-cases (leb 0 current && ltb current 5)) [
  | inl night ↦ rw night (lit_mono (omega arith), lit_mono (omega arith))
  | inr later ↦ rw later (elim (Bool-cases (leb 5 current && ltb current 7)) [
    | inl early ↦ rw early (lit_mono (omega arith), lit_mono (omega arith))
    | inr day ↦ rw day (lit_mono (omega arith), lit_mono (omega arith))
  ])
]

-- Where either usual hour is unknown, the time risk lies between 5 and 35 points.
pub calculate_time_anomaly_risk_unknown :
    (t : Time) (p : UserProfileBehavior)
    → (p.usual_transaction_start_hour.valid && p.usual_transaction_end_hour.valid) ≡ false
    → Between (lit 5) (calculate_time_anomaly_risk t p) (lit 35)
unfolding calculate_time_anomaly_risk
calculate_time_anomaly_risk_unknown t p h =
    rw (unknown p.usual_transaction_start_hour.valid p.usual_transaction_end_hour.valid h)
      (heuristic_time_risk_bounds (hour t))
  where
    unknown : (a b : Bool) → (a && b) ≡ false → (not a || not b) ≡ true
    unknown a b e = ground arith

if_bounds : (b : Bool) (n : ℕ) → n ≤ 100 → Between (lit 0) (if b then lit 0 else lit n) (lit 100)
if_bounds true n h = (lit_mono (omega arith), lit_mono (omega arith))
if_bounds false n h = (lit_mono (omega arith), lit_mono h)

-- The time risk lies between 0 and 100 points, whatever the profile and the hour.
pub calculate_time_anomaly_risk_bounds :
    (t : Time) (p : UserProfileBehavior)
    → Between (lit 0) (calculate_time_anomaly_risk t p) (lit 100)
calculate_time_anomaly_risk_bounds t p =
    elim (Bool-cases (p.usual_transaction_start_hour.valid && p.usual_transaction_end_hour.valid)) [
      | inl known ↦
          subst (λ x. Between (lit 0) x (lit 100))
            (sym (calculate_time_anomaly_risk_lem t p (both _ _ known).0 (both _ _ known).1))
            (if_bounds _ _ (omega arith))
      | inr unknown ↦ (
        ⊑_trans (lit_mono (omega arith)) (calculate_time_anomaly_risk_unknown t p unknown).0,
        ⊑_trans (calculate_time_anomaly_risk_unknown t p unknown).1 (lit_mono (omega arith)),
      )
    ]
  where
    both : (a b : Bool) → (a && b) ≡ true → (a ≡ true) × (b ≡ true)
    both a b e = ground arith
