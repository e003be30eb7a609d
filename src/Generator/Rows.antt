-- ===== src/Generator/Rows.antt =====
-- What the rows of the generator are, and that it does not panic.
use fraud_detection_lite.Prelude.{
  ℕ, zero, suc, ◌<◌, ◌≡◌, refl, ap, ◌∙◌, String, List, [], ◌∷◌, map, length, some, true, arith,
}
use fraud_detection_lite.Constants.{lit}
use fraud_detection_lite.Risk.Confidence.{Between}
use fraud_detection_lite.Specs.Error.{ok}
use fraud_detection_lite.Specs.Txn.{is_payment_mode}
use fraud_detection_lite.Time.{Time}
use fraud_detection_lite.Generator.{
  Rand, Row, Scenario, amount_deviation, frequency_spike, new_payment_mode, time_anomaly,
  normal_transaction, scenario_of, amount_of, mode_at, modes, random_mode, random_daytime,
  random_late_night, minutes_later, drawn_mode, drawn_time, random_row, random_rows, made_row,
  prepend, after_row, Formats, csv_header, csv_record, generate,
}
use fraud_detection_lite.Generator.Amounts.{least_amount, most_amount, amount_of_bounds}
use fraud_detection_lite.Generator.Times.{
  IsDated, IsWithinDay, IsSoonAfter, date_after-IsWithinDay, IsWithinDay-IsDated,
  IsSoonAfter-IsDated,
}

-- What math/rand promises: Float64 is from 0 to 1, and Intn(n) below n.
pub record IsRandom {S : Type 0} (rand : Rand S) : Type 0 where
  pub float64_bounds : (s : S) → Between (lit 0) (rand.float64 s).0 (lit 1)
  pub intn-lt : (n : ℕ) (s : S) → 0 < n → (rand.intn n s).0 < n

-- The mode and the time of each case of the switch.
abbrev pub IsDrawnMode : Scenario → String → Type 0
IsDrawnMode amount_deviation m = is_payment_mode m ≡ true
IsDrawnMode frequency_spike m = is_payment_mode m ≡ true
IsDrawnMode new_payment_mode m = m ≡ "CRYPTO"
IsDrawnMode time_anomaly m = is_payment_mode m ≡ true
IsDrawnMode normal_transaction m = is_payment_mode m ≡ true

abbrev pub IsDrawnTime : Scenario → Time → Time → Type 0
IsDrawnTime amount_deviation prev t = IsWithinDay prev 9 19 t
IsDrawnTime frequency_spike prev t = IsSoonAfter prev t
IsDrawnTime new_payment_mode prev t = IsWithinDay prev 9 19 t
IsDrawnTime time_anomaly prev t = IsWithinDay prev 0 4 t
IsDrawnTime normal_transaction prev t = IsWithinDay prev 9 19 t

pub record IsDrawn (kind : Scenario) (prev : Time) (r : Row) : Type 0 where
  pub amount : Between (lit (least_amount kind)) r.amount (lit (most_amount kind))
  pub mode : IsDrawnMode kind r.mode
  pub txn_time : IsDrawnTime kind prev r.txn_time

-- Rows of which each follows the time of the one before.
pub data Follows : Time → List Row → Type 0 where
  stop : {t : Time} → Follows t []
  follow :
      {t : Time} {r : Row} {rs : List Row} (kind : Scenario)
      → IsDrawn kind t r
      → Follows r.txn_time rs
      → Follows t (r ∷ rs)

IsDrawnTime-IsDated :
    (kind : Scenario) (prev t : Time) → IsDated prev → IsDrawnTime kind prev t → IsDated t
IsDrawnTime-IsDated amount_deviation prev t d h = IsWithinDay-IsDated prev t 9 19 d h
IsDrawnTime-IsDated frequency_spike prev t d h = IsSoonAfter-IsDated prev t d h
IsDrawnTime-IsDated new_payment_mode prev t d h = IsWithinDay-IsDated prev t 9 19 d h
IsDrawnTime-IsDated time_anomaly prev t d h = IsWithinDay-IsDated prev t 0 4 d h
IsDrawnTime-IsDated normal_transaction prev t d h = IsWithinDay-IsDated prev t 9 19 d h

-- An index below three gives a mode of the service.
mode_at-modes :
    (i : ℕ) → i < 3 → (m : String) × (mode_at modes i ≡ some m) × (is_payment_mode m ≡ true)
mode_at-modes zero h = ("UPI", refl, refl)
mode_at-modes (suc zero) h = ("CARD", refl, refl)
mode_at-modes (suc (suc zero)) h = ("NETBANKING", refl, refl)
mode_at-modes (suc (suc (suc i))) h = absurd (omega arith)

module _ {S : Type 0} (rand : Rand S) (random : IsRandom rand) where
  random_mode-some :
      (s : S) → (m : String) × ((random_mode rand s).0 ≡ some m) × (is_payment_mode m ≡ true)
  unfolding random_mode
  random_mode-some s = mode_at-modes _ (random.intn-lt 3 s (omega arith))

  drawn_mode-some :
      (kind : Scenario) (s : S)
      → (m : String) × ((drawn_mode rand kind s).0 ≡ some m) × IsDrawnMode kind m
  unfolding drawn_mode
  drawn_mode-some amount_deviation s = random_mode-some s
  drawn_mode-some frequency_spike s = random_mode-some s
  drawn_mode-some new_payment_mode s = ("CRYPTO", refl, refl)
  drawn_mode-some time_anomaly s = random_mode-some s
  drawn_mode-some normal_transaction s = random_mode-some s

  random_daytime-IsWithinDay :
      (prev : Time) (s : S) → IsDated prev → IsWithinDay prev 9 19 (random_daytime rand prev s).0
  unfolding random_daytime
  random_daytime-IsWithinDay prev s dated =
      date_after-IsWithinDay prev _ _ _ 9 19 dated (random.intn-lt 2 s (omega arith))
        (random.intn-lt 60 _ (omega arith)) (omega arith)
        (omega (arith, random.intn-lt 10 (rand.intn 2 s).1 (omega arith))) (omega arith)

  random_late_night-IsWithinDay :
      (prev : Time) (s : S) → IsDated prev → IsWithinDay prev 0 4 (random_late_night rand prev s).0
  unfolding random_late_night
  random_late_night-IsWithinDay prev s dated =
      date_after-IsWithinDay prev _ _ _ 0 4 dated (random.intn-lt 2 s (omega arith))
        (random.intn-lt 60 _ (omega arith)) (omega arith)
        (random.intn-lt 4 (rand.intn 2 s).1 (omega arith)) (omega arith)

  minutes_later-IsSoonAfter : (prev : Time) (s : S) → IsSoonAfter prev (minutes_later rand prev s).0
  unfolding minutes_later
  minutes_later-IsSoonAfter prev s =
      let few = random.intn-lt 3 s (omega arith) in (refl, omega arith, omega (arith, few))

  drawn_time-IsDrawnTime :
      (kind : Scenario) (prev : Time) (s : S)
      → IsDated prev
      → IsDrawnTime kind prev (drawn_time rand kind prev s).0
  unfolding drawn_time
  drawn_time-IsDrawnTime amount_deviation prev s d = random_daytime-IsWithinDay prev s d
  drawn_time-IsDrawnTime frequency_spike prev s d = minutes_later-IsSoonAfter prev s
  drawn_time-IsDrawnTime new_payment_mode prev s d = random_daytime-IsWithinDay prev s d
  drawn_time-IsDrawnTime time_anomaly prev s d = random_late_night-IsWithinDay prev s d
  drawn_time-IsDrawnTime normal_transaction prev s d = random_daytime-IsWithinDay prev s d

  random_row-IsDrawn :
      (kind : Scenario) (prev : Time) (s : S)
      → IsDated prev
      → (r : Row) × ((random_row rand kind prev s).0 ≡ some r) × IsDrawn kind prev r
  unfolding random_row
  random_row-IsDrawn kind prev s dated =
      let x = amount_of kind (rand.float64 s).0 in
      let (m, drawn, good) = drawn_mode-some kind (rand.float64 s).1 in
      let t = drawn_time rand kind prev (drawn_mode rand kind (rand.float64 s).1).1 in
      (
        record { amount = x; mode = m; txn_time = t.0 },
        ap (made_row x t.0) drawn,
        record {
          amount = amount_of_bounds kind _ (random.float64_bounds s);
          mode = good;
          txn_time = drawn_time-IsDrawnTime kind prev _ dated;
        },
      )

  random_rows-Follows :
      (n : ℕ) (last : Time) (s : S)
      → IsDated last
      → (made : List Row) × (random_rows rand n last s ≡ some made)
        × (length made ≡ n)
        × Follows last made
  unfolding random_rows
  random_rows-Follows zero last s dated = ([], refl, refl, stop)
  random_rows-Follows (suc n) last s dated =
      let kind = scenario_of (rand.float64 s).0 in
      let after = random_row rand kind last (rand.float64 s).1 in
      let (r, drawn, good) = random_row-IsDrawn kind last (rand.float64 s).1 dated in
      let (rs, rest, counted, chain) =
        random_rows-Follows n r.txn_time after.1
          (IsDrawnTime-IsDated kind last r.txn_time dated good.txn_time) in
      (
        r ∷ rs,
        ap (λ o. after_row o (λ q. prepend q (random_rows rand n q.txn_time after.1))) drawn
            ∙ ap (prepend r) rest,
        ap suc counted,
        follow kind good chain,
      )

  -- Where math/rand keeps its ranges and the run does not start on the first day of the calendar: with
  -- the file created, the script writes the header and 1000 rows and does not panic. Each row is of one
  -- of the five cases: its amount is from 1250 to 2500 for the deviating ones and from 400 to 601 for
  -- the others, its mode is one that the service knows, but for CRYPTO in the case of a new mode, and
  -- its time is one to three minutes after the row before, or on that day or the next at the hours of
  -- the case, 9 to 18 by day and 0 to 3 by night.
  pub generate-Follows :
      (formats : Formats) (start_time : Time) (s : S)
      → IsDated start_time
      → (made : List Row) × (generate rand formats (ok tt) start_time s
          ≡ some (csv_header ∷ map (csv_record formats) made))
        × (length made ≡ 1000)
        × Follows start_time made
  unfolding generate
  generate-Follows formats start_time s dated =
      let (made, whole, counted, chain) = random_rows-Follows 1000 start_time s dated in
      (made, rw whole refl, counted, chain)
