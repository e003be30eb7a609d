-- ===== src/Generator.antt =====
-- generate_csv.go: the script that writes a file of random transactions to upload.
pub mod Times
pub mod Amounts
pub mod Rows
use fraud_detection_lite.Prelude.{
  ℕ, zero, suc, ◌+◌, ◌-◌, ◌*◌, ◌/◌, String, List, [], ◌∷◌, map, length, Option, none, some, false,
  if◌then◌else◌,
}
use fraud_detection_lite.Float.Ops.{Float64, constant, add, mul, lt}
use fraud_detection_lite.Constants.{lit}
use fraud_detection_lite.Specs.Error.{Result, ok, err}
use fraud_detection_lite.Time.{Time}

-- The generator of math/rand, over a state S.
pub record Rand (S : Type 0) : Type 0 where
  pub float64 : S → Float64 × S
  pub intn : ℕ → S → ℕ × S

abbrev pub modes : List String
modes = "UPI" ∷ "CARD" ∷ "NETBANKING" ∷ []

-- time.Date(prev.Year(), prev.Month(), prev.Day() + days, hours, minutes, 0, 0, prev.Location()), with
-- the location's offset as it is at `prev`. The zone is cut off from the local time again, which the
-- times of a day after the first are not below.
unfoldable pub date_after : Time → ℕ → ℕ → ℕ → Time
date_after prev days hours minutes = record {
  secs =
      (prev.secs + prev.zone) / 86400 * 86400
      + days * 86400
      + hours * 3600
      + minutes * 60
      - prev.zone;
  zone = prev.zone;
}

pub record Row : Type 0 where
  pub amount : Float64
  pub mode : String
  pub txn_time : Time

-- The cases of the switch.
pub data Scenario : Type 0 where
  amount_deviation : Scenario
  frequency_spike : Scenario
  new_payment_mode : Scenario
  time_anomaly : Scenario
  normal_transaction : Scenario

unfoldable pub scenario_of : Float64 → Scenario
unfolding constant
scenario_of p =
    if lt p (constant false 15 100)
    then amount_deviation
    else if lt p (constant false 25 100)
    then frequency_spike
    else if lt p (constant false 30 100)
    then new_payment_mode
    else if lt p (constant false 35 100)
    then time_anomaly
    else normal_transaction

abbrev pub base_amount : Float64
base_amount = lit 500

-- The low end and the spread of the factor of the base amount.
unfoldable pub low_factor : Scenario → Float64
unfolding constant
low_factor amount_deviation = constant false 25 10
low_factor frequency_spike = constant false 8 10
low_factor new_payment_mode = constant false 9 10
low_factor time_anomaly = constant false 9 10
low_factor normal_transaction = constant false 8 10

unfoldable pub factor_spread : Scenario → Float64
unfolding constant
factor_spread amount_deviation = constant false 25 10
factor_spread frequency_spike = constant false 4 10
factor_spread new_payment_mode = constant false 3 10
factor_spread time_anomaly = constant false 3 10
factor_spread normal_transaction = constant false 4 10

-- modes[i], `none` where it panics.
abbrev pub mode_at : List String → ℕ → Option String
mode_at [] i = none
mode_at (m ∷ ms) zero = some m
mode_at (m ∷ ms) (suc i) = mode_at ms i

unfoldable pub amount_of : Scenario → Float64 → Float64
unfolding mul low_factor
amount_of kind r = mul base_amount (add (low_factor kind) (mul r (factor_spread kind)))

abbrev pub made_row : Float64 → Time → Option String → Option Row
made_row amount t none = none
made_row amount t (some m) = some (record { amount = amount; mode = m; txn_time = t })

abbrev pub prepend : Row → Option (List Row) → Option (List Row)
prepend r none = none
prepend r (some made) = some (r ∷ made)

-- What follows a row, unless the script has panicked.
abbrev pub after_row : Option Row → (Row → Option (List Row)) → Option (List Row)
after_row none f = none
after_row (some r) f = f r

module _ {S : Type 0} (rand : Rand S) where
  -- randomMode
  unfoldable pub random_mode : S → Option String × S
  random_mode s = let (i, s') = rand.intn (length modes) s in (mode_at modes i, s')

  -- randomDaytime
  unfoldable pub random_daytime : Time → S → Time × S
  random_daytime prev s =
      let (delta_days, s1) = rand.intn 2 s in
      let (hours, s2) = rand.intn 10 s1 in
      let (minutes, s3) = rand.intn 60 s2 in (date_after prev delta_days (hours + 9) minutes, s3)

  -- randomLateNight
  unfoldable pub random_late_night : Time → S → Time × S
  random_late_night prev s =
      let (delta_days, s1) = rand.intn 2 s in
      let (hours, s2) = rand.intn 4 s1 in
      let (minutes, s3) = rand.intn 60 s2 in (date_after prev delta_days hours minutes, s3)

  -- lastTxnTime.Add(time.Duration(rand.Intn(3)+1) * time.Minute)
  unfoldable pub minutes_later : Time → S → Time × S
  minutes_later prev s =
      let (n, s') = rand.intn 3 s in (record prev { secs = prev.secs + (n + 1) * 60 }, s')

  -- The mode of a row; the code of the new payment mode draws none.
  unfoldable pub drawn_mode : Scenario → S → Option String × S
  unfolding random_mode
  drawn_mode amount_deviation s = random_mode s
  drawn_mode frequency_spike s = random_mode s
  drawn_mode new_payment_mode s = (some "CRYPTO", s)
  drawn_mode time_anomaly s = random_mode s
  drawn_mode normal_transaction s = random_mode s

  unfoldable pub drawn_time : Scenario → Time → S → Time × S
  unfolding random_daytime
  drawn_time amount_deviation prev s = random_daytime prev s
  drawn_time frequency_spike prev s = minutes_later prev s
  drawn_time new_payment_mode prev s = random_daytime prev s
  drawn_time time_anomaly prev s = random_late_night prev s
  drawn_time normal_transaction prev s = random_daytime prev s

  -- The case of the switch: the amount, the mode and the time, drawn in this order. Without a mode the
  -- script has panicked, and what follows is not used.
  unfoldable pub random_row : Scenario → Time → S → Option Row × S
  unfolding drawn_mode
  random_row kind prev s =
      let (r, s1) = rand.float64 s in
      let (m, s2) = drawn_mode kind s1 in
      let (t, s3) = drawn_time kind prev s2 in (made_row (amount_of kind r) t m, s3)

  -- The loop, with the time of the last row.
  unfoldable pub random_rows : ℕ → Time → S → Option (List Row)
  unfolding random_row
  random_rows zero last s = some []
  random_rows (suc n) last s =
      let (p, s1) = rand.float64 s in
      let (made, s2) = random_row (scenario_of p) last s1 in
      after_row made (λ r. prepend r (random_rows n r.txn_time s2))

-- fmt.Sprintf("%.2f", x), and t.Format(time.RFC3339).
pub record Formats : Type 0 where
  pub two_places : Float64 → String
  pub rfc3339 : Time → String

abbrev pub csv_header : List String
csv_header = "amount" ∷ "mode" ∷ "created_at" ∷ []

abbrev pub csv_record : Formats → Row → List String
csv_record formats r = formats.two_places r.amount ∷ r.mode ∷ formats.rfc3339 r.txn_time ∷ []

abbrev written : Formats → Option (List Row) → Option (List (List String))
written formats none = none
written formats (some rows) = some (csv_header ∷ map (csv_record formats) rows)

-- main from the time four months ago on, and what os.Create gave: the records of the file, or `none`
-- where the script panics.
unfoldable pub generate :
    {S : Type 0} → Rand S → Formats → Result (Unit {0}) → Time → S → Option (List (List String))
unfolding random_rows
generate rand formats (err e) start_time s = none
generate rand formats (ok created) start_time s =
    written formats (random_rows rand 1000 start_time s)
