-- ===== src/Service/Environment.antt =====
-- What the services take from outside the repository.
use fraud_detection_lite.Prelude.{String, List, Bool}
use fraud_detection_lite.Prelude.Int.{ℤ}
use fraud_detection_lite.Float.Ops.{Float64}
use fraud_detection_lite.Specs.Error.{Result}
use fraud_detection_lite.Time.{Time}

-- The clock, the conversion of a float64 that is no int32, and the parsers and text functions of Go's
-- standard library, over the state S of the world.
pub record Environment (S : Type 0) : Type 0 where
  pub now : S → Time × S
  pub platform : Float64 → ℤ
  pub parse_float : String → Result Float64
  pub parse_rfc3339 : String → Result Time
  pub format_time : Time → String
  pub to_lower : String → String
  pub to_upper : String → String
  pub trim_space : String → String

-- What excelize and encoding/csv make of an uploaded file: whether it opens, the columns of its first
-- row, and what each later read gives until the end of the file.
pub record Upload : Type 0 where
  pub excel_opens : Bool
  pub excel_rows_open : Bool
  pub excel_headers : Result (List String)
  pub excel_rows : List (Result (List String))
  pub csv_headers : Result (List String)
  pub csv_rows : List (Result (List String))
