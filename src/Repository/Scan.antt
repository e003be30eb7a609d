-- ===== src/Repository/Scan.antt =====
-- internal/repository/models.go: reading and writing the values of enumerations.
use Prim.Native.String.{◌++◌ as str_append}
use fraud_detection_lite.Prelude.{
  ◌≡◌, refl, Bool-cases, inl, inr, String, Bool, true, false, not, if◌then◌else◌,
}
use fraud_detection_lite.Specs.Error.{Result, ok, err, other}
use fraud_detection_lite.Repository.Models.{
  Mode, TransactionDecision, allow, flag, block, mfa_required,
}

-- A value of database/sql/driver: nil, a []byte or a string of some text, or one of another type, of
-- which the name is kept.
pub data DriverValue : Type 0 where
  nil_value : DriverValue
  bytes_value text_value : String → DriverValue
  typed_value : String → DriverValue

abbrev pub type_name : DriverValue → String
type_name nil_value = "<nil>"
type_name (bytes_value s) = "[]uint8"
type_name (text_value s) = "string"
type_name (typed_value name) = name

abbrev pub unsupported : String → DriverValue → Result (Unit {0})
unsupported message src = err (other (str_append message (type_name src)))

-- Mode.Scan: the error, and the mode afterwards.
unfoldable pub scan_mode : DriverValue → Mode → Result (Unit {0}) × Mode
scan_mode (bytes_value s) e = (ok tt, s)
scan_mode (text_value s) e = (ok tt, s)
scan_mode src e = (unsupported "unsupported scan type for Mode: " src, e)

pub record NullMode : Type 0 where
  pub mode : Mode
  pub valid : Bool

abbrev pub with_mode : Result (Unit {0}) × Mode → Result (Unit {0}) × NullMode
with_mode (scanned, mode) = (scanned, record { mode = mode; valid = true })

-- NullMode.Scan
unfoldable pub scan_null_mode : DriverValue → NullMode → Result (Unit {0}) × NullMode
unfolding scan_mode
scan_null_mode nil_value ns = (ok tt, record { mode = ""; valid = false })
scan_null_mode value ns = with_mode (scan_mode value ns.mode)

-- NullMode.Value
unfoldable pub null_mode_value : NullMode → DriverValue
null_mode_value ns = if not ns.valid then nil_value else text_value ns.mode

-- TriggerFactors.Scan
unfoldable pub scan_trigger_factors : DriverValue → String → Result (Unit {0}) × String
scan_trigger_factors (bytes_value s) e = (ok tt, s)
scan_trigger_factors (text_value s) e = (ok tt, s)
scan_trigger_factors src e = (unsupported "unsupported scan type for TriggerFactors: " src, e)

pub record NullTriggerFactors : Type 0 where
  pub trigger_factors : String
  pub valid : Bool

abbrev pub with_trigger_factors :
    Result (Unit {0}) × String → Result (Unit {0}) × NullTriggerFactors
with_trigger_factors (scanned, factors) =
    (scanned, record { trigger_factors = factors; valid = true })

-- NullTriggerFactors.Scan
unfoldable pub scan_null_trigger_factors :
    DriverValue → NullTriggerFactors → Result (Unit {0}) × NullTriggerFactors
unfolding scan_trigger_factors
scan_null_trigger_factors nil_value ns = (ok tt, record { trigger_factors = ""; valid = false })
scan_null_trigger_factors value ns =
    with_trigger_factors (scan_trigger_factors value ns.trigger_factors)

-- NullTriggerFactors.Value
unfoldable pub null_trigger_factors_value : NullTriggerFactors → DriverValue
null_trigger_factors_value ns = if not ns.valid then nil_value else text_value ns.trigger_factors

-- The constants of TransactionDecision; the type is a string, and Scan takes any.
unfoldable pub decision_text : TransactionDecision → String
decision_text allow = "ALLOW"
decision_text flag = "FLAG"
decision_text block = "BLOCK"
decision_text mfa_required = "MFA_REQUIRED"

-- TransactionDecision.Scan
unfoldable pub scan_transaction_decision : DriverValue → String → Result (Unit {0}) × String
scan_transaction_decision (bytes_value s) e = (ok tt, s)
scan_transaction_decision (text_value s) e = (ok tt, s)
scan_transaction_decision src e =
    (unsupported "unsupported scan type for TransactionDecision: " src, e)

pub record NullTransactionDecision : Type 0 where
  pub transaction_decision : String
  pub valid : Bool

abbrev pub with_decision : Result (Unit {0}) × String → Result (Unit {0}) × NullTransactionDecision
with_decision (scanned, decision) =
    (scanned, record { transaction_decision = decision; valid = true })

-- NullTransactionDecision.Scan
unfoldable pub scan_null_transaction_decision :
    DriverValue → NullTransactionDecision → Result (Unit {0}) × NullTransactionDecision
unfolding scan_transaction_decision
scan_null_transaction_decision nil_value ns =
    (ok tt, record { transaction_decision = ""; valid = false })
scan_null_transaction_decision value ns =
    with_decision (scan_transaction_decision value ns.transaction_decision)

-- NullTransactionDecision.Value
unfoldable pub null_transaction_decision_value : NullTransactionDecision → DriverValue
null_transaction_decision_value ns =
    if not ns.valid then nil_value else text_value ns.transaction_decision

scan_null_mode-null_mode_value :
    (ns before : NullMode)
    → scan_null_mode (null_mode_value ns) before
      ≡ (ok tt, if ns.valid then ns else record { mode = ""; valid = false })
unfolding scan_null_mode scan_mode null_mode_value
scan_null_mode-null_mode_value ns before = elim (Bool-cases ns.valid) [
  | inl valid ↦ rw valid refl
  | inr null ↦ rw null refl
]

scan_null_trigger_factors-value :
    (ns before : NullTriggerFactors)
    → scan_null_trigger_factors (null_trigger_factors_value ns) before
      ≡ (ok tt, if ns.valid then ns else record { trigger_factors = ""; valid = false })
unfolding scan_null_trigger_factors scan_trigger_factors null_trigger_factors_value
scan_null_trigger_factors-value ns before = elim (Bool-cases ns.valid) [
  | inl valid ↦ rw valid refl
  | inr null ↦ rw null refl
]

scan_null_transaction_decision-value :
    (ns before : NullTransactionDecision)
    → scan_null_transaction_decision (null_transaction_decision_value ns) before
      ≡ (ok tt, if ns.valid then ns else record { transaction_decision = ""; valid = false })
unfolding scan_null_transaction_decision scan_transaction_decision null_transaction_decision_value
scan_null_transaction_decision-value ns before = elim (Bool-cases ns.valid) [
  | inl valid ↦ rw valid refl
  | inr null ↦ rw null refl
]

-- What Value of a nullable mode writes, Scan reads back, whatever was there: the mode if it is valid,
-- and the empty mode, not valid, otherwise. The same holds of trigger factors and of decisions.
scan_null_mode_lem :
    (ns before : NullMode) (fs old : NullTriggerFactors) (ds past : NullTransactionDecision)
    → (scan_null_mode (null_mode_value ns) before
        ≡ (ok tt, if ns.valid then ns else record { mode = ""; valid = false }))
      × (scan_null_trigger_factors (null_trigger_factors_value fs) old
          ≡ (ok tt, if fs.valid then fs else record { trigger_factors = ""; valid = false }))
      × (scan_null_transaction_decision (null_transaction_decision_value ds) past
          ≡ (ok tt, if ds.valid then ds else record { transaction_decision = ""; valid = false }))
scan_null_mode_lem ns before fs old ds past = (
  scan_null_mode-null_mode_value ns before,
  scan_null_trigger_factors-value fs old,
  scan_null_transaction_decision-value ds past,
)
