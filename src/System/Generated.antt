-- ===== src/System/Generated.antt =====
-- The upload of a file of generate_csv.go to the tables.
use fraud_detection_lite.Prelude.{
  ℕ, suc, ◌+◌, ◌≤◌, ◌≡◌, refl, ap, ◌∙◌, List, [], ◌∷◌, String, false, arith, Bool-cases, inl, inr,
  if◌then◌else◌, length, map, str_eq, str_eq_iff,
}
use fraud_detection_lite.Prelude.Int.{ℤ, pos}
use fraud_detection_lite.Specs.Error.{Result, ok, other}
use fraud_detection_lite.Repository.Queries.{CreateTransactionParams}
use fraud_detection_lite.Service.Environment.{Environment}
use fraud_detection_lite.Service.Bulk.{process_opened}
use fraud_detection_lite.Service.Bulk.Refused.{
  Fails, is_hopeful, hopeful_rows, process_opened-hopeful,
}
use fraud_detection_lite.Store.Tables.{World, Engine, is_mode}
use fraud_detection_lite.Store.Interfaces.{queries}
use fraud_detection_lite.Store.Transactions.{create_transaction}
use fraud_detection_lite.Generator.{Row, Formats, csv_record}

-- An INSERT with a mode outside the enumeration fails.
create_transaction_unknown :
    (p : CreateTransactionParams) (w : World)
    → is_mode p.mode ≡ false
    → Fails (create_transaction p w).0
unfolding create_transaction
create_transaction_unknown p w e = rw e (other "invalid input value for enum mode", refl)

-- The rows of the case of a new payment mode, or rather of its mode.
abbrev pub crypto_rows : List Row → ℕ
crypto_rows [] = 0
crypto_rows (r ∷ rs) =
    let later = crypto_rows rs in if str_eq r.mode "CRYPTO" then 1 + later else later

-- The file as encoding/csv reads it back.
abbrev pub uploaded : Formats → List Row → List (Result (List String))
uploaded formats made = map (λ r. ok (csv_record formats r)) made

module _ (env : Environment World) (formats : Formats)
    (spelt : env.to_upper (env.trim_space "CRYPTO") ≡ "CRYPTO") where
  is_hopeful_crypto :
      (r : Row) → r.mode ≡ "CRYPTO" → is_hopeful env is_mode (ok (csv_record formats r)) ≡ 0
  is_hopeful_crypto r e =
      ap (λ (m : String). if is_mode (env.to_upper (env.trim_space m)) then 1 else 0) e
      ∙ ap (λ (m : String). if is_mode m then 1 else 0) spelt

  is_hopeful-le : (r : Row) → is_hopeful env is_mode (ok (csv_record formats r)) ≤ 1
  is_hopeful-le r = elim (Bool-cases (is_mode (env.to_upper (env.trim_space r.mode)))) [
    | inl known ↦ rw known (omega arith)
    | inr unknown ↦ rw unknown (omega arith)
  ]

  hopeful_rows-uploaded :
      (made : List Row)
      → hopeful_rows env is_mode (uploaded formats made) + crypto_rows made ≤ length made
  hopeful_rows-uploaded [] = omega arith
  hopeful_rows-uploaded (r ∷ rs) = elim (Bool-cases (str_eq r.mode "CRYPTO")) [
    | inl crypto ↦ rw crypto (
        omega (
          arith,
          is_hopeful_crypto r ((str_eq_iff r.mode "CRYPTO").0 crypto),
          hopeful_rows-uploaded rs,
        ))
    | inr plain ↦ rw plain (omega (arith, is_hopeful-le r, hopeful_rows-uploaded rs))
  ]

  length-uploaded : (made : List Row) → length (uploaded formats made) ≡ length made
  length-uploaded [] = refl
  length-uploaded (r ∷ rs) = ap suc (length-uploaded rs)

  -- Where upper-casing leaves CRYPTO as it is: an upload of rows of the data generator to the tables
  -- reports each row once, and among the failures every row with the mode CRYPTO, which the generator
  -- writes for a new payment mode.
  pub process_opened-refuses :
      (engine : Engine) (user_id : ℤ) (made : List Row) (w : World)
      → let response = (process_opened env (queries engine) user_id (uploaded formats made) w).0 in
        (good bad : ℕ) × (response.success ≡ pos good)
        × (response.failed ≡ pos bad)
        × (good + bad ≡ length made)
        × (crypto_rows made ≤ bad)
  process_opened-refuses engine user_id made w =
      let (good, bad, won, lost, all, few) =
        process_opened-hopeful env (queries engine) user_id is_mode create_transaction_unknown
          (uploaded formats made) w in
      (
        good,
        bad,
        won,
        lost,
        all ∙ length-uploaded made,
        omega (arith, all, few, hopeful_rows-uploaded made, length-uploaded made),
      )
