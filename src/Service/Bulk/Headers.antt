-- ===== src/Service/Bulk/Headers.antt =====
-- The test of the headers of an upload.
use fraud_detection_lite.Prelude.{◌≡◌, ◌∙◌, refl, ap, false, none, List, [], ◌∷◌, String}
use fraud_detection_lite.Prelude.Int.{ℤ}
use fraud_detection_lite.Prelude.Text.{has_suffix}
use fraud_detection_lite.Specs.Error.{ok}
use fraud_detection_lite.Repository.Queries.{Queries}
use fraud_detection_lite.Service.Environment.{Environment, Upload}
use fraud_detection_lite.Service.Bulk.{
  has_unexpected_headers, open_csv, with_headers, with_csv, open_file, process_file, panic,
  process_bulk_transactions,
}

-- Fewer than the three headers, which are as expected as far as they go.
abbrev pub IsTruncated : (String → String) → List String → Type 0
IsTruncated to_lower [] = Unit
IsTruncated to_lower (a ∷ []) = to_lower a ≡ "amount"
IsTruncated to_lower (a ∷ m ∷ []) = (to_lower a ≡ "amount") × (to_lower m ≡ "mode")
IsTruncated to_lower (a ∷ m ∷ c ∷ hs) = ⊥

pub has_unexpected_headers_truncated :
    (to_lower : String → String) (hs : List String)
    → IsTruncated to_lower hs
    → has_unexpected_headers to_lower hs ≡ none
unfolding has_unexpected_headers
has_unexpected_headers_truncated to_lower [] h = refl
has_unexpected_headers_truncated to_lower (a ∷ []) h = rw h refl
has_unexpected_headers_truncated to_lower (a ∷ m ∷ []) (h, k) = rw (h, k) refl
has_unexpected_headers_truncated to_lower (a ∷ m ∷ c ∷ hs) h = elim h [ ]

-- A CSV upload whose header row is readable and has fewer than three columns, with the expected
-- names as far as they go, panics and leaves the state as it was.
pub process_bulk_transactions_truncated :
    {S : Type 0} (env : Environment S) (queries : Queries S) (user_id : ℤ) (file : Upload)
    (filename : String) (s : S) (hs : List String)
    → has_suffix (env.to_lower filename) ".xlsx" ≡ false
    → file.csv_headers ≡ ok hs
    → IsTruncated env.to_lower hs
    → process_bulk_transactions env queries user_id file filename s ≡ (panic, s)
unfolding process_bulk_transactions process_file open_csv
process_bulk_transactions_truncated env queries user_id file filename s hs f e h =
    ap (λ x. process_file env queries user_id (open_file env.to_lower x file) s) f
    ∙ ap (λ r. process_file env queries user_id (with_csv env.to_lower r file.csv_rows) s) e
    ∙ ap (λ b. process_file env queries user_id (with_headers b file.csv_rows) s)
        (has_unexpected_headers_truncated env.to_lower hs h)
