-- ===== src/Helpers/Conversions.antt =====
-- What the conversions of rows and profiles keep.
use mathlib.Core.List.{append-nil, append_assoc}
use fraud_detection_lite.Prelude.{◌≡◌, ◌∙◌, sym, ap, String, List, [], ◌∷◌, ◌++◌}
use fraud_detection_lite.Repository.Models.{Mode}
use fraud_detection_lite.Repository.Queries.{GetUserProfileByUserIdRow}
use fraud_detection_lite.Service.Transaction.{domain_profile, append_modes, null_int}
use fraud_detection_lite.Helpers.Jobs.{
  append_strings, get_string_slice_from_mode_slice, get_mode_slice_from_string_slice,
  map_db_profile_to_domain,
}

append_modes_lem : (copied : List Mode) (ms : List String) → append_modes copied ms ≡ copied ++ ms
unfolding append_modes
append_modes_lem copied [] = sym (append-nil copied)
append_modes_lem copied (m ∷ ms) =
    append_modes_lem (copied ++ m ∷ []) ms ∙ append_assoc copied (m ∷ []) ms

append_strings_lem : (copied ss : List String) → append_strings copied ss ≡ copied ++ ss
unfolding append_strings
append_strings_lem copied [] = sym (append-nil copied)
append_strings_lem copied (s ∷ ss) =
    append_strings_lem (copied ++ s ∷ []) ss ∙ append_assoc copied (s ∷ []) ss

-- MapDBProfileToDomain of a row is the profile that CreateTransaction makes of it, but that it has no
-- standard deviation; and both conversions of modes give back what they are given.
map_db_profile_to_domain_lem :
    (row : GetUserProfileByUserIdRow)
    → (map_db_profile_to_domain row
        ≡ record (domain_profile row) { std_dev_transaction_amount = null_int })
      × (get_string_slice_from_mode_slice (map_db_profile_to_domain row).registered_payment_modes
          ≡ row.registered_payment_modes)
unfolding map_db_profile_to_domain domain_profile get_mode_slice_from_string_slice
    get_string_slice_from_mode_slice
map_db_profile_to_domain_lem row = (
  ap
      (λ (modes : List Mode). record (domain_profile row) {
        registered_payment_modes = modes;
        std_dev_transaction_amount = null_int;
      })
      (append_strings_lem [] row.registered_payment_modes
        ∙ sym (append_modes_lem [] row.registered_payment_modes)),
  append_strings_lem [] (append_strings [] row.registered_payment_modes)
      ∙ append_strings_lem [] row.registered_payment_modes,
)
