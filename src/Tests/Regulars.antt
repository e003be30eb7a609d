-- ===== src/Tests/Regulars.antt =====
-- A user with a dozen transactions.
use fraud_detection_lite.Prelude.{ℕ, zero, suc, ◌≢◌, refl, [], arith}
use fraud_detection_lite.Prelude.Int.{pos}
use fraud_detection_lite.Float.Ops.{min_float, max_float, div, from_ℤ}
use fraud_detection_lite.Float.Order.{◌⊑◌}
use fraud_detection_lite.Float.Literals.{lit_mono}
use fraud_detection_lite.Constants.{lit}
use fraud_detection_lite.Specs.Error.{Result, ok, err}
use fraud_detection_lite.Repository.Models.{block}
use fraud_detection_lite.Repository.Queries.{GetUserProfileByUserIdRow}
use fraud_detection_lite.Service.Transaction.{prepare_transaction}
use fraud_detection_lite.Store.Tables.{World, cast_integer, largest}
use fraud_detection_lite.Store.Transactions.{create_transaction}
use fraud_detection_lite.Store.Users.{create_user}
use fraud_detection_lite.Store.Profiles.{
  recalculate_user_profile, get_user_profile_by_user_id, extreme, put_profile,
}
use fraud_detection_lite.Store.Interfaces.{queries}
use fraud_detection_lite.System.{Reach, here, then_step, insert, register, recalculate}
use fraud_detection_lite.System.Sane.{prepare_transaction-ne-block}
use fraud_detection_lite.Tests.Samples.{noon, request, user_row}
use fraud_detection_lite.Tests.Worlds.{engine, shop, bea, empty, joined, purchase}

abbrev found_or :
    GetUserProfileByUserIdRow → Result GetUserProfileByUserIdRow → GetUserProfileByUserIdRow
found_or other (ok row) = row
found_or other (err e) = other

-- The tables after n transactions of one user, and after the recalculation of the profile.
abbrev shopping : ℕ → World
shopping zero = joined
shopping (suc n) = (create_transaction (purchase 100) (shopping n)).1

shopping-Reach : (n : ℕ) → Reach engine empty (shopping n)
shopping-Reach zero = then_step here (register bea)
shopping-Reach (suc n) = then_step (shopping-Reach n) (insert (purchase 100))

abbrev regular : World
regular = (recalculate_user_profile engine (pos 1) (shopping 12)).1

-- The row that the recalculation stores.
abbrev regular_row : GetUserProfileByUserIdRow
regular_row = found_or (user_row 0 0) (get_user_profile_by_user_id (pos 1) regular).0

prepare_transaction-ne-block_example :
    (prepare_transaction shop (queries engine) (pos 1) request regular).0.decision ≢ block
unfolding create_user create_transaction recalculate_user_profile cast_integer largest lit min_float
    max_float put_profile div from_ℤ extreme get_user_profile_by_user_id
prepare_transaction-ne-block_example =
    prepare_transaction-ne-block shop engine [] noon (pos 1) request regular regular_row
      (then_step (shopping-Reach 12) (recalculate (pos 1)))
      (d, (d, (d, (d, (d, (d, (d, (d, (d, (d, (d, (d, tt)))))))))))) (omega arith) refl
      (omega arith)
  where
    d : lit 0 ⊑ lit 100
    d = lit_mono {m = 0} {n = 100} (omega arith)
