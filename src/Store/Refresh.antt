-- ===== src/Store/Refresh.antt =====
-- RecalculateUserProfile on the tables: what it stores, and when it fails.
use fraud_detection_lite.Prelude.{◌≡◌, ◌≢◌, ◌∙◌, refl, sym, ap, true, List, [], ◌∷◌, ◌++◌, length}
use fraud_detection_lite.Prelude.Int.{ℤ, pos}
use fraud_detection_lite.Specs.Error.{Error, Result, ok, err, >>=-ok}
use fraud_detection_lite.Repository.Models.{Transaction}
use fraud_detection_lite.Repository.Queries.{GetUserProfileByUserIdRow}
use fraud_detection_lite.Store.Tables.{World, Engine, cast_integer, or_zero, largest, out_of_range}
use fraud_detection_lite.Store.Transactions.{of_user, has_user, or_no_rows}
use fraud_detection_lite.Store.Profiles.{
  allowed_of, amounts, Amounts, amounts_of, profile_row, store_row, put_profile, find_profile,
  recalculate_user_profile, get_user_profile_by_user_id,
}
use fraud_detection_lite.Store.Profiles.Rows.{
  IsRowOf, profile_row-IsRowOf, find_profile-put_profile,
}
use fraud_detection_lite.Store.Profiles.Maximum.{
  IsTooLarge, largest-IsTooLarge, cast_integer-out_of_range,
}

-- What a refreshed profile holds: the row of all the transactions of the user, and their counts.
abbrev pub IsRefreshed : Engine → ℤ → List Transaction → GetUserProfileByUserIdRow → Type 0
IsRefreshed engine u ts row =
    IsRowOf engine u ts row
    × (row.total_transactions ≡ pos (length ts))
    × (row.allowed_transactions ≡ pos (length (allowed_of ts)))

module _ (engine : Engine) (u : ℤ) (w : World) where
  stored_row-IsRefreshed :
      (made : Result GetUserProfileByUserIdRow)
      → ((row : GetUserProfileByUserIdRow)
          → made ≡ ok row
          → IsRefreshed engine u (of_user u w.transactions) row)
      → (store_row engine made w).0 ≡ ok tt
      → (row : GetUserProfileByUserIdRow) × ((get_user_profile_by_user_id u
            (store_row engine made w).1).0
          ≡ ok row)
        × IsRefreshed engine u (of_user u w.transactions) row
  unfolding get_user_profile_by_user_id
  stored_row-IsRefreshed (ok row) f h =
      let refreshed = f row refl in
      (
        row,
        ap (λ v. or_no_rows (find_profile v (put_profile row w.profiles))) (sym refreshed.0.owner)
            ∙ ap or_no_rows (find_profile-put_profile row w.profiles),
        refreshed,
      )
  stored_row-IsRefreshed (err e) f h = cc

  -- Where RecalculateUserProfile succeeds for a user that exists, the profile that is read afterwards
  -- has the amounts, the modes and the hours of the user's transactions, and counts all of them and
  -- those that were allowed or flagged.
  pub recalculate_user_profile-IsRefreshed :
      has_user u w.users ≡ true
      → (recalculate_user_profile engine u w).0 ≡ ok tt
      → (row : GetUserProfileByUserIdRow) × ((get_user_profile_by_user_id u
            (recalculate_user_profile engine u w).1).0
          ≡ ok row)
        × IsRefreshed engine u (of_user u w.transactions) row
  unfolding recalculate_user_profile
  recalculate_user_profile-IsRefreshed known = rw known (
      stored_row-IsRefreshed (profile_row engine u (of_user u w.transactions) w.clock)
        (λ row made. profile_row-IsRowOf engine u (of_user u w.transactions) w.clock row made))

  amounts_of-fails :
      (ts : List Transaction) (a : Amounts)
      → cast_integer (or_zero (largest (amounts ts))) ≡ err out_of_range
      → amounts_of engine ts ≢ ok a
  unfolding amounts_of
  amounts_of-fails ts a large h =
      let (average, e1, h1) =
        >>=-ok (cast_integer (or_zero (engine.average (amounts (allowed_of ts))))) _ a h in
      let (deviation, e2, h2) =
        >>=-ok (cast_integer (or_zero (engine.deviation (amounts (allowed_of ts))))) _ a h1 in
      let (maximum, e3, h3) = >>=-ok (cast_integer (or_zero (largest (amounts ts)))) _ a h2 in
      both (sym large ∙ e3)
    where
      both : {m : ℤ} → err out_of_range ≡ ok m → ⊥
      both e = cc

  stored_row-fails :
      (made : Result GetUserProfileByUserIdRow)
      → ((row : GetUserProfileByUserIdRow) → made ≢ ok row)
      → (e : Error) × (store_row engine made w ≡ (err e, w))
  stored_row-fails (ok row) f = absurd (f row refl)
  stored_row-fails (err e) f = (e, refl)

  amounts-append :
      (before : List Transaction) (t : Transaction) (after : List Transaction)
      → amounts (before ++ t ∷ after) ≡ amounts before ++ t.amount ∷ amounts after
  amounts-append [] t after = refl
  amounts-append (b ∷ before) t after = ap (λ xs. b.amount ∷ xs) (amounts-append before t after)

  -- Where a user that exists has one transaction whose amount is 2 ^ 31 or more, NaN or positive
  -- infinity, RecalculateUserProfile gives an error and changes nothing, whatever AVG and STDDEV give
  -- and whatever the other transactions are.
  pub recalculate_user_profile-fails :
      (before : List Transaction) (t : Transaction) (after : List Transaction)
      → has_user u w.users ≡ true
      → of_user u w.transactions ≡ before ++ t ∷ after
      → IsTooLarge t.amount
      → (e : Error) × (recalculate_user_profile engine u w ≡ (err e, w))
  unfolding recalculate_user_profile
  recalculate_user_profile-fails before t after known split large =
      rw known (stored_row-fails (profile_row engine u (of_user u w.transactions) w.clock) never)
    where
      cast :
          cast_integer (or_zero (largest (amounts (of_user u w.transactions)))) ≡ err out_of_range
      cast = cast_integer-out_of_range _ (
          rw (split, amounts-append before t after)
            (largest-IsTooLarge (amounts before) t.amount (amounts after) large))

      never :
          (row : GetUserProfileByUserIdRow)
          → profile_row engine u (of_user u w.transactions) w.clock ≢ ok row
      never row made =
          let (of, total, allowed) =
            profile_row-IsRowOf engine u (of_user u w.transactions) w.clock row made in
          amounts_of-fails (of_user u w.transactions) of.amounts cast of.computed
