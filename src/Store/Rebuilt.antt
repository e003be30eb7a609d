-- ===== src/Store/Rebuilt.antt =====
-- RebuildAllUserProfiles, user by user: whose profile it rewrites, and what it stores.
use mathlib.Core.Path.{subst}
use fraud_detection_lite.Prelude.{
  ◌≡◌, ◌∙◌, refl, sym, ap, Bool, true, false, Bool-cases, ◌⊎◌, inl, inr, List, [], ◌∷◌, Option,
  some, if◌then◌else◌,
}
use fraud_detection_lite.Prelude.Int.{ℤ, eqb_ℤ, eqb→path}
use fraud_detection_lite.Time.{Time}
use fraud_detection_lite.Specs.Error.{Result, ok, err, >>=-ok}
use fraud_detection_lite.Repository.Models.{Transaction}
use fraud_detection_lite.Repository.Queries.{GetUserProfileByUserIdRow}
use fraud_detection_lite.Store.Tables.{World, Engine}
use fraud_detection_lite.Store.Transactions.{of_user}
use fraud_detection_lite.Store.Profiles.{
  put_profile, find_profile, rebuilt_row, rebuild_users, store_rows, before_today, grouped_users,
  is_listed, total_of, allowed_count_of, update_all_profiles,
}
use fraud_detection_lite.Store.Profiles.Rows.{
  IsRowOf, rebuilt_row-IsRowOf, find_profile-put_profile, find_profile-put_profile_other,
}

-- Whether there are any.
abbrev has_any : {A : Type 0} → List A → Bool
has_any [] = false
has_any (a ∷ rest) = true

List-cases :
    {A : Type 0} (given : List A) → (given ≡ []) ⊎ ((a : A) × (rest : List A) × (given ≡ a ∷ rest))
List-cases [] = inl refl
List-cases (a ∷ rest) = inr (a, rest, refl)

module _ (engine : Engine) (u : ℤ) where
  is_listed-same :
      (v : ℤ) (us : List ℤ) → eqb_ℤ v u ≡ true → is_listed engine v us ≡ is_listed engine u us
  is_listed-same v us h = ap (λ a. is_listed engine a us) (eqb→path v u h)

  -- The groups are of the users that have transactions.
  grouped_users-lists :
      (ts : List Transaction)
      → is_listed engine u (grouped_users engine ts) ≡ has_any (of_user u ts)
  grouped_users-lists [] = refl
  grouped_users-lists (t ∷ ts) = elim (Bool-cases (eqb_ℤ t.user_id u)) [
    | inl own ↦ elim (Bool-cases (is_listed engine t.user_id (grouped_users engine ts))) [
      | inl listed ↦
          rw (own, listed) (sym (is_listed-same t.user_id (grouped_users engine ts) own) ∙ listed)
      | inr fresh ↦ rw (own, fresh, own) refl
    ]
    | inr other ↦ elim (Bool-cases (is_listed engine t.user_id (grouped_users engine ts))) [
      | inl listed ↦ rw (other, listed) (grouped_users-lists ts)
      | inr fresh ↦ rw (other, fresh, other) (grouped_users-lists ts)
    ]
  ]

  -- A profile of the user's transactions, with the counts of the one before.
  abbrev pub IsRebuilt :
      List Transaction
      → Option GetUserProfileByUserIdRow
      → Option GetUserProfileByUserIdRow
      → Type 0
  IsRebuilt ts old found =
      (row : GetUserProfileByUserIdRow) × (found ≡ some row)
      × IsRowOf engine u ts row
      × (row.total_transactions ≡ total_of engine old)
      × (row.allowed_transactions ≡ allowed_count_of engine old)

  listed_later :
      (v : ℤ) (us : List ℤ) (b : Bool)
      → eqb_ℤ v u ≡ false
      → is_listed engine u (v ∷ us) ≡ b
      → is_listed engine u us ≡ b
  listed_later v us b other h = sym (ap (λ c. if c then true else is_listed engine u us) other) ∙ h

  not_first : (v : ℤ) (us : List ℤ) → is_listed engine u (v ∷ us) ≡ false → eqb_ℤ v u ≡ false
  not_first v us h = elim (Bool-cases (eqb_ℤ v u)) [
    | inl same ↦ absurd (never (sym (ap (λ c. if c then true else is_listed engine u us) same) ∙ h))
    | inr other ↦ other
  ]
    where
      never : true ≡ false → ⊥
      never e = cc

  module _ (ts : List Transaction) (now : Time) where
    -- The row of another user leaves the profile of this one.
    rebuilt_row-leaves :
        (v : ℤ) (old : Option GetUserProfileByUserIdRow) (row : GetUserProfileByUserIdRow)
        (ps : List GetUserProfileByUserIdRow)
        → eqb_ℤ v u ≡ false
        → rebuilt_row engine v (of_user v ts) now old ≡ ok row
        → find_profile u (put_profile row ps) ≡ find_profile u ps
    rebuilt_row-leaves v old row ps other made =
        let (of, total, allowed) = rebuilt_row-IsRowOf engine v (of_user v ts) now row old made in
        find_profile-put_profile_other u row ps (ap (λ a. eqb_ℤ a u) of.owner ∙ other)

    rebuild_users-leaves :
        (us : List ℤ) (ps rows : List GetUserProfileByUserIdRow)
        → is_listed engine u us ≡ false
        → rebuild_users engine us ts now ps ≡ ok rows
        → find_profile u rows ≡ find_profile u ps
    unfolding rebuild_users
    rebuild_users-leaves [] ps rows h e = ap (find_profile u) (sym (list_path e))
      where
        list_path : {x y : List GetUserProfileByUserIdRow} → ok x ≡ ok y → x ≡ y
        list_path p = cc
    rebuild_users-leaves (v ∷ us) ps rows h e =
        let other = not_first v us h in
        let (row, made, e') =
          >>=-ok (rebuilt_row engine v (of_user v ts) now (find_profile v ps)) _ rows e in
        rebuild_users-leaves us (put_profile row ps) rows (listed_later v us false other h) e'
        ∙ rebuilt_row-leaves v (find_profile v ps) row ps other made

    -- The row of this user is found.
    rebuilt_row-IsRebuilt :
        (v : ℤ) (row : GetUserProfileByUserIdRow) (ps : List GetUserProfileByUserIdRow)
        → v ≡ u
        → rebuilt_row engine v (of_user v ts) now (find_profile v ps) ≡ ok row
        → IsRebuilt (of_user u ts) (find_profile u ps) (find_profile u (put_profile row ps))
    rebuilt_row-IsRebuilt v row ps same made =
        let (of, total, allowed) =
          rebuilt_row-IsRowOf engine u (of_user u ts) now row (find_profile u ps) (
            subst (λ a. rebuilt_row engine a (of_user a ts) now (find_profile a ps) ≡ ok row) same
              made) in
        (
          row,
          ap (λ a. find_profile a (put_profile row ps)) (sym of.owner)
              ∙ find_profile-put_profile row ps,
          of,
          total,
          allowed,
        )

    -- A profile that is rebuilt once more keeps the counts.
    IsRebuilt-again :
        (old before after : Option GetUserProfileByUserIdRow)
        → IsRebuilt (of_user u ts) old before
        → IsRebuilt (of_user u ts) before after
        → IsRebuilt (of_user u ts) old after
    IsRebuilt-again old before after (row, found, of, total, allowed)
          (row', found', of', total', allowed') =
        (
          row',
          found',
          of',
          total' ∙ ap (total_of engine) found ∙ total,
          allowed' ∙ ap (allowed_count_of engine) found ∙ allowed,
        )

    rebuild_users-IsRebuilt :
        (us : List ℤ) (ps rows : List GetUserProfileByUserIdRow)
        → is_listed engine u us ≡ true
        → rebuild_users engine us ts now ps ≡ ok rows
        → IsRebuilt (of_user u ts) (find_profile u ps) (find_profile u rows)
    unfolding rebuild_users
    rebuild_users-IsRebuilt [] ps rows h e = cc
    rebuild_users-IsRebuilt (v ∷ us) ps rows h e =
        let (row, made, e') =
          >>=-ok (rebuilt_row engine v (of_user v ts) now (find_profile v ps)) _ rows e in
        elim (Bool-cases (eqb_ℤ v u)) [
          | inl same ↦
              let once = rebuilt_row-IsRebuilt v row ps (eqb→path v u same) made in
              elim (Bool-cases (is_listed engine u us)) [
                | inl listed ↦
                    IsRebuilt-again (find_profile u ps) _ (find_profile u rows) once
                      (rebuild_users-IsRebuilt us (put_profile row ps) rows listed e')
                | inr last ↦
                    subst (IsRebuilt (of_user u ts) (find_profile u ps))
                      (sym (rebuild_users-leaves us (put_profile row ps) rows last e')) once
              ]
          | inr other ↦
              subst (λ old. IsRebuilt (of_user u ts) old (find_profile u rows))
                (rebuilt_row-leaves v (find_profile v ps) row ps other made)
                (rebuild_users-IsRebuilt us (put_profile row ps) rows
                  (listed_later v us true other h) e')
        ]

  -- What the job does with the profile of the user.
  abbrev pub Rebuilds : List Transaction → World → World → Type 0
  Rebuilds ts w w' =
      ((ts ≡ []) × (find_profile u w'.profiles ≡ find_profile u w.profiles))
      ⊎ ((t : Transaction) × (rest : List Transaction) × (ts ≡ t ∷ rest)
          × IsRebuilt ts (find_profile u w.profiles) (find_profile u w'.profiles))

  stored_rows-Rebuilds :
      (w : World) (made : Result (List GetUserProfileByUserIdRow))
      → ((rows : List GetUserProfileByUserIdRow)
          → made ≡ ok rows
          → Rebuilds
              (of_user u (before_today engine w.clock w.transactions))
              w
              (record w { profiles = rows }))
      → (store_rows engine made w).0 ≡ ok tt
      → Rebuilds
          (of_user u (before_today engine w.clock w.transactions))
          w
          (store_rows engine made w).1
  stored_rows-Rebuilds w (ok rows) f h = f rows refl
  stored_rows-Rebuilds w (err e) f h = cc

  rebuild_users-Rebuilds :
      (ts : List Transaction) (w : World) (rows : List GetUserProfileByUserIdRow)
      → rebuild_users engine (grouped_users engine ts) ts w.clock w.profiles ≡ ok rows
      → Rebuilds (of_user u ts) w (record w { profiles = rows })
  rebuild_users-Rebuilds ts w rows e = elim (List-cases (of_user u ts)) [
    | inl no_rows ↦ inl (
      no_rows,
      rebuild_users-leaves ts w.clock (grouped_users engine ts) w.profiles rows
          (grouped_users-lists ts ∙ ap has_any no_rows) e,
    )
    | inr (t, rest, some_rows) ↦ inr (
      t,
      rest,
      some_rows,
      rebuild_users-IsRebuilt ts w.clock (grouped_users engine ts) w.profiles rows
          (grouped_users-lists ts ∙ ap has_any some_rows) e,
    )
  ]

  -- Where the job of midnight succeeds: the profile of a user with transactions before today is computed
  -- from exactly these, its amounts, modes and hours, and keeps its two counts, or starts them at 0. A
  -- user without such transactions has the profile from before, or still none.
  pub update_all_profiles-Rebuilds :
      (w : World)
      → (update_all_profiles engine w).0 ≡ ok tt
      → Rebuilds
          (of_user u (before_today engine w.clock w.transactions))
          w
          (update_all_profiles engine w).1
  unfolding update_all_profiles
  update_all_profiles-Rebuilds w =
      let ts = before_today engine w.clock w.transactions in
      stored_rows-Rebuilds w (rebuild_users engine (grouped_users engine ts) ts w.clock w.profiles)
        (rebuild_users-Rebuilds ts w)
