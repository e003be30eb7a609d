-- ===== src/Store/Rewrites.antt =====
-- What RecalculateUserProfile and RebuildAllUserProfiles do to the profiles.
use mathlib.Core.Path.{subst}
use fraud_detection_lite.Prelude.{
  ℕ, ◌≤◌, ◌≡◌, ◌∙◌, refl, sym, ap, Bool, true, Bool-cases, inl, inr, arith, List, [], ◌∷◌, keep,
  Every-mono, Every, length, length-keep, Option, some, none,
}
use fraud_detection_lite.Prelude.Int.{ℤ, pos}
use fraud_detection_lite.Time.{Time}
use fraud_detection_lite.Specs.Error.{Result, ok, err, >>=-ok}
use fraud_detection_lite.Repository.Models.{Transaction}
use fraud_detection_lite.Repository.Queries.{GetUserProfileByUserIdRow}
use fraud_detection_lite.Store.Tables.{World, Engine}
use fraud_detection_lite.Store.Transactions.{has_user, of_user}
use fraud_detection_lite.Store.Profiles.{
  allowed_of, profile_row, store_row, recalculate_user_profile, put_profile, find_profile,
  rebuilt_row, rebuild_users, store_rows, before_today, grouped_users, is_listed, total_of,
  allowed_count_of, update_all_profiles,
}
use fraud_detection_lite.Store.Profiles.Rows.{
  profile_row-IsRowOf, rebuilt_row-IsRowOf, Every-put_profile, find_profile-Every,
}
use fraud_detection_lite.Store.Invariant.{CountsAgree, IsOwned, IsOwnedProfile, IsConsistent}

-- Only profiles were put, and each profile satisfies P.
abbrev pub ProfilesPut {ℓ} : (GetUserProfileByUserIdRow → Type ℓ) → World → World → Type ℓ
ProfilesPut P w w' =
    (ps : List GetUserProfileByUserIdRow) × (w' ≡ record w { profiles = ps }) × Every P ps

pub Every-keep :
    {A : Type 0} (P : A → Type 0) (test : A → Bool) (given : List A)
    → Every P given
    → Every P (keep test given)
Every-keep P test [] h = tt
Every-keep P test (a ∷ rest) (ha, h) = elim (Bool-cases (test a)) [
  | inl kept ↦ rw kept (ha, Every-keep P test rest h)
  | inr left ↦ rw left (Every-keep P test rest h)
]

module _ (engine : Engine) where
  grouped_users-Every :
      (Q : ℤ → Type 0) (ts : List Transaction)
      → Every (λ (t : Transaction). Q t.user_id) ts
      → Every Q (grouped_users engine ts)
  grouped_users-Every Q [] h = tt
  grouped_users-Every Q (t ∷ ts) (ht, h) =
      elim (Bool-cases (is_listed engine t.user_id (grouped_users engine ts))) [
        | inl listed ↦ rw listed (grouped_users-Every Q ts h)
        | inr fresh ↦ rw fresh (ht, grouped_users-Every Q ts h)
      ]

  -- A predicate of the profiles that a recalculated and a rebuilt row satisfy.
  stored_row-ProfilesPut {ℓ} :
      (P : GetUserProfileByUserIdRow → Type ℓ) (made : Result GetUserProfileByUserIdRow) (w : World)
      → ((row : GetUserProfileByUserIdRow) → made ≡ ok row → P row)
      → Every P w.profiles
      → ProfilesPut P w (store_row engine made w).1
  stored_row-ProfilesPut P (ok row) w f h =
      (put_profile row w.profiles, refl, Every-put_profile P row w.profiles (f row refl) h)
  stored_row-ProfilesPut P (err e) w f h = (w.profiles, refl, h)

  rebuild_users-Every {ℓ} :
      (P : GetUserProfileByUserIdRow → Type ℓ) (Q : ℤ → Type 0) (us : List ℤ)
      (ts : List Transaction) (now : Time) (ps rows : List GetUserProfileByUserIdRow)
      → ((u : ℤ) (old : Option GetUserProfileByUserIdRow) (row : GetUserProfileByUserIdRow)
          → ((p : GetUserProfileByUserIdRow) → old ≡ some p → P p)
          → Q u
          → rebuilt_row engine u (of_user u ts) now old ≡ ok row
          → P row)
      → Every Q us
      → Every P ps
      → rebuild_users engine us ts now ps ≡ ok rows
      → Every P rows
  unfolding rebuild_users
  rebuild_users-Every P Q [] ts now ps rows f q h e = subst (Every P) (list_path e) h
    where
      list_path : {x y : List GetUserProfileByUserIdRow} → ok x ≡ ok y → x ≡ y
      list_path p = cc
  rebuild_users-Every P Q (u ∷ us) ts now ps rows f (qu, q) h e =
      let (row, made, e') =
        >>=-ok (rebuilt_row engine u (of_user u ts) now (find_profile u ps)) _ rows e in
      rebuild_users-Every P Q us ts now (put_profile row ps) rows f q
        (Every-put_profile P row ps
          (f u (find_profile u ps) row (λ p found. find_profile-Every P u ps p h found) qu made) h)
        e'

  stored_rows-ProfilesPut {ℓ} :
      (P : GetUserProfileByUserIdRow → Type ℓ) (made : Result (List GetUserProfileByUserIdRow))
      (w : World)
      → ((rows : List GetUserProfileByUserIdRow) → made ≡ ok rows → Every P rows)
      → Every P w.profiles
      → ProfilesPut P w (store_rows engine made w).1
  stored_rows-ProfilesPut P (ok rows) w f h = (rows, refl, f rows refl)
  stored_rows-ProfilesPut P (err e) w f h = (w.profiles, refl, h)

  pub recalculate_user_profile-ProfilesPut {ℓ} :
      (P : GetUserProfileByUserIdRow → Type ℓ) (u : ℤ) (w : World)
      → ((row : GetUserProfileByUserIdRow)
          → has_user u w.users ≡ true
          → profile_row engine u (of_user u w.transactions) w.clock ≡ ok row
          → P row)
      → Every P w.profiles
      → ProfilesPut P w (recalculate_user_profile engine u w).1
  unfolding recalculate_user_profile
  recalculate_user_profile-ProfilesPut P u w f h = elim (Bool-cases (has_user u w.users)) [
    | inl known ↦ rw known (
        stored_row-ProfilesPut P (profile_row engine u (of_user u w.transactions) w.clock) w
          (λ row made. f row known made) h)
    | inr unknown ↦ rw unknown (w.profiles, refl, h)
  ]

  pub update_all_profiles-ProfilesPut {ℓ} :
      (P : GetUserProfileByUserIdRow → Type ℓ) (Q : ℤ → Type 0) (w : World)
      → ((u : ℤ) (old : Option GetUserProfileByUserIdRow) (row : GetUserProfileByUserIdRow)
          → ((p : GetUserProfileByUserIdRow) → old ≡ some p → P p)
          → Q u
          → rebuilt_row engine u
              (of_user u (before_today engine w.clock w.transactions))
              w.clock
              old
            ≡ ok row
          → P row)
      → Every (λ (t : Transaction). Q t.user_id) w.transactions
      → Every P w.profiles
      → ProfilesPut P w (update_all_profiles engine w).1
  unfolding update_all_profiles
  update_all_profiles-ProfilesPut P Q w f q h =
      let ts = before_today engine w.clock w.transactions in
      stored_rows-ProfilesPut P
        (rebuild_users engine (grouped_users engine ts) ts w.clock w.profiles) w
        (λ rows e.
          rebuild_users-Every P Q (grouped_users engine ts) ts w.clock w.profiles rows f
            (grouped_users-Every Q ts
              (Every-keep (λ (t : Transaction). Q t.user_id) _ w.transactions q))
            h e)
        h

  agree :
      (row : GetUserProfileByUserIdRow) (m n : ℕ)
      → row.allowed_transactions ≡ pos m
      → row.total_transactions ≡ pos n
      → m ≤ n
      → CountsAgree row
  agree row m n a t l = ground (arith, a, t)

  put-IsConsistent :
      (w w' : World) → IsConsistent w → ProfilesPut (IsOwnedProfile w.users) w w' → IsConsistent w'
  put-IsConsistent w w' (owned, numbered, emails, counts) (ps, e, h) =
      subst IsConsistent (sym e) (owned, numbered, emails, h)

  pub recalculate_user_profile-IsConsistent :
      (u : ℤ) (w : World) → IsConsistent w → IsConsistent (recalculate_user_profile engine u w).1
  recalculate_user_profile-IsConsistent u w h =
      let ts = of_user u w.transactions in
      put-IsConsistent w _ h (
        recalculate_user_profile-ProfilesPut (IsOwnedProfile w.users) u w
          (λ row known e.
            let (of, total, allowed) = profile_row-IsRowOf engine u ts w.clock row e in
            (
              agree row (length (allowed_of ts)) (length ts) allowed total (length-keep _ ts),
              ap (λ v. has_user v w.users) of.owner ∙ known,
            ))
          h.3)

  old_counts :
      (old : Option GetUserProfileByUserIdRow) (row : GetUserProfileByUserIdRow)
      → ((p : GetUserProfileByUserIdRow) → old ≡ some p → CountsAgree p)
      → row.total_transactions ≡ total_of engine old
      → row.allowed_transactions ≡ allowed_count_of engine old
      → CountsAgree row
  old_counts (some p) row f t a = rw (a, t) (f p refl)
  old_counts none row f t a = agree row 0 0 a t (omega arith)

  pub update_all_profiles-IsConsistent :
      (w : World) → IsConsistent w → IsConsistent (update_all_profiles engine w).1
  update_all_profiles-IsConsistent w h = put-IsConsistent w _ h (
      update_all_profiles-ProfilesPut (IsOwnedProfile w.users) (λ u. has_user u w.users ≡ true) w
        (λ u old row f known e.
          let (of, total, allowed) = rebuilt_row-IsRowOf engine u _ w.clock row old e in
          (
            old_counts old row (λ p found. (f p found).0) total allowed,
            ap (λ v. has_user v w.users) of.owner ∙ known,
          ))
        (Every-mono (IsOwned w.users) _ w.transactions (λ t o. o.0) h.0) h.3)
