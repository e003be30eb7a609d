-- ===== src/Store/Learns.antt =====
-- The two statements that write profiles, RecalculateUserProfile and RebuildAllUserProfiles of
-- internal/repository/user_behavior_profile.sql.go, against what a profile should hold.
use mathlib.Core.Path.{subst}
use fraud_detection_lite.Prelude.{
  ℕ, ◌*◌, ◌/◌, ◌≡◌, ◌∙◌, refl, sym, ap, arith, Bool, true, false, Bool-cases, ◌&&◌, ltb, inl, inr,
  List, [], ◌∷◌, Option, none, some, length, keep, lt→ltb, ltb→lt, if◌then◌else◌,
}
use fraud_detection_lite.Prelude.Int.{ℤ, pos, eqb_ℤ}
use fraud_detection_lite.Time.{Time}
use fraud_detection_lite.Specs.Error.{ok}
use fraud_detection_lite.Repository.Models.{Transaction}
use fraud_detection_lite.Repository.Queries.{GetUserProfileByUserIdRow}
use fraud_detection_lite.Store.Tables.{World, Engine}
use fraud_detection_lite.Store.Transactions.{of_user, has_user}
use fraud_detection_lite.Store.Profiles.{
  find_profile, total_of, allowed_count_of, before_today, recalculate_user_profile,
  get_user_profile_by_user_id, update_all_profiles,
}
use fraud_detection_lite.Store.Profiles.Learned.{
  approved, IsLearned, allowed_of-approved, IsRowOf-IsLearned,
}
use fraud_detection_lite.Store.Profiles.Rows.{IsRowOf}
use fraud_detection_lite.Store.Refresh.{recalculate_user_profile-IsRefreshed}
use fraud_detection_lite.Store.Rebuilt.{Rebuilds, update_all_profiles-Rebuilds}

-- The rows of the table that are the user's.
abbrev pub owned_by : ℤ → List Transaction → List Transaction
owned_by u ts = keep (λ (t : Transaction). eqb_ℤ t.user_id u) ts

-- Those of them whose date is before that of a time.
abbrev pub of_earlier_days : Engine → ℤ → Time → List Transaction → List Transaction
of_earlier_days engine u now ts =
    keep
      (λ (t : Transaction).
        eqb_ℤ t.user_id u && ltb (engine.wall t.created_at.time / 86400) (engine.wall now / 86400))
      ts

-- The counts of the profile in place, or none.
abbrev pub KeepsCounts : Option GetUserProfileByUserIdRow → GetUserProfileByUserIdRow → Type 0
KeepsCounts none row = (row.total_transactions ≡ pos 0) × (row.allowed_transactions ≡ pos 0)
KeepsCounts (some p) row =
    (row.total_transactions ≡ p.total_transactions)
    × (row.allowed_transactions ≡ p.allowed_transactions)

-- What the job makes of the profile of a user with the transactions: none leave it as it was.
abbrev pub Relearns :
    Engine
    → ℤ
    → List Transaction
    → Option GetUserProfileByUserIdRow
    → Option GetUserProfileByUserIdRow
    → Type 0
Relearns engine u [] old new = new ≡ old
Relearns engine u (t ∷ ts) old new =
    (row : GetUserProfileByUserIdRow) × (new ≡ some row)
    × IsLearned engine u (t ∷ ts) row
    × KeepsCounts old row

KeepsCounts-lem :
    (engine : Engine) (old : Option GetUserProfileByUserIdRow) (row : GetUserProfileByUserIdRow)
    → row.total_transactions ≡ total_of engine old
    → row.allowed_transactions ≡ allowed_count_of engine old
    → KeepsCounts old row
KeepsCounts-lem engine none row t a = (t, a)
KeepsCounts-lem engine (some p) row t a = (t, a)

earlier_day : (a b : ℕ) → ltb a (b / 86400 * 86400) ≡ ltb (a / 86400) (b / 86400)
earlier_day a b = elim (Bool-cases (ltb a (b / 86400 * 86400))) [
  | inl less ↦ less ∙ sym (lt→ltb (a / 86400) (b / 86400) (omega (arith, ltb→lt _ _ less)))
  | inr not_less ↦ elim (Bool-cases (ltb (a / 86400) (b / 86400))) [
    | inl day_less ↦
        lt→ltb a (b / 86400 * 86400) (omega (arith, ltb→lt _ _ day_less)) ∙ sym day_less
    | inr same ↦ not_less ∙ sym same
  ]
]

keep-one :
    (q : Transaction → Bool) (t : Transaction) (kept rest : List Transaction) (b c s : Bool)
    → b ≡ c
    → q t ≡ s
    → keep q kept ≡ rest
    → keep q (if b then t ∷ kept else kept) ≡ (if s && c then t ∷ rest else rest)
keep-one q t kept rest true true true e f h =
    ap (λ x. if x then t ∷ keep q kept else keep q kept) f ∙ ap (λ xs. t ∷ xs) h
keep-one q t kept rest true true false e f h =
    ap (λ x. if x then t ∷ keep q kept else keep q kept) f ∙ h
keep-one q t kept rest true false s e f h = cc
keep-one q t kept rest false true s e f h = cc
keep-one q t kept rest false false true e f h = h
keep-one q t kept rest false false false e f h = h

keep-keep :
    (p p' q : Transaction → Bool) (ts : List Transaction)
    → ((t : Transaction) → p t ≡ p' t)
    → keep q (keep p ts) ≡ keep (λ t. q t && p' t) ts
keep-keep p p' q [] f = refl
keep-keep p p' q (t ∷ ts) f =
    keep-one q t (keep p ts) (keep (λ x. q x && p' x) ts) (p t) (p' t) (q t) (f t) refl
      (keep-keep p p' q ts f)

module _ (engine : Engine) (u : ℤ) (w : World) where
  -- Where RecalculateUserProfile succeeds for a user that exists, the profile that is read afterwards
  -- holds, of the transactions of the user: the average and the standard deviation of the amounts that
  -- were allowed or flagged, and the largest of all amounts, each rounded to an int32, and 0 for none;
  -- those of UPI, CARD and NETBANKING that an allowed or flagged one was paid by; the earliest and the
  -- latest time of these, if any; and it counts all, and those that were allowed or flagged.
  pub recalculate_user_profile-learns :
      has_user u w.users ≡ true
      → (recalculate_user_profile engine u w).0 ≡ ok tt
      → (row : GetUserProfileByUserIdRow) × ((get_user_profile_by_user_id u
            (recalculate_user_profile engine u w).1).0
          ≡ ok row)
        × IsLearned engine u (owned_by u w.transactions) row
        × (row.total_transactions ≡ pos (length (owned_by u w.transactions)))
        × (row.allowed_transactions ≡ pos (length (approved (owned_by u w.transactions))))
  recalculate_user_profile-learns known done =
      let (row, read, (of, total, allowed)) =
        recalculate_user_profile-IsRefreshed engine u w known done in
      (
        row,
        read,
        IsRowOf-IsLearned engine u (owned_by u w.transactions) row of,
        total,
        allowed ∙ ap (λ ts. pos (length ts)) (allowed_of-approved (owned_by u w.transactions)),
      )

  Rebuilds-Relearns :
      (w' : World) (ts : List Transaction)
      → Rebuilds engine u ts w w'
      → Relearns engine u ts (find_profile u w.profiles) (find_profile u w'.profiles)
  Rebuilds-Relearns w' ts (inl (none_made, same)) =
      subst (λ xs. Relearns engine u xs (find_profile u w.profiles) (find_profile u w'.profiles))
        (sym none_made) same
  Rebuilds-Relearns w' ts (inr (t, rest, some_made, (row, found, of, total, allowed))) =
      subst (λ xs. Relearns engine u xs (find_profile u w.profiles) (find_profile u w'.profiles))
        (sym some_made)
        (
          row,
          found,
          IsRowOf-IsLearned engine u (t ∷ rest) row
              (subst (λ xs. IsRowOf engine u xs row) some_made of),
          KeepsCounts-lem engine (find_profile u w.profiles) row total allowed,
        )

  -- Where the job of midnight succeeds: a user with transactions of any day before today has a profile
  -- that holds of exactly these what a recalculated profile holds of all, but for the counts, which
  -- stay those of the profile in place, or start at 0. A user without such transactions has the
  -- profile from before, or still none.
  pub update_all_profiles-learns :
      (update_all_profiles engine w).0 ≡ ok tt
      → Relearns engine u
          (of_earlier_days engine u w.clock w.transactions)
          (find_profile u w.profiles)
          (find_profile u (update_all_profiles engine w).1.profiles)
  update_all_profiles-learns done =
      subst
        (λ ts.
          Relearns engine u ts (find_profile u w.profiles)
            (find_profile u (update_all_profiles engine w).1.profiles))
        (keep-keep (λ t. ltb (engine.wall t.created_at.time) (engine.wall w.clock / 86400 * 86400))
          (λ t. ltb (engine.wall t.created_at.time / 86400) (engine.wall w.clock / 86400))
          (λ t. eqb_ℤ t.user_id u) w.transactions
          (λ t. earlier_day (engine.wall t.created_at.time) (engine.wall w.clock)))
        (Rebuilds-Relearns (update_all_profiles engine w).1
          (of_user u (before_today engine w.clock w.transactions))
          (update_all_profiles-Rebuilds engine u w done))
