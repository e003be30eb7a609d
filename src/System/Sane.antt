-- ===== src/System/Sane.antt =====
-- The profiles of reached tables are as the limits of the analysis need them.
use mathlib.Core.Path.{subst, subst₂}
use fraud_detection_lite.Prelude.{
  ℕ, ◌<◌, ◌≡◌, ◌≢◌, sym, ap, arith, List, [], ◌∷◌, ◌++◌, Every, length, String, Option, some, none,
  length-keep,
}
use fraud_detection_lite.Prelude.Int.{ℤ, pos, ◌≤ℤ◌, eqb_ℤ}
use fraud_detection_lite.Float.Ops.{Float64}
use fraud_detection_lite.Time.{Time}
use fraud_detection_lite.Specs.Error.{Result, ok}
use fraud_detection_lite.Specs.Txn.{CreateTransactionRequest}
use fraud_detection_lite.Repository.Models.{Transaction, User, block}
use fraud_detection_lite.Repository.Queries.{
  CreateTransactionParams, CreateTransactionRow, CreateUserParams, GetUserProfileByUserIdRow,
}
use fraud_detection_lite.Risk.Amount.{HasSaneAmounts}
use fraud_detection_lite.Constants.{lit}
use fraud_detection_lite.Risk.Score.{analyze_transaction}
use fraud_detection_lite.System.Burst.Quiet.{count_within-le}
use fraud_detection_lite.Risk.Limits.{analyze_transaction-ne-block}
use fraud_detection_lite.Service.Environment.{Environment}
use fraud_detection_lite.Service.Transaction.{
  domain_profile, row_or_empty, prepare_transaction, create_transaction_params,
}
use fraud_detection_lite.Store.Tables.{World, Engine}
use fraud_detection_lite.Store.Transactions.{of_user, count_recent_transactions, or_no_rows}
use fraud_detection_lite.Store.Inserts.{
  TransactionInsert, inserted, refused, drawn, create_transaction-TransactionInsert, UserInsert,
  create_user-UserInsert,
}
use fraud_detection_lite.Store.Profiles.{
  get_user_profile_by_user_id, recalculate_user_profile, update_all_profiles, find_profile,
}
use fraud_detection_lite.Store.Profiles.Rows.{
  profile_row-IsRowOf, rebuilt_row-IsRowOf, find_profile-Every,
}
use fraud_detection_lite.Store.Rewrites.{
  ProfilesPut, Every-keep, recalculate_user_profile-ProfilesPut, update_all_profiles-ProfilesPut,
}
use fraud_detection_lite.Store.Sanity.{HasNoDebt, IsRowOf-HasSaneAmounts}
use fraud_detection_lite.Store.Interfaces.{queries}
use fraud_detection_lite.System.{
  fresh_world, Step, insert, register, recalculate, rebuild, aside, Reach, here, then_step,
}

abbrev pub IsSaneRow : GetUserProfileByUserIdRow → Type 0
IsSaneRow row = HasSaneAmounts (domain_profile row)

-- Without negative amounts and NaN, every profile is sane.
abbrev pub IsSane : World → Type 0
IsSane w = Every HasNoDebt w.transactions → Every IsSaneRow w.profiles

Every-append_left :
    {A : Type 0} (P : A → Type 0) (first second : List A)
    → Every P (first ++ second)
    → Every P first
Every-append_left P [] second h = tt
Every-append_left P (a ∷ first) second (ha, h) = (ha, Every-append_left P first second h)

insert-IsSane :
    (p : CreateTransactionParams) (w : World) (made : Result CreateTransactionRow) (w' : World)
    → TransactionInsert p w made w'
    → IsSane w
    → IsSane w'
insert-IsSane p w made w' (inserted i) h debts =
    h (Every-append_left HasNoDebt w.transactions _ debts)
insert-IsSane p w made w' (refused e) h debts = h debts
insert-IsSane p w made w' (drawn e) h debts = h debts

register-IsSane :
    (p : CreateUserParams) (w : World) (made : Result User) (w' : World)
    → UserInsert p w made w'
    → IsSane w
    → IsSane w'
register-IsSane p w made w' (UserInsert.inserted i) h debts = h debts
register-IsSane p w made w' (UserInsert.refused e) h debts = h debts
register-IsSane p w made w' (UserInsert.drawn e) h debts = h debts

-- Only profiles were put, and they are sane without debts.
put-IsSane :
    (w w' : World)
    → ((ps : List GetUserProfileByUserIdRow) × (w' ≡ record w { profiles = ps }))
    → (Every HasNoDebt w.transactions → ProfilesPut IsSaneRow w w')
    → IsSane w'
put-IsSane w w' (ps, e) f debts =
    let (qs, e', h) = f (subst (λ v. Every HasNoDebt v.transactions) e debts) in
    subst (λ v. Every IsSaneRow v.profiles) (sym e') h

pub nothing_of : {A : Type 0} (given : List A) → Every (λ (a : A). Unit {0}) given
nothing_of [] = tt
nothing_of (a ∷ rest) = (tt, nothing_of rest)

module _ (engine : Engine) where
  recalculate-IsSane :
      (u : ℤ) (w : World) → IsSane w → IsSane (recalculate_user_profile engine u w).1
  recalculate-IsSane u w h =
      let (ps, put, any) =
        recalculate_user_profile-ProfilesPut engine (λ row. Unit {0}) u w (λ row known made. tt)
          (nothing_of w.profiles) in
      put-IsSane w _ (ps, put)
        (λ debts.
          recalculate_user_profile-ProfilesPut engine IsSaneRow u w
            (λ row known made.
              IsRowOf-HasSaneAmounts engine u (of_user u w.transactions) row
                (profile_row-IsRowOf engine u _ w.clock row made).0
                (Every-keep HasNoDebt _ w.transactions debts))
            (h debts))

  rebuild-IsSane : (w : World) → IsSane w → IsSane (update_all_profiles engine w).1
  rebuild-IsSane w h =
      let (ps, put, any) =
        update_all_profiles-ProfilesPut engine (λ row. Unit {0}) (λ u. Unit {0}) w
          (λ u old row f known made. tt) (nothing_of w.transactions) (nothing_of w.profiles) in
      put-IsSane w _ (ps, put)
        (λ debts.
          update_all_profiles-ProfilesPut engine IsSaneRow (λ u. Unit {0}) w
            (λ u old row f known made.
              IsRowOf-HasSaneAmounts engine u _ row
                (rebuilt_row-IsRowOf engine u _ w.clock row old made).0
                (Every-keep HasNoDebt _ _ (Every-keep HasNoDebt _ w.transactions debts)))
            (nothing_of w.transactions) (h debts))

  step-IsSane : {v u : World} → Step engine v u → IsSane v → IsSane u
  step-IsSane {v} (insert p) h = insert-IsSane p v _ _ (create_transaction-TransactionInsert p v) h
  step-IsSane {v} (register p) h = register-IsSane p v _ _ (create_user-UserInsert p v) h
  step-IsSane {v} (recalculate u) h = recalculate-IsSane u v h
  step-IsSane {v} rebuild h = rebuild-IsSane v h
  step-IsSane (aside keys now) h = h

  pub Reach-IsSane :
      (keys : List String) (now : Time) (w : World)
      → Reach engine (fresh_world keys now) w
      → IsSane w
  Reach-IsSane keys now w h = go h
    where
      go : {u : World} → Reach engine (fresh_world keys now) u → IsSane u
      go here debts = tt
      go (then_step before st) debts = step-IsSane st (go before) debts

pub some_of :
    (row : GetUserProfileByUserIdRow) (found : Option GetUserProfileByUserIdRow)
    → or_no_rows found ≡ ok row
    → found ≡ some row
some_of row (some p) h = ap some (path h)
  where
    path : ok p ≡ ok row → p ≡ row
    path e = cc
some_of row none h = cc

module _ (platform : Float64 → ℤ) (u : ℤ) (req : CreateTransactionRequest) (t : Time)
    (row : GetUserProfileByUserIdRow) (sane : HasSaneAmounts (domain_profile row))
    (seasoned : pos 12 ≤ℤ row.allowed_transactions) where
  -- The analysis of CreateTransaction, with the profile and the count that it got.
  analysed-ne-block :
      (answer : Result GetUserProfileByUserIdRow) (count : ℤ) (n : ℕ)
      → answer ≡ ok row
      → count ≡ pos n
      → n < 2147483648
      → (analyze_transaction platform req (domain_profile (row_or_empty u answer)) count t).decision
        ≢ block
  unfolding domain_profile
  analysed-ne-block answer count n found counted small =
      subst₂
        (λ a k.
          (analyze_transaction platform req (domain_profile (row_or_empty u a)) k t).decision
          ≢ block)
        (sym found) (sym counted)
        (analyze_transaction-ne-block platform req (domain_profile row) n t sane (omega arith)
          seasoned)

-- In tables that were reached by any statements since they were empty, and whose amounts are neither
-- negative nor NaN and fewer than 2 ^ 31: the row that CreateTransaction is about to insert for a user,
-- whose profile counts at least 12 allowed transactions, does not have the decision to block, whatever
-- the request, the clock and the platform.
pub prepare_transaction-ne-block :
    (env : Environment World) (engine : Engine) (keys : List String) (now : Time) (u : ℤ)
    (req : CreateTransactionRequest) (w : World) (row : GetUserProfileByUserIdRow)
    → Reach engine (fresh_world keys now) w
    → Every HasNoDebt w.transactions
    → length w.transactions < 2147483648
    → (get_user_profile_by_user_id u w).0 ≡ ok row
    → pos 12 ≤ℤ row.allowed_transactions
    → (prepare_transaction env (queries engine) u req w).0.decision ≢ block
unfolding prepare_transaction create_transaction_params get_user_profile_by_user_id
    count_recent_transactions
prepare_transaction-ne-block env engine keys now u req w row reached debts few found seasoned =
    let sane =
      find_profile-Every IsSaneRow u w.profiles row (Reach-IsSane engine keys now w reached debts)
        (some_of row (find_profile u w.profiles) found) in
    let (n, counted, within) =
      count_within-le engine (lit 3600) (engine.wall w.clock) (of_user u w.transactions) in
    let fewer = length-keep (λ (t : Transaction). eqb_ℤ t.user_id u) w.transactions in
    analysed-ne-block env.platform u req _ row sane seasoned _ _ n found counted
      (omega (arith, within, fewer, few))
