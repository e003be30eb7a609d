-- ===== src/System/Posted.antt =====
-- A valid POST of a user that exists is served.
use mathlib.Core.Path.{subst}
use fraud_detection_lite.Prelude.{
  ℕ, ◌<◌, ◌^◌, ◌≡◌, ◌∙◌, refl, sym, ap, arith, Bool, true, false, not, ◌&&◌, leb, List, ◌++◌,
  length, none, some, String,
}
use fraud_detection_lite.Prelude.Int.{ℤ, pos, leb_ℤ}
use fraud_detection_lite.Float.Ops.{Float64, lt, eq, to_int32}
use fraud_detection_lite.Constants.{lit}
use fraud_detection_lite.Time.{Time}
use fraud_detection_lite.Specs.Error.{Result, ok}
use fraud_detection_lite.Specs.Txn.{
  CreateTransactionRequest, CreateTransactionResponse, is_payment_mode, validate,
}
use fraud_detection_lite.Specs.Txn.Validation.{is_ok, validate-accepts}
use fraud_detection_lite.Specs.User.{UserTokenClaims}
use fraud_detection_lite.Repository.Models.{UserProfileBehavior}
use fraud_detection_lite.Repository.Queries.{CreateTransactionParams, CreateTransactionRow}
use fraud_detection_lite.Risk.Factors.{
  contains, calculate_amount_deviation_risk, calculate_time_anomaly_risk,
}
use fraud_detection_lite.Risk.Score.{analyze_transaction}
use fraud_detection_lite.Risk.Triggers.{report, analyze_transaction-triggered_factors}
use fraud_detection_lite.Service.Environment.{Environment}
use fraud_detection_lite.Service.Transaction.{
  prepare_transaction, insert_transaction, transaction_answer, transaction_response,
  create_transaction-insert_transaction, create_transaction_params,
}
use fraud_detection_lite.Service.Session.{Security}
use fraud_detection_lite.Api.Http.{
  Request, created, data_chunk, Codec, Writer, fresh, success_response,
}
use fraud_detection_lite.Api.Transactions.{post_answer}
use fraud_detection_lite.Api.Router.{protected, post_transactions, get_transaction}
use fraud_detection_lite.Store.Tables.{World, Engine, is_trigger_factor}
use fraud_detection_lite.Store.Transactions.{
  all_factors, has_user, of_user, new_transaction, returned_row, create_transaction,
  count_recent_transactions,
}
use fraud_detection_lite.Store.Profiles.{get_user_profile_by_user_id}
use fraud_detection_lite.Store.Inserts.{IsInsertable, with_transaction}
use fraud_detection_lite.Store.Invariant.{IsConsistent}
use fraud_detection_lite.Store.Interfaces.{
  queries, transaction_service, transaction_queries, IsAside,
}
use fraud_detection_lite.System.{serve_world}
use fraud_detection_lite.System.Burst.Quiet.{count_within-le}
use fraud_detection_lite.System.Accepted.{
  IsAccepted, answered, success_response-fresh, post-accepted,
}
use fraud_detection_lite.System.Fetched.{IsShown, found-IsShown, prepare-IsConsistent}

report-all_factors :
    (b : Bool) (factor : String) (more : List String)
    → is_trigger_factor factor ≡ true
    → all_factors more ≡ true
    → all_factors (report b factor ++ more) ≡ true
report-all_factors true factor more h k = rw (h, k) refl
report-all_factors false factor more h k = k

analyze_transaction-all_factors :
    (platform : Float64 → ℤ) (req : CreateTransactionRequest) (p : UserProfileBehavior) (t : Time)
    (c : ℤ) (n : ℕ)
    → c ≡ pos n
    → n < 2 ^ 31
    → all_factors (analyze_transaction platform req p c t).triggered_factors ≡ true
analyze_transaction-all_factors platform req p t c n e small =
    ap (λ k. all_factors (analyze_transaction platform req p k t).triggered_factors) e
    ∙ ap all_factors (analyze_transaction-triggered_factors platform req p n t small)
    ∙ report-all_factors
        (lt (lit 30) (calculate_amount_deviation_risk platform (to_int32 platform req.amount) p))
        "AMOUNT_DEVIATION" _ refl
        (report-all_factors (leb 5 n) "FREQUENCY_SPIKE" _ refl (
          report-all_factors
            (not (contains p.registered_payment_modes req.mode)
              && leb_ℤ p.allowed_transactions (pos 16))
            "NEW_MODE" _ refl (last (lt (lit 35) (calculate_time_anomaly_risk t p)))))
  where
    last : (b : Bool) → all_factors (report b "TIME_ANOMALY") ≡ true
    last true = refl
    last false = refl

validate-is_payment_mode :
    (req : CreateTransactionRequest) → validate req ≡ ok tt → is_payment_mode req.mode ≡ true
validate-is_payment_mode req h =
    last (not (eq req.amount (lit 0))) (not (lt req.amount (lit 0)))
      (not (lt (lit 10_000_000_000_000_000) req.amount)) (is_payment_mode req.mode)
      (sym (ap is_ok h) ∙ validate-accepts req)
  where
    last : (a b c d : Bool) → true ≡ (a && b && c && d) → d ≡ true
    last a b c d e = ground (arith, e)

create_transaction-inserts :
    (p : CreateTransactionParams) (w : World)
    → IsInsertable p w
    → create_transaction p w ≡ (ok (returned_row (new_transaction p w)), with_transaction p w)
unfolding create_transaction
create_transaction-inserts p w i =
    rw (i.mode, i.factors, room w.next_transaction_id i.room, i.timed, i.owned) refl
  where
    room : (n : ℕ) → n < 2147483648 → leb (2 ^ 31) n ≡ false
    room n h = ground arith

-- A user that exists, with room for a further row.
pub record HasRoom (user_id : ℤ) (w : World) : Type 0 where
  pub known : has_user user_id w.users ≡ true
  pub few : length (of_user user_id w.transactions) < 2147483648
  pub room : w.next_transaction_id < 2147483648

module _ (env : Environment World) (engine : Engine)
    (aside : (v : World) → IsAside v (env.now v).1) where
  prepare-IsInsertable :
      (user_id : ℤ) (req : CreateTransactionRequest) (w : World)
      → validate req ≡ ok tt
      → HasRoom user_id w
      → let (p, v) = prepare_transaction env (queries engine) user_id req w in
        IsInsertable p v × (v.next_transaction_id ≡ w.next_transaction_id)
  unfolding prepare_transaction create_transaction_params get_user_profile_by_user_id
      count_recent_transactions
  prepare-IsInsertable user_id req w valid has =
      let (n, e, l) =
        count_within-le engine (lit 3600) (engine.wall w.clock) (of_user user_id w.transactions) in
      let w1 = (env.now w).1 in
      let w2 = (env.now w1).1 in
      let (k1, t1, e1) = aside w in
      let (k2, t2, e2) = aside w1 in
      let next = ap (λ v. v.next_transaction_id) e2 ∙ ap (λ v. v.next_transaction_id) e1 in
      let users = ap (λ v. v.users) e2 ∙ ap (λ v. v.users) e1 in
      (
        record {
          mode = validate-is_payment_mode req valid;
          factors =
              analyze_transaction-all_factors env.platform req _ _ _ n e
                (omega (arith, l, has.few));
          room = subst (λ k. k < 2147483648) (sym next) has.room;
          timed = refl;
          owned = ap (has_user user_id) users ∙ has.known;
        },
        next,
      )

module _ (env : Environment World) (security : Security World) (codec : Codec) (engine : Engine)
    (header : String) (claims : UserTokenClaims)
    (aside : (v : World) → IsAside v (env.now v).1) where
  -- What a valid POST does.
  post-inserted :
      (r : Request) (req : CreateTransactionRequest) (w : World)
      → HasRoom claims.user_id w
      → IsAccepted security header claims w
      → r.authorization ≡ header
      → r.context_user_id ≡ none
      → r.method ≡ "POST"
      → codec.decode_transaction r.body ≡ ok req
      → validate req ≡ ok tt
      → let (p, v) = prepare_transaction env (queries engine) claims.user_id req w in
        (serve_world env security codec engine (protected post_transactions) r w ≡ (
          success_response codec 200
              (created (transaction_response (returned_row (new_transaction p v))))
              fresh,
          (create_transaction p v).1,
        ))
        × ((create_transaction p v).0 ≡ ok (returned_row (new_transaction p v)))
        × (v.next_transaction_id ≡ w.next_transaction_id)
  unfolding insert_transaction
  post-inserted r req w has accepted hr nr m d valid =
      let (p, v) = prepare_transaction env (queries engine) claims.user_id req w in
      let (insertable, next) =
        prepare-IsInsertable env engine aside claims.user_id req w valid has in
      let inserted = create_transaction-inserts p v insertable in
      let made = ap (λ (x : Result CreateTransactionRow × World). x.0) inserted in
      (
        post-accepted env security codec engine header claims r w req accepted hr nr m d valid
            ∙ ap
                (λ answer.
                  post_answer codec security (transaction_service env engine)
                    (transaction_queries engine) answer fresh)
                (create_transaction-insert_transaction env (queries engine) claims.user_id req w)
            ∙ ap
                (λ x.
                  post_answer codec security (transaction_service env engine)
                    (transaction_queries engine) (transaction_answer x, (create_transaction p v).1)
                    fresh)
                made,
        made,
        next,
      )

  -- In consistent tables, where the clock leaves the tables alone: a valid POST of a user that exists,
  -- with a token that is accepted at that time, while there is room for a row, is answered with 200
  -- and a created transaction with the next identifier, whatever the analysis makes of it; and a GET with that identifier,
  -- right after it and with a token that is accepted then, shows it, with the user of the token, the
  -- amount and the mode of the request, and the decision, the score and the factors of that answer.
  -- A body that cannot be marshalled or written is replaced by the text of a server error.
  pub posted-IsShown :
      (r g : Request) (text : String) (req : CreateTransactionRequest) (w : World)
      → IsConsistent w
      → HasRoom claims.user_id w
      → IsAccepted security header claims w
      → r.authorization ≡ header
      → r.context_user_id ≡ none
      → r.method ≡ "POST"
      → codec.decode_transaction r.body ≡ ok req
      → validate req ≡ ok tt
      → IsAccepted security header claims
          (serve_world env security codec engine (protected post_transactions) r w).1
      → g.authorization ≡ header
      → g.context_user_id ≡ none
      → codec.parse_int32 text ≡ ok (pos w.next_transaction_id)
      → let (posted, after) =
          serve_world env security codec engine (protected post_transactions) r w in
        let (shown, w') =
          serve_world env security codec engine (protected (get_transaction text)) g after in
        (res : CreateTransactionResponse) × (posted.sent ≡ some 200)
        × (posted.body ≡ answered codec (data_chunk (created res)))
        × (res.transaction_id ≡ pos w.next_transaction_id)
        × IsShown codec claims.user_id req res shown
  unfolding prepare_transaction create_transaction_params
  posted-IsShown r g text req w cons has accepted hr nr m d valid still hg ng e =
      let (p, v) = prepare_transaction env (queries engine) claims.user_id req w in
      let row = returned_row (new_transaction p v) in
      let (done, made, next) = post-inserted r req w has accepted hr nr m d valid in
      let (sent, body) = success_response-fresh codec 200 (created (transaction_response row)) in
      let state = ap (λ (a : Writer × World). a.1) done in
      (
        transaction_response row,
        ap (λ (a : Writer × World). a.0.sent) done ∙ sent,
        ap (λ (a : Writer × World). a.0.body) done ∙ body,
        ap pos next,
        subst
            (λ u.
              IsShown codec claims.user_id req (transaction_response row)
                (serve_world env security codec engine (protected (get_transaction text)) g u).0)
            (sym state)
            (found-IsShown env security codec engine header claims aside g text req p v row
              (subst (IsAccepted security header claims) state still) hg ng
              (e ∙ ap (λ n. ok (pos n)) (sym next)) refl refl refl
              (prepare-IsConsistent env security codec engine header claims aside claims.user_id req
                w cons)
              made),
      )
