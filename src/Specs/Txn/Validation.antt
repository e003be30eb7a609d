-- ===== src/Specs/Txn/Validation.antt =====
-- What CreateTransactionRequest.Validate accepts.
use mathlib.Core.Path.{subst}
use fraud_detection_lite.Prelude.{
  refl, sym, ap, ◌∙◌, ◌≡◌, Bool, true, false, not, ◌&&◌, ◌||◌, arith, str_eq, str_eq_iff,
}
use fraud_detection_lite.Float.Ops.{eq, lt}
use fraud_detection_lite.Constants.{lit}
use fraud_detection_lite.Specs.Error.{
  Result, ok, err, ◌>>◌, refuse_if, invalid_body, missing_amount_in_request,
  missing_mode_in_request, amount_out_of_range, invalid_payment_mode,
}
use fraud_detection_lite.Repository.Models.{Mode}
use fraud_detection_lite.Specs.Txn.{CreateTransactionRequest, is_payment_mode, validate}

abbrev pub is_ok : Result (Unit {0}) → Bool
is_ok (ok u) = true
is_ok (err e) = false

chain :
    (zero empty low high unknown : Bool)
    → (empty ≡ true → unknown ≡ true)
    → is_ok (
        refuse_if (zero && empty) invalid_body
        >> (refuse_if zero missing_amount_in_request
            >> (refuse_if empty missing_mode_in_request
                >> (refuse_if (low || high) amount_out_of_range
                    >> (refuse_if unknown invalid_payment_mode >> ok tt)))))
      ≡ (not zero && not low && not high && not unknown)
chain true true low high unknown h = refl
chain true false low high unknown h = refl
chain false true low high unknown h = rw (h refl) (ground arith)
chain false false true high unknown h = refl
chain false false false true unknown h = refl
chain false false false false true h = refl
chain false false false false false h = refl

empty_is_unknown : (m : Mode) → str_eq m "" ≡ true → not (is_payment_mode m) ≡ true
empty_is_unknown m h =
    subst (λ x. not (is_payment_mode x) ≡ true) (sym ((str_eq_iff m "").0 h)) refl

not_involutive : (b : Bool) → not (not b) ≡ b
not_involutive true = refl
not_involutive false = refl

-- A request is accepted exactly if its amount is not 0, not below it and not above 10 ^ 16, and its
-- mode is one of the three.
pub validate-accepts :
    (r : CreateTransactionRequest)
    → is_ok (validate r) ≡ (
        not (eq r.amount (lit 0))
        && not (lt r.amount (lit 0))
        && not (lt (lit 10_000_000_000_000_000) r.amount)
        && is_payment_mode r.mode)
unfolding validate
validate-accepts r =
    chain (eq r.amount (lit 0)) (str_eq r.mode "") (lt r.amount (lit 0))
      (lt (lit 10_000_000_000_000_000) r.amount) (not (is_payment_mode r.mode))
      (empty_is_unknown r.mode)
    ∙ ap
        (λ b.
          not (eq r.amount (lit 0))
          && not (lt r.amount (lit 0))
          && not (lt (lit 10_000_000_000_000_000) r.amount)
          && b)
        (not_involutive (is_payment_mode r.mode))
