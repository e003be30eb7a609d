-- ===== src/Profile/Counts.antt =====
-- The counters of the profile.
use fraud_detection_lite.Prelude.{
  ◌≡◌, refl, Bool, true, false, arith, Bool-cases, inl, inr, if◌then◌else◌,
}
use fraud_detection_lite.Prelude.Int.{ℤ, pos, add32, ◌≤ℤ◌, ◌+ℤ◌}
use fraud_detection_lite.Float.Ops.{Float64}
use fraud_detection_lite.Time.{Time}
use fraud_detection_lite.Repository.Models.{Mode, UserProfileBehavior, TransactionDecision}
use fraud_detection_lite.Profile.Update.{is_counted, apply_transaction_to_profile}

-- The counters are not negative, and no more transactions were allowed than there were.
pub record HasCounts (p : UserProfileBehavior) : Type 0 where
  pub nonneg : pos 0 ≤ℤ p.allowed_transactions
  pub ordered : p.allowed_transactions ≤ℤ p.total_transactions

increment : (a : ℤ) → pos 0 ≤ℤ a → a ≤ℤ pos 2147483646 → add32 a (pos 1) ≡ a +ℤ pos 1
increment a l u = ground arith

raised :
    (a b : ℤ) (counted : Bool)
    → pos 0 ≤ℤ a
    → a ≤ℤ b
    → (pos 0 ≤ℤ (if counted then a +ℤ pos 1 else a))
      × ((if counted then a +ℤ pos 1 else a) ≤ℤ (b +ℤ pos 1))
raised a b counted l u = ground arith

module _ (p : UserProfileBehavior) (amount : Float64) (mode : Mode) (t : Time)
    (d : TransactionDecision) (h : HasCounts p)
    (room : p.total_transactions ≤ℤ pos 2147483646) where
  -- A transaction raises the total by one, and the allowed count by one exactly if it is allowed or
  -- flagged; the total stays at least the allowed count. The counters must not be at the last int32.
  apply_transaction_to_profile-counts :
      let q = apply_transaction_to_profile p amount mode t d in
      (q.total_transactions ≡ p.total_transactions +ℤ pos 1)
      × (q.allowed_transactions
          ≡ (if is_counted d then p.allowed_transactions +ℤ pos 1 else p.allowed_transactions))
      × HasCounts q
  unfolding apply_transaction_to_profile
  apply_transaction_to_profile-counts =
      let total = increment p.total_transactions (ground (arith, h)) room in
      let allowed = increment p.allowed_transactions h.nonneg (ground (arith, h)) in
      let rise =
        λ (b : Bool). raised p.allowed_transactions p.total_transactions b h.nonneg h.ordered in
      elim (Bool-cases (is_counted d)) [
        | inl counted ↦
            rw (counted, total, allowed)
              (refl, refl, record { nonneg = (rise true).0; ordered = (rise true).1 })
        | inr refused ↦
            rw (refused, total)
              (refl, refl, record { nonneg = (rise false).0; ordered = (rise false).1 })
      ]
