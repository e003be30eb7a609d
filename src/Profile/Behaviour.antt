-- ===== src/Profile/Behaviour.antt =====
-- What the profile knows after a transaction that counts: its mode, its hour and its amount.
use fraud_detection_lite.Prelude.{
  ℕ, ◌+◌, ◌-◌, ◌%◌, ◌≤◌, ◌<◌, ◌≡◌, ap, ◌∙◌, Bool, true, arith, leb, Bool-cases, inl, inr, List, [],
  ◌∷◌, ◌++◌, if◌then◌else◌, str_eq_iff, le→leb,
}
use fraud_detection_lite.Float.Ops.{Float64}
use fraud_detection_lite.Constants.{lit}
use fraud_detection_lite.Time.{Time, hour, hour-lt, hour-date_of_hour}
use fraud_detection_lite.Repository.Models.{
  Mode, Timestamp, UserProfileBehavior, TransactionDecision,
}
use fraud_detection_lite.Risk.Factors.{
  contains, calculate_mode_deviation_risk, calculate_time_anomaly_risk,
}
use fraud_detection_lite.Risk.TimeOfDay.{calculate_time_anomaly_risk_lem}
use fraud_detection_lite.Risk.NewMode.{calculate_mode_deviation_risk_known}
use fraud_detection_lite.Profile.Update.{
  is_counted, update_modes, update_start, update_end, apply_transaction_to_profile,
}

contains-append_self : (modes : List Mode) (m : Mode) → contains (modes ++ m ∷ []) m ≡ true
unfolding contains
contains-append_self [] m = ground (arith, str_eq_iff m m)
contains-append_self (x ∷ modes) m = ground (arith, contains-append_self modes m)

contains-append :
    (modes : List Mode) (m x : Mode) → contains modes x ≡ true → contains (modes ++ m ∷ []) x ≡ true
unfolding contains
contains-append [] m x h = cc
contains-append (y ∷ modes) m x h = ground (arith, contains-append modes m x)

-- The mode is registered, and no mode is forgotten.
contains-update_modes :
    (modes : List Mode) (m x : Mode)
    → (contains (update_modes m modes) m ≡ true)
      × (contains modes x ≡ true → contains (update_modes m modes) x ≡ true)
unfolding update_modes
contains-update_modes modes m x = elim (Bool-cases (contains modes m)) [
  | inl old ↦ rw old (old, λ h. h)
  | inr new ↦ rw new (contains-append_self modes m, contains-append modes m x)
]

-- The hours of the window: known ends, the first no later than the last.
pub record HasWindow (start end : Timestamp) : Type 0 where
  pub start_known : start.valid ≡ true
  pub end_known : end.valid ≡ true
  pub ordered : hour start.time ≤ hour end.time

start-le :
    (t : Time) (s : Timestamp)
    → ((update_start t s).valid ≡ true)
      × (hour (update_start t s).time ≤ hour t)
      × (s.valid ≡ true → hour (update_start t s).time ≤ hour s.time)
unfolding update_start
start-le t s = ground (arith, hour-date_of_hour (hour t) (hour-lt t), hour-lt s.time)

le-end :
    (t : Time) (s : Timestamp)
    → ((update_end t s).valid ≡ true)
      × (hour t ≤ hour (update_end t s).time)
      × (s.valid ≡ true → hour s.time ≤ hour (update_end t s).time)
unfolding update_end
le-end t s = ground (arith, hour-date_of_hour (hour t) (hour-lt t), hour-lt s.time)

in_order_within :
    (s e c : ℕ) → s ≤ c → c ≤ e → e < 24 → leb ((c + 24 - s) % 24) ((e + 24 - s) % 24) ≡ true
in_order_within s e c h k l = le→leb _ _ (omega arith)

if_true : {b : Bool} (x y : Float64) → b ≡ true → (if b then x else y) ≡ x
if_true {b} x y h = ap (λ c. if c then x else y) h

-- Between the hours of a window that is in order, there is no time risk.
risk_in_window :
    (t : Time) (p : UserProfileBehavior)
    → p.usual_transaction_start_hour.valid ≡ true
    → p.usual_transaction_end_hour.valid ≡ true
    → hour p.usual_transaction_start_hour.time ≤ hour t
    → hour t ≤ hour p.usual_transaction_end_hour.time
    → calculate_time_anomaly_risk t p ≡ lit 0
risk_in_window t p hs he l u =
    calculate_time_anomaly_risk_lem t p hs he
    ∙ if_true (lit 0) _ (
        in_order_within (hour p.usual_transaction_start_hour.time)
          (hour p.usual_transaction_end_hour.time) (hour t) l u
          (hour-lt p.usual_transaction_end_hour.time))

module _ (p : UserProfileBehavior) (amount : Float64) (mode : Mode) (t : Time)
    (d : TransactionDecision) (counted : is_counted d ≡ true) where
  -- After a transaction that was allowed or flagged, another one with its mode has no mode risk, one
  -- at its hour has no time risk, and the usual hours are known and in order from start to end.
  pub apply_transaction_to_profile-learns :
      let q = apply_transaction_to_profile p amount mode t d in
      (calculate_mode_deviation_risk mode q ≡ lit 0)
      × (calculate_time_anomaly_risk t q ≡ lit 0)
      × HasWindow q.usual_transaction_start_hour q.usual_transaction_end_hour
  unfolding apply_transaction_to_profile
  apply_transaction_to_profile-learns =
      let start = start-le t p.usual_transaction_start_hour in
      let end = le-end t p.usual_transaction_end_hour in
      rw counted (
        calculate_mode_deviation_risk_known mode _
            (contains-update_modes p.registered_payment_modes mode mode).0,
        risk_in_window t _ start.0 end.0 start.1 end.1,
        record {
          start_known = start.0;
          end_known = end.0;
          ordered = omega (arith, start.1, end.1);
        },
      )

  -- After a transaction that was allowed or flagged, a mode that was registered before it, and an hour
  -- within usual hours that were known and in order, still have no risk.
  apply_transaction_to_profile-remembers :
      (m : Mode) (u : Time)
      → contains p.registered_payment_modes m ≡ true
      → HasWindow p.usual_transaction_start_hour p.usual_transaction_end_hour
      → hour p.usual_transaction_start_hour.time ≤ hour u
      → hour u ≤ hour p.usual_transaction_end_hour.time
      → let q = apply_transaction_to_profile p amount mode t d in
        (calculate_mode_deviation_risk m q ≡ lit 0) × (calculate_time_anomaly_risk u q ≡ lit 0)
  unfolding apply_transaction_to_profile
  apply_transaction_to_profile-remembers m u hm w hl hu =
      let start = start-le t p.usual_transaction_start_hour in
      let end = le-end t p.usual_transaction_end_hour in
      rw counted (
        calculate_mode_deviation_risk_known m _
            ((contains-update_modes p.registered_payment_modes mode m).1 hm),
        risk_in_window u _ start.0 end.0 (omega (arith, start.2 w.start_known))
            (omega (arith, end.2 w.end_known)),
      )
