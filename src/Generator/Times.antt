-- ===== src/Generator/Times.antt =====
-- The times of the generator.
use fraud_detection_lite.Prelude.{ℕ, ◌+◌, ◌*◌, ◌/◌, ◌≤◌, ◌<◌, ◌%◌, ◌≡◌, refl, ap, ◌∙◌, arith}
use fraud_detection_lite.Time.{Time, hour}
use fraud_detection_lite.Generator.{date_after}

-- The number of the local day.
abbrev pub day : Time → ℕ
day t = (t.secs + t.zone) / 86400

-- The zone is less than a day, and the local day is not the first one.
abbrev pub IsDated : Time → Type 0
IsDated t = (t.zone < 86400) × (86400 ≤ t.secs + t.zone)

-- On the local day of `prev` or the next one, at one of the hours from `first` to before `end`.
abbrev pub IsWithinDay : Time → ℕ → ℕ → Time → Type 0
IsWithinDay prev first end t =
    (t.zone ≡ prev.zone)
    × (day prev ≤ day t)
    × (day t ≤ day prev + 1)
    × (first ≤ hour t)
    × (hour t < end)

abbrev pub IsSoonAfter : Time → Time → Type 0
IsSoonAfter prev t = (t.zone ≡ prev.zone) × (prev.secs + 60 ≤ t.secs) × (t.secs ≤ prev.secs + 180)

local_secs :
    (t : Time) (d h m : ℕ)
    → IsDated t
    → (date_after t d h m).secs + t.zone ≡ day t * 86400 + d * 86400 + h * 3600 + m * 60
unfolding date_after
local_secs t d h m (z, l) = omega arith

day_of_local :
    (n d h m : ℕ) → h < 24 → m < 60 → (n * 86400 + d * 86400 + h * 3600 + m * 60) / 86400 ≡ n + d
day_of_local n d h m k l = omega arith

hour_of_local :
    (n d h m : ℕ) → h < 24 → m < 60 → (n * 86400 + d * 86400 + h * 3600 + m * 60) % 86400 / 3600 ≡ h
hour_of_local n d h m k l = omega arith

module _ (t : Time) (d h m : ℕ) (dated : IsDated t) (k : h < 24) (l : m < 60) where
  day-date_after : day (date_after t d h m) ≡ day t + d
  unfolding date_after
  day-date_after =
      ap (λ (n : ℕ). n / 86400) (local_secs t d h m dated) ∙ day_of_local (day t) d h m k l

  hour-date_after : hour (date_after t d h m) ≡ h
  unfolding hour date_after
  hour-date_after =
      ap (λ (n : ℕ). n % 86400 / 3600) (local_secs t d h m dated) ∙ hour_of_local (day t) d h m k l

pub date_after-IsWithinDay :
    (t : Time) (d h m first end : ℕ)
    → IsDated t
    → d < 2
    → m < 60
    → first ≤ h
    → h < end
    → end ≤ 24
    → IsWithinDay t first end (date_after t d h m)
unfolding date_after
date_after-IsWithinDay t d h m first end dated k l lo hi e =
    let on = day-date_after t d h m dated (omega arith) l in
    let at = hour-date_after t d h m dated (omega arith) l in
    (refl, omega (arith, on), omega (arith, on), omega (arith, at), omega (arith, at))

-- A time that is drawn has a date again.
pub IsWithinDay-IsDated :
    (prev t : Time) (first end : ℕ) → IsDated prev → IsWithinDay prev first end t → IsDated t
IsWithinDay-IsDated prev t first end (z, l) (same, on, _, _, _) = (omega arith, omega arith)

pub IsSoonAfter-IsDated : (prev t : Time) → IsDated prev → IsSoonAfter prev t → IsDated t
IsSoonAfter-IsDated prev t (z, l) (same, on, _) = (omega arith, omega arith)
