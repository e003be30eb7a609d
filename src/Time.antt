-- ===== src/Time.antt =====
-- Go's time.Time, of which the program reads the hour, the order and the difference.
use fraud_detection_lite.Prelude.{ℕ, ◌+◌, ◌*◌, ◌/◌, ◌%◌, ◌<◌, ◌≡◌, arith}

-- An instant, in seconds from the start of the year 0 in UTC, and its location's offset from UTC in
-- seconds, eastward, modulo a day.
pub record Time : Type 0 where
  pub secs : ℕ
  pub zone : ℕ

-- t.Hour()
unfoldable pub hour : Time → ℕ
hour t = (t.secs + t.zone) % 86400 / 3600

-- time.Date(0, 1, 1, h, 0, 0, 0, time.UTC)
unfoldable pub date_of_hour : ℕ → Time
date_of_hour h = record { secs = h * 3600; zone = 0 }

-- The zero value of time.Time is the start of the year 1, 366 days after that of the year 0.
abbrev pub zero_time : Time
zero_time = record { secs = 31622400; zone = 0 }

pub hour-lt : (t : Time) → hour t < 24
unfolding hour
hour-lt t = omega arith

pub hour-date_of_hour : (h : ℕ) → h < 24 → hour (date_of_hour h) ≡ h
unfolding hour date_of_hour
hour-date_of_hour h l = omega arith
