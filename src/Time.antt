-- ===== src/Time.antt =====
-- The parts of Go's `time` that the program uses. A `Time` counts the nanoseconds since the zero
-- time (year 1, UTC), so the zero `time.Time` is 0; a `Duration` is an int64 of nanoseconds.
pub mod Format
pub mod Print
pub mod Parse
use go2rtc_manager.Prelude.{
  ℕ, ◌+◌, ◌-◌, ◌≤◌, ◌<◌, ◌≡◌, ◌↔◌, Bool, true, false, arith, leb, ltb, ◌==◌, if◌then◌else◌, min,
}
use go2rtc_manager.Prelude.Int.{ℤ, pos, negsuc, ltb_ℤ, ◌<ℤ◌}

abbrev pub Time : Type 0
Time = ℕ

abbrev pub Duration : Type 0
Duration = ℤ

abbrev pub max_int64 : ℕ
max_int64 = 9223372036854775807

-- `t.IsZero()`
abbrev pub is_zero : Time → Bool
is_zero t = t == 0

-- `t.Sub(u)`, which stops at the largest and the smallest Duration.
unfoldable pub sub : Time → Time → Duration
sub t u = if leb u t then pos (min (t - u) max_int64) else negsuc (min (u - t - 1) max_int64)
