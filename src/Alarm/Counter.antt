-- ===== src/Alarm/Counter.antt =====
-- What one level of one alert promises: a counter with a window, independent of the maps and
-- slices of alarm/service/alert.go. `observe` is a report at time `now`; the flag says whether
-- the users are alarmed.
pub mod Window
use vgo.Prelude.{Bytes, Bool, true, false, if◌then◌else◌}
use vgo.Prelude.Int.{ℤ, pos, ◌+ℤ◌, ltb_ℤ, leb_ℤ}
use vgo.Alarm.Process.{time_sub}

pub record Counter : Type 0 where
  pub limit : ℤ
  pub duration : ℤ
  pub output : Bytes
  pub now_count : ℤ
  pub last : ℤ

-- Outside the window the history is dropped.
abbrev pub restart : Counter → ℤ → Counter × Bool
restart c now = (record c { now_count = pos 1; last = now }, false)

abbrev pub advance : Counter → ℤ → Counter × Bool
advance c now =
    if leb_ℤ c.limit (c.now_count +ℤ pos 1)
    then (record c { now_count = pos 0; last = now }, true)
    else (record c { now_count = c.now_count +ℤ pos 1; last = now }, false)

unfoldable pub observe : Counter → ℤ → Counter × Bool
observe c now = if ltb_ℤ c.duration (time_sub now c.last) then restart c now else advance c now
