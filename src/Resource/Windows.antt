-- ===== src/Resource/Windows.antt =====
-- src/microReticulum/Resource.cpp: how `receive_part` and `__watchdog_job` change the number of parts
-- that are requested at once.
pub mod Bounds
use micro_reticulum.Prelude.{
  ℕ, suc, ◌+◌, ◌-◌, ◌*◌, List, [], ◌∷◌, Bool, ◌&&◌, if◌then◌else◌, ltb, ◌==◌,
}

pub record Window : Type 0 where
  pub window : ℕ
  pub window_max : ℕ
  pub window_min : ℕ
  pub window_flexibility : ℕ
  pub fast_rate_rounds : ℕ
  pub very_slow_rate_rounds : ℕ

abbrev pub window_max_slow : ℕ
window_max_slow = 10

abbrev pub window_max_very_slow : ℕ
window_max_very_slow = 4

abbrev pub window_max_fast : ℕ
window_max_fast = 75

abbrev pub fast_rate_threshold : ℕ
fast_rate_threshold = 10 - 4 - 2

abbrev pub very_slow_rate_threshold : ℕ
very_slow_rate_threshold = 2

-- Bytes a second.
abbrev pub rate_fast : ℕ
rate_fast = 6250

abbrev pub rate_very_slow : ℕ
rate_very_slow = 250

abbrev pub first_window : Window
first_window = record {
  window = 4;
  window_max = window_max_slow;
  window_min = 2;
  window_flexibility = 4;
  fast_rate_rounds = 0;
  very_slow_rate_rounds = 0;
}

-- All requested parts have come. The difference of the code is one of integers: it is compared
-- without a subtraction.
unfoldable pub widen : Window → Window
widen w =
    let up = record w { window = suc w.window } in
    if ltb w.window w.window_max
    then if ltb (w.window_min + w.window_flexibility) (suc up.window)
      then record up { window_min = suc w.window_min }
      else up
    else w

-- A retry, in which the differences are again of integers.
unfoldable pub narrow : Window → Window
narrow w =
    let down = record w { window = w.window - 1 } in
    let lower = record down { window_max = w.window_max - 1 } in
    if ltb w.window_min w.window
    then if ltb w.window_min w.window_max
      then if ltb (lower.window + w.window_flexibility) (suc lower.window_max)
        then record lower { window_max = lower.window_max - 1 }
        else lower
      else down
    else w

-- A round at this many bytes in this many milliseconds, which are not 0.
unfoldable pub note_fast : (size elapsed : ℕ) → Window → Window
note_fast size elapsed w =
    let up = record w { fast_rate_rounds = suc w.fast_rate_rounds } in
    if ltb (rate_fast * elapsed) (size * 1000) && ltb w.fast_rate_rounds fast_rate_threshold
    then if suc w.fast_rate_rounds == fast_rate_threshold
      then record up { window_max = window_max_fast }
      else up
    else w

unfoldable pub note_slow : (size elapsed : ℕ) → Window → Window
note_slow size elapsed w =
    let up = record w { very_slow_rate_rounds = suc w.very_slow_rate_rounds } in
    if w.fast_rate_rounds == 0
      && ltb (size * 1000) (rate_very_slow * elapsed)
      && ltb w.very_slow_rate_rounds very_slow_rate_threshold
    then if suc w.very_slow_rate_rounds == very_slow_rate_threshold
      then record up { window_max = window_max_very_slow }
      else up
    else w

-- What happens to a window.
pub data Round : Type 0 where
  completes retries : Round
  answers transfers : (size elapsed : ℕ) → Round

-- `transfers` is what is measured from request to request, `answers` the first part of an answer.
unfoldable pub step : Round → Window → Window
step completes w = widen w
step retries w = narrow w
step (answers size elapsed) w = note_fast size elapsed w
step (transfers size elapsed) w = note_slow size elapsed (note_fast size elapsed w)

unfoldable pub run : List Round → Window → Window
run [] w = w
run (r ∷ rs) w = run rs (step r w)
