-- ===== src/Resource/Windows/Bounds.antt =====
-- src/microReticulum/Resource.cpp: the window of a transfer in any sequence of rounds.
use micro_reticulum.Prelude.{
  ℕ, suc, ◌+◌, ◌-◌, ◌*◌, ◌≤◌, ◌≡◌, refl, List, [], ◌∷◌, ◌&&◌, ltb, ◌==◌, if_both, arith,
}
use micro_reticulum.Resource.Windows.{
  Window, first_window, widen, narrow, note_fast, note_slow, Round, completes, retries, answers,
  transfers, step, run,
}

-- The least window is at least 2 and at most 3 below the window, and neither the window nor its
-- limit exceeds 75.
pub record IsBounded (w : Window) : Type 0 where
  pub flexible : w.window_flexibility ≡ 4
  pub least : 2 ≤ w.window_min
  pub below : w.window_min ≤ w.window
  pub near : w.window ≤ w.window_min + 3
  pub wide : w.window ≤ 75
  pub limited : w.window_max ≤ 75

widen-IsBounded : (w : Window) → IsBounded w → IsBounded (widen w)
unfolding widen
widen-IsBounded w b =
    if_both IsBounded (ltb w.window w.window_max)
      (λ e.
        if_both IsBounded (ltb (w.window_min + w.window_flexibility) (suc (suc w.window)))
          (λ f. record {
            flexible = b.flexible;
            least = ground arith;
            below = ground arith;
            near = ground arith;
            wide = ground arith;
            limited = ground arith;
          })
          (λ f. record {
            flexible = b.flexible;
            least = ground arith;
            below = ground arith;
            near = ground arith;
            wide = ground arith;
            limited = ground arith;
          }))
      (λ e. b)

narrow-IsBounded : (w : Window) → IsBounded w → IsBounded (narrow w)
unfolding narrow
narrow-IsBounded w b =
    if_both IsBounded (ltb w.window_min w.window)
      (λ e.
        if_both IsBounded (ltb w.window_min w.window_max)
          (λ f.
            if_both IsBounded (ltb (w.window - 1 + w.window_flexibility) (suc (w.window_max - 1)))
              (λ g. record {
                flexible = b.flexible;
                least = ground arith;
                below = ground arith;
                near = ground arith;
                wide = ground arith;
                limited = ground arith;
              })
              (λ g. record {
                flexible = b.flexible;
                least = ground arith;
                below = ground arith;
                near = ground arith;
                wide = ground arith;
                limited = ground arith;
              }))
          (λ f. record {
            flexible = b.flexible;
            least = ground arith;
            below = ground arith;
            near = ground arith;
            wide = ground arith;
            limited = ground arith;
          }))
      (λ e. b)

note_fast-IsBounded :
    (size elapsed : ℕ) (w : Window) → IsBounded w → IsBounded (note_fast size elapsed w)
unfolding note_fast
note_fast-IsBounded size elapsed w b =
    if_both IsBounded (ltb (6250 * elapsed) (size * 1000) && ltb w.fast_rate_rounds 4)
      (λ e.
        if_both IsBounded (suc w.fast_rate_rounds == 4)
          (λ f. record {
            flexible = b.flexible;
            least = ground arith;
            below = ground arith;
            near = ground arith;
            wide = ground arith;
            limited = omega arith;
          })
          (λ f. record {
            flexible = b.flexible;
            least = ground arith;
            below = ground arith;
            near = ground arith;
            wide = ground arith;
            limited = ground arith;
          }))
      (λ e. b)

note_slow-IsBounded :
    (size elapsed : ℕ) (w : Window) → IsBounded w → IsBounded (note_slow size elapsed w)
unfolding note_slow
note_slow-IsBounded size elapsed w b =
    if_both IsBounded
      (w.fast_rate_rounds == 0
        && ltb (size * 1000) (250 * elapsed)
        && ltb w.very_slow_rate_rounds 2)
      (λ e.
        if_both IsBounded (suc w.very_slow_rate_rounds == 2)
          (λ f. record {
            flexible = b.flexible;
            least = ground arith;
            below = ground arith;
            near = ground arith;
            wide = ground arith;
            limited = omega arith;
          })
          (λ f. record {
            flexible = b.flexible;
            least = ground arith;
            below = ground arith;
            near = ground arith;
            wide = ground arith;
            limited = ground arith;
          }))
      (λ e. b)

step-IsBounded : (r : Round) (w : Window) → IsBounded w → IsBounded (step r w)
unfolding step
step-IsBounded completes w b = widen-IsBounded w b
step-IsBounded retries w b = narrow-IsBounded w b
step-IsBounded (answers size elapsed) w b = note_fast-IsBounded size elapsed w b
step-IsBounded (transfers size elapsed) w b =
    note_slow-IsBounded size elapsed (note_fast size elapsed w)
      (note_fast-IsBounded size elapsed w b)

run-IsBounded_any : (rs : List Round) (w : Window) → IsBounded w → IsBounded (run rs w)
unfolding run
run-IsBounded_any [] w b = b
run-IsBounded_any (r ∷ rs) w b = run-IsBounded_any rs (step r w) (step-IsBounded r w b)

-- From the window that a transfer starts with, in every sequence of completed requests, retries and
-- measured rates, the least window is at least 2 and at most 3 below the window, and neither the
-- window nor its limit exceeds 75, so that a request never asks for more parts than that.
pub run-IsBounded : (rs : List Round) → IsBounded (run rs first_window)
run-IsBounded rs = run-IsBounded_any rs first_window (record {
  flexible = refl;
  least = omega arith;
  below = omega arith;
  near = omega arith;
  wide = omega arith;
  limited = omega arith;
})
