-- ===== src/Transport/Rate.antt =====
-- src/microReticulum/Transport.cpp, `inbound`: the limit on the rate of announces of a destination,
-- with `RateEntry` of Transport.h. Times are numbers of ticks; a violation counts 1.
use micro_reticulum.Prelude.{
  ℕ, ◌+◌, ◌-◌, ◌≤◌, ◌<◌, ◌≡◌, refl, ◌∙◌, List, [], ◌∷◌, ◌++◌, Option, none, some, Bool, true, false,
  if◌then◌else◌, ltb, length, arith,
}

pub record RateEntry : Type 0 where
  pub last : ℕ
  pub rate_violations : ℕ
  pub blocked_until : ℕ
  pub timestamps : List ℕ

-- The limits that the receiving interface sets; its target is above 0.
pub record Limits : Type 0 where
  pub target : ℕ
  pub grace : ℕ
  pub penalty : ℕ

abbrev pub max_rate_timestamps : ℕ
max_rate_timestamps = 16

unfoldable pub new_rate_entry : ℕ → RateEntry
new_rate_entry now = record {
  last = now;
  rate_violations = 0;
  blocked_until = 0;
  timestamps = now ∷ [];
}

-- `while (size > MAX_RATE_TIMESTAMPS) erase(begin)`
unfoldable pub trim : List ℕ → List ℕ
trim [] = []
trim (t ∷ ts) =
    let rest = trim ts in if ltb max_rate_timestamps (length (t ∷ ts)) then rest else t ∷ ts

-- One violation more where less than the target has passed, else one less.
abbrev pub violations : Limits → ℕ → RateEntry → ℕ
violations l now e =
    if ltb now (e.last + l.target) then e.rate_violations + 1 else e.rate_violations - 1

-- A repeated announce: the entry, and whether the announce is blocked.
unfoldable pub rate_known : Limits → ℕ → RateEntry → RateEntry × Bool
unfolding trim
rate_known l now e =
    let e' = record e { timestamps = trim (e.timestamps ++ now ∷ []) } in
    let v = violations l now e in
    if ltb e.blocked_until now
    then if ltb l.grace v
      then (record e' { rate_violations = v; blocked_until = e.last + l.target + l.penalty }, true)
      else (record e' { rate_violations = v; last = now }, false)
    else (e', true)

unfoldable pub rate_check : Limits → ℕ → Option RateEntry → RateEntry × Bool
unfolding rate_known new_rate_entry
rate_check l now none = (new_rate_entry now, false)
rate_check l now (some e) = rate_known l now e

-- The announces of one destination at the given times, and whether the last was blocked.
pub rate_run : Limits → RateEntry → List ℕ → RateEntry × Bool
unfolding rate_known
rate_run l e [] = (e, false)
rate_run l e (now ∷ []) = rate_known l now e
rate_run l e (now ∷ next ∷ times) = rate_run l (rate_known l now e).0 (next ∷ times)

-- At least the target between any two announces.
abbrev pub Spaced : ℕ → ℕ → List ℕ → Type 0
Spaced target last [] = Unit {0}
Spaced target last (t ∷ ts) = (last + target ≤ t) × Spaced target t ts

-- Less than the target between any two announces.
abbrev pub Fast : ℕ → ℕ → List ℕ → Type 0
Fast target last [] = Unit {0}
Fast target last (t ∷ ts) = (last ≤ t) × (t < last + target) × Fast target t ts

-- An announce that is let through: the entry starts from its time.
record Passes (e : RateEntry) (now v : ℕ) (r : RateEntry × Bool) : Type 0 where
  let_through : r.1 ≡ false
  from_now : r.0.last ≡ now
  counted : r.0.rate_violations ≡ v
  same_block : r.0.blocked_until ≡ e.blocked_until

rate_known-Passes :
    (l : Limits) (now : ℕ) (e : RateEntry)
    → e.blocked_until < now
    → violations l now e ≤ l.grace
    → Passes e now (violations l now e) (rate_known l now e)
unfolding rate_known
rate_known-Passes l now e b v = ground arith

-- A destination without violations or a running block, whose announces are all at least the target
-- apart, is never blocked.
pub rate_run-Spaced :
    (l : Limits) (e : RateEntry) (times : List ℕ)
    → 0 < l.target
    → e.rate_violations ≡ 0
    → e.blocked_until ≤ e.last
    → Spaced l.target e.last times
    → (rate_run l e times).1 ≡ false
unfolding rate_run
rate_run-Spaced l e [] p v b s = refl
rate_run-Spaced l e (t ∷ []) p v b s =
    (rate_known-Passes l t e (omega arith) (ground (arith, s.0))).let_through
rate_run-Spaced l e (t ∷ u ∷ times) p v b s =
    let r = rate_known-Passes l t e (omega arith) (ground (arith, s.0)) in
    let none_left : violations l t e ≡ 0 = ground (arith, s.0) in
    rate_run-Spaced l (rate_known l t e).0 (u ∷ times) p (r.counted ∙ none_left)
      (omega (arith, r.same_block, r.from_now)) (rw r.from_now s.1)

-- A destination that is not blocked, and whose announces are each less than the target apart, is
-- blocked at the announce that takes its violations past the grace.
pub rate_run-Fast :
    (l : Limits) (e : RateEntry) (times : List ℕ)
    → 0 < length times
    → e.rate_violations + length times ≡ l.grace + 1
    → e.blocked_until < e.last
    → Fast l.target e.last times
    → (rate_run l e times).1 ≡ true
unfolding rate_run
rate_run-Fast l e [] p n b s = absurd (omega arith)
rate_run-Fast l e (t ∷ []) p n b s = unfold rate_known in ground (arith, s.0, s.1)
rate_run-Fast l e (t ∷ u ∷ times) p n b s =
    let up : violations l t e ≡ e.rate_violations + 1 = ground (arith, s.1) in
    let r = rate_known-Passes l t e (omega (arith, s.0)) (omega arith) in
    rate_run-Fast l (rate_known l t e).0 (u ∷ times) (omega arith) (omega (arith, r.counted))
      (omega (arith, r.same_block, r.from_now, s.0)) (rw r.from_now s.2)
