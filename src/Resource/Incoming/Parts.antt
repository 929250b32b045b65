-- ===== src/Resource/Incoming/Parts.antt =====
-- src/microReticulum/Resource.cpp: the counts of a transfer while parts are filed, and what is
-- requested.
use micro_reticulum.Prelude.{
  ℕ, zero, suc, ◌+◌, ◌-◌, ◌≤◌, ◌<◌, ◌≡◌, refl, sym, ap, ◌∙◌, subst, inl, inr, List, [], ◌∷◌, Option,
  none, some, Bool, true, false, ◌&&◌, not, if◌then◌else◌, leb, ◌==◌, length, set, drop, if_both,
  Bool-cases, min, arith,
}
use micro_reticulum.Bytes.{Bytes, same}
use micro_reticulum.Resource.{entry}
use micro_reticulum.Resource.Incoming.{
  Incoming, is_filled, slot_filled, leading, advance, file_at, file_from, file_part,
}

unfoldable pub filled : List (Option Bytes) → ℕ
filled [] = 0
filled (s ∷ ss) = if is_filled s then suc (filled ss) else filled ss

pub filled_most : (ss : List (Option Bytes)) → filled ss ≤ length ss
unfolding filled
filled_most [] = omega arith
filled_most (none ∷ ss) = omega (arith, filled_most ss)
filled_most (some a ∷ ss) = omega (arith, filled_most ss)

-- The counts of a transfer say what its slots are: the number of filled ones, and of those before the
-- first empty one.
pub record Counted (r : Incoming) : Type 0 where
  pub counts : r.received_count ≡ filled r.parts
  pub leads : r.completed ≡ leading r.parts
  pub sizes : r.total_parts ≡ length r.parts

length-set : (ss : List (Option Bytes)) (j : ℕ) (v : Option Bytes) → length (set ss j v) ≡ length ss
length-set [] j v = refl
length-set (s ∷ ss) zero v = refl
length-set (s ∷ ss) (suc j) v = ap suc (length-set ss j v)

-- An empty slot is filled: one more, unless there is no such slot.
filled-set :
    (ss : List (Option Bytes)) (j : ℕ) (b : Bytes)
    → slot_filled ss j ≡ false
    → j < length ss
    → filled (set ss j (some b)) ≡ suc (filled ss)
unfolding filled
filled-set [] j b e h = absurd (omega arith)
filled-set (none ∷ ss) zero b e h = refl
filled-set (some a ∷ ss) zero b e h = cc
filled-set (none ∷ ss) (suc j) b e h = filled-set ss j b e (omega arith)
filled-set (some a ∷ ss) (suc j) b e h = ap suc (filled-set ss j b e (omega arith))

-- The loop from any position before the first empty slot ends there.
leading-drop :
    (ss : List (Option Bytes)) (n : ℕ) → n ≤ leading ss → n + leading (drop n ss) ≡ leading ss
unfolding leading
leading-drop ss zero h = omega arith
leading-drop [] (suc n) h = absurd (omega arith)
leading-drop (none ∷ ss) (suc n) h = absurd (omega arith)
leading-drop (some a ∷ ss) (suc n) h = omega (arith, leading-drop ss n (omega arith))

leading-set :
    (ss : List (Option Bytes)) (j : ℕ) (b : Bytes) → leading ss ≤ leading (set ss j (some b))
unfolding leading
leading-set [] j b = omega arith
leading-set (none ∷ ss) zero b = omega arith
leading-set (some a ∷ ss) zero b = omega arith
leading-set (none ∷ ss) (suc j) b = omega arith
leading-set (some a ∷ ss) (suc j) b = omega (arith, leading-set ss j b)

leading-set_next :
    (ss : List (Option Bytes)) (b : Bytes)
    → leading ss < length ss
    → suc (leading ss) ≤ leading (set ss (leading ss) (some b))
unfolding leading
leading-set_next [] b h = absurd (omega arith)
leading-set_next (none ∷ ss) b h = omega arith
leading-set_next (some a ∷ ss) b h = omega (arith, leading-set_next ss b (omega arith))

advance-set :
    (ss : List (Option Bytes)) (j : ℕ) (b : Bytes)
    → j < length ss
    → advance (set ss j (some b)) j (leading ss) ≡ leading (set ss j (some b))
unfolding advance
advance-set ss j b h = elim (Bool-cases (j == leading ss)) [
  | inl e ↦
      let meets : j ≡ leading ss = ground arith in
      let more = leading-set_next ss b (omega arith) in
      rw e (leading-drop (set ss j (some b)) (suc j) (rw meets more))
  | inr e ↦ rw e (leading-drop (set ss j (some b)) (leading ss) (leading-set ss j b))
]

and_not : (a b : Bool) → (a && not b) ≡ true → b ≡ false
and_not true false h = refl
and_not false false h = refl
and_not true true h = cc
and_not false true h = cc

file_at-Counted :
    (part_hash part : Bytes) (j : ℕ) (r : Incoming)
    → j < r.total_parts
    → Counted r
    → Counted (file_at part_hash part j r)
unfolding file_at
file_at-Counted part_hash part j r h c =
    if_both Counted (same (entry r.hashmap j) part_hash && not (slot_filled r.parts j))
      (λ e.
        let empty : slot_filled r.parts j ≡ false =
          and_not (same (entry r.hashmap j) part_hash) (slot_filled r.parts j) e in
        let inside : j < length r.parts = omega (arith, c.sizes) in
        record {
          counts = ap suc c.counts ∙ sym (filled-set r.parts j part empty inside);
          leads =
              ap (advance (set r.parts j (some part)) j) c.leads
              ∙ advance-set r.parts j part inside;
          sizes = c.sizes ∙ sym (length-set r.parts j (some part));
        })
      (λ e. c)

file_at-total_parts :
    (part_hash part : Bytes) (j : ℕ) (r : Incoming)
    → (file_at part_hash part j r).total_parts ≡ r.total_parts
unfolding file_at
file_at-total_parts part_hash part j r =
    if_both (λ (t : Incoming). t.total_parts ≡ r.total_parts)
      (same (entry r.hashmap j) part_hash && not (slot_filled r.parts j)) (λ e. refl) (λ e. refl)

file_from-Counted :
    (part_hash part : Bytes) (n j : ℕ) (r : Incoming)
    → j + n ≤ r.total_parts
    → Counted r
    → Counted (file_from part_hash part n j r)
unfolding file_from
file_from-Counted part_hash part zero j r h c = c
file_from-Counted part_hash part (suc n) j r h c =
    file_from-Counted part_hash part n (suc j) (file_at part_hash part j r)
      (omega (arith, file_at-total_parts part_hash part j r))
      (file_at-Counted part_hash part j r (omega arith) c)

-- Filing a part keeps the counts of a transfer right, wherever and however often its hash stands in
-- the window, and also where it is not expected.
pub file_part-Counted :
    (part_hash part : Bytes) (r : Incoming) → Counted r → Counted (file_part part_hash part r)
unfolding file_part file_from
file_part-Counted part_hash part r c =
    let first : ℕ = r.completed - 1 in
    let end : ℕ = min (first + r.window.window) r.total_parts in
    elim (Bool-cases (leb first end)) [
      | inl e ↦ file_from-Counted part_hash part (end - first) first r (ground arith) c
      | inr e ↦
          let nothing : end - first ≡ zero = ground arith in
          subst (λ n. Counted (file_from part_hash part n first r)) (sym nothing) c
    ]

pub filled_all : (ss : List (Option Bytes)) → filled ss ≡ length ss → leading ss ≡ length ss
unfolding filled leading
filled_all [] h = refl
filled_all (none ∷ ss) h = absurd (omega (arith, filled_most ss))
filled_all (some a ∷ ss) h = ap suc (filled_all ss (omega arith))
