-- ===== src/Utilities/GenerationalSet.antt =====
-- src/microReticulum/Utilities/GenerationalSet.h: a set in two generations. A size is below the
-- largest `size_t`, so that `_max_size + 1` does not wrap.
pub mod Dedup
pub mod Iteration
use micro_reticulum.Prelude.{
  ℕ, ◌+◌, ◌*◌, ◌/◌, ◌≤◌, ◌<◌, ◌≡◌, refl, List, [], ◌∷◌, ◌++◌, Option, none, some, Bool, true, false,
  not, ◌&&◌, ◌||◌, if◌then◌else◌, ltb, leb, length, arith,
}
use micro_reticulum.Utilities.OrderedSet
use micro_reticulum.Utilities.OrderedSet.{Order}

pub record GenerationalSet {ℓ} (K : Type ℓ) : Type ℓ where
  pub active : List K
  pub previous : List K
  pub max_size : ℕ

-- A generation is full at this many entries.
abbrev pub half : ℕ → ℕ
half n = (n + 1) / 2

-- `const_iterator::Where`
pub data Where : Type 0 where
  in_previous in_active at_end : Where

module _ {ℓ} {K : Type ℓ} where
  unfoldable pub size : GenerationalSet K → ℕ
  size s = length s.active + length s.previous

  unfoldable pub is_empty : GenerationalSet K → Bool
  is_empty s = leb (length s.active) 0 && leb (length s.previous) 0

  unfoldable pub clear : GenerationalSet K → GenerationalSet K
  clear s = record s { active = []; previous = [] }

  unfoldable pub set_max_size : GenerationalSet K → ℕ → GenerationalSet K
  set_max_size s n = record s { max_size = n }

  unfoldable pub rotation_due : GenerationalSet K → Bool
  rotation_due s = ltb 0 s.max_size && leb (half s.max_size) (length s.active)

module _ {ℓ} {K : Type ℓ} ⦃o : Order K⦄ where
  -- The end of `insert`, behind the insertion into the active generation.
  unfoldable pub rotate : GenerationalSet K → GenerationalSet K × Where
  unfolding rotation_due
  rotate s =
      if rotation_due s
      then (record s { active = []; previous = s.active }, in_previous)
      else (s, in_active)

  -- The set, where the value stands, and whether it is new.
  unfoldable pub insert : GenerationalSet K → K → GenerationalSet K × Where × Bool
  unfolding rotate
  insert s value =
      if OrderedSet.contains value s.previous
      then (s, in_previous, false)
      else let (active, fresh) = OrderedSet.insert value s.active in
        let t = record s { active = active } in
        if fresh then (let (u, place) = rotate t in (u, place, true)) else (t, in_active, false)

  unfoldable pub erase : GenerationalSet K → K → GenerationalSet K × ℕ
  erase s value =
      let (active, n) = OrderedSet.erase value s.active in
      let (previous, m) = OrderedSet.erase value s.previous in
      (record s { active = active; previous = previous }, n + m)

  unfoldable pub find : GenerationalSet K → K → Where
  find s value =
      if OrderedSet.contains value s.active
      then in_active
      else if OrderedSet.contains value s.previous
      then in_previous
      else at_end

  unfoldable pub count : GenerationalSet K → K → ℕ
  count s value =
      if OrderedSet.contains value s.active || OrderedSet.contains value s.previous then 1 else 0

  unfoldable pub contains : GenerationalSet K → K → Bool
  contains s value = OrderedSet.contains value s.active || OrderedSet.contains value s.previous
