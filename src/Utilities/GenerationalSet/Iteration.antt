-- ===== src/Utilities/GenerationalSet/Iteration.antt =====
-- src/microReticulum/Utilities/GenerationalSet.h, `const_iterator`, `begin`, and both `erase`.
use micro_reticulum.Prelude.{
  ℕ, zero, suc, ◌+◌, ◌≡◌, refl, List, [], ◌∷◌, ◌++◌, Option, none, some, not, ◌&&◌, length, arith,
}
use micro_reticulum.Utilities.OrderedSet
use micro_reticulum.Utilities.OrderedSet.{Order, equivalent}
use micro_reticulum.Utilities.GenerationalSet.{
  GenerationalSet, Where, in_previous, in_active, at_end, erase, contains, count, size,
}
use micro_reticulum.Utilities.GenerationalSet.Dedup.{IsValid}

-- An iterator: its generation, and what is left of it from the iterator's position on.
pub record Iterator {ℓ} (K : Type ℓ) : Type ℓ where
  pub place : Where
  pub inner : List K

module _ {ℓ} {K : Type ℓ} where
  pub normalize_active : Where → List K → Iterator K
  normalize_active in_active [] = record { place = at_end; inner = [] }
  normalize_active p xs = record { place = p; inner = xs }

  pub normalize_branch : GenerationalSet K → Where → List K → Iterator K
  unfolding normalize_active
  normalize_branch s in_previous [] = normalize_active in_active s.active
  normalize_branch s p xs = normalize_active p xs

  pub normalize : GenerationalSet K → Iterator K → Iterator K
  unfolding normalize_branch
  normalize s i = normalize_branch s i.place i.inner

  pub begin : GenerationalSet K → Iterator K
  unfolding normalize
  begin s = normalize s (record { place = in_previous; inner = s.previous })

  -- `operator*`; `none` where there is nothing to read.
  pub dereference : Iterator K → Option K
  dereference i = elim i.inner [ [] ↦ none | x ∷ xs ↦ some x ]

  abbrev rest_of : List K → List K
  rest_of [] = []
  rest_of (x ∷ xs) = xs

  pub increment : GenerationalSet K → Iterator K → Iterator K
  unfolding normalize
  increment s i = normalize s (record { place = i.place; inner = rest_of i.inner })

  -- The values read in so many steps, and the iterator after them.
  pub traverse : GenerationalSet K → ℕ → Iterator K → List (Option K) × Iterator K
  unfolding dereference increment
  traverse s zero i = ([], i)
  traverse s (suc n) i = let rest = traverse s n (increment s i) in (dereference i ∷ rest.0, rest.1)

  abbrev somes : List K → List (Option K)
  somes [] = []
  somes (x ∷ xs) = some x ∷ somes xs

  abbrev finish : Iterator K
  finish = record { place = at_end; inner = [] }

  traverse-active :
      (s : GenerationalSet K) (xs : List K)
      → traverse s (length xs) (normalize_active in_active xs) ≡ (somes xs, finish)
  unfolding traverse normalize_active normalize
  traverse-active s [] = refl
  traverse-active s (x ∷ []) = refl
  traverse-active s (x ∷ y ∷ xs) = let ih = traverse-active s (y ∷ xs) in ground (arith, ih)

  traverse-previous :
      (s : GenerationalSet K) (xs : List K)
      → traverse s (length xs + length s.active) (normalize_branch s in_previous xs)
        ≡ (somes (xs ++ s.active), finish)
  unfolding traverse normalize
  traverse-previous s [] =
      rw (let e : 0 + length s.active ≡ length s.active = omega arith in e)
        (traverse-active s s.active)
  traverse-previous s (x ∷ xs) =
      let e : suc (length xs) + length s.active ≡ suc (length xs + length s.active) = omega arith in
      rw (e, traverse) (rw (traverse-previous s xs))

  -- From `begin`, as many steps as the size read the previous generation and then the active one,
  -- each step a value, and end at the end.
  pub traverse-begin :
      (s : GenerationalSet K)
      → traverse s (size s) (begin s) ≡ (somes (s.previous ++ s.active), finish)
  unfolding size begin
  traverse-begin s =
      let e : length s.active + length s.previous ≡ length s.previous + length s.active =
        omega arith in
      rw e (traverse-previous s s.previous)

module _ {ℓ} {K : Type ℓ} ⦃o : Order K⦄ where
  -- `erase(iterator)`: the value under the iterator goes, and the next position comes back.
  pub erase_branch : GenerationalSet K → Where → List K → GenerationalSet K × Iterator K
  unfolding normalize
  erase_branch s in_active (x ∷ xs) =
      let t = record s { active = (OrderedSet.erase x s.active).0 } in
      (t, normalize t (record { place = in_active; inner = xs }))
  erase_branch s in_previous (x ∷ xs) =
      let t = record s { previous = (OrderedSet.erase x s.previous).0 } in
      (t, normalize t (record { place = in_previous; inner = xs }))
  erase_branch s p xs = (s, record { place = at_end; inner = [] })

  pub erase_at : GenerationalSet K → Iterator K → GenerationalSet K × Iterator K
  unfolding erase_branch
  erase_at s i = erase_branch s i.place i.inner

  -- From a well-formed set `erase(value)` removes the value and nothing else, reports how many it
  -- removed, and leaves a well-formed set.
  pub erase-contains :
      (s : GenerationalSet K) (v q : K)
      → IsValid s
      → (contains (erase s v).0 q ≡ not (equivalent q v) && contains s q)
        × ((erase s v).1 ≡ count s v)
        × IsValid (erase s v).0
  unfolding erase contains count
  erase-contains s v q h = (
    rw
        (
          OrderedSet.contains-erase q v s.active h.active_sorted,
          OrderedSet.contains-erase q v s.previous h.previous_sorted,
        )
        (ground arith),
    rw (OrderedSet.erase-count v s.active, OrderedSet.erase-count v s.previous)
        (ground (arith, h.disjoint v)),
    record {
      active_sorted = OrderedSet.erase-IsSorted v s.active h.active_sorted;
      previous_sorted = OrderedSet.erase-IsSorted v s.previous h.previous_sorted;
      disjoint = λ k.
          rw
            (
              OrderedSet.contains-erase k v s.active h.active_sorted,
              OrderedSet.contains-erase k v s.previous h.previous_sorted,
            )
            (ground (arith, h.disjoint k));
      active_small = λ p. omega (arith, OrderedSet.length-erase-le v s.active, h.active_small p);
      previous_small =
          λ p. omega (arith, OrderedSet.length-erase-le v s.previous, h.previous_small p);
    },
  )
