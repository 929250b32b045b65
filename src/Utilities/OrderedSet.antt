-- ===== src/Utilities/OrderedSet.antt =====
-- `std::set` with a comparison, as a list in ascending order. The program keeps such sets in
-- src/microReticulum/Utilities/GenerationalSet.h.
use micro_reticulum.Prelude.{
  ℕ, ◌+◌, ◌≤◌, ◌≡◌, refl, List, [], ◌∷◌, Bool, true, false, not, ◌&&◌, ◌||◌, if◌then◌else◌, length,
  All, arith,
}

-- The comparison of a set, a strict total order.
pub record Order {ℓ} (K : Type ℓ) : Type ℓ where
  pub lt : K → K → Bool
  pub lt_irrefl : (a : K) → lt a a ≡ false
  pub lt_trans : (a b c : K) → lt a b ≡ true → lt b c ≡ true → lt a c ≡ true
  pub lt_total : (a b : K) → lt a b ≡ false → lt b a ≡ false → a ≡ b

module _ {ℓ} {K : Type ℓ} ⦃o : Order K⦄ where
  -- Neither comes before the other.
  abbrev pub equivalent : K → K → Bool
  equivalent a b = not (o.lt a b) && not (o.lt b a)

  -- `find(value) != end()`
  unfoldable pub contains : K → List K → Bool
  contains a [] = false
  contains a (x ∷ xs) = equivalent a x || contains a xs

  -- `insert(value)`, the set and whether the value is new.
  unfoldable pub insert : K → List K → List K × Bool
  insert a [] = (a ∷ [], true)
  insert a (x ∷ xs) =
      let rest = insert a xs in
      if o.lt a x
      then (a ∷ x ∷ xs, true)
      else if o.lt x a
      then (x ∷ rest.0, rest.1)
      else (x ∷ xs, false)

  -- `erase(value)`, the set and how many were removed.
  unfoldable pub erase : K → List K → List K × ℕ
  erase a [] = ([], 0)
  erase a (x ∷ xs) =
      let rest = erase a xs in if equivalent a x then (xs, 1) else (x ∷ rest.0, rest.1)

  abbrev pub Above : K → List K → Type 0
  Above x xs = All (λ y. o.lt x y ≡ true) xs

  abbrev pub IsSorted : List K → Type 0
  IsSorted [] = Unit {0}
  IsSorted (x ∷ xs) = Above x xs × IsSorted xs

  Above-trans : (a b : K) (xs : List K) → o.lt a b ≡ true → Above b xs → Above a xs
  Above-trans a b [] h u = tt
  Above-trans a b (x ∷ xs) h u = (o.lt_trans a b x h u.0, Above-trans a b xs h u.1)

  Above-insert : (x a : K) (xs : List K) → o.lt x a ≡ true → Above x xs → Above x (insert a xs).0
  unfolding insert
  Above-insert x a [] h u = (h, tt)
  Above-insert x a (y ∷ ys) h u = ground (arith, Above-insert x a ys h u.1)

  pub insert-IsSorted : (a : K) (xs : List K) → IsSorted xs → IsSorted (insert a xs).0
  unfolding insert
  insert-IsSorted a [] s = (tt, tt)
  insert-IsSorted a (x ∷ xs) s =
      ground (arith, insert-IsSorted a xs s.1, Above-insert x a xs, Above-trans a x xs)

  -- The flag of `insert` says that the value was not there, and then the set is one larger.
  not-contains_below :
      (a : K) (x : K) (xs : List K) → o.lt a x ≡ true → Above x xs → contains a xs ≡ false
  unfolding contains
  not-contains_below a x [] h u = refl
  not-contains_below a x (y ∷ ys) h u =
      ground (arith, o.lt_trans a x y, not-contains_below a x ys h u.1)

  pub insert-new : (a : K) (xs : List K) → IsSorted xs → (insert a xs).1 ≡ not (contains a xs)
  unfolding insert contains
  insert-new a [] s = refl
  insert-new a (x ∷ xs) s = ground (arith, insert-new a xs s.1, not-contains_below a x xs)

  pub length-insert :
      (a : K) (xs : List K)
      → length (insert a xs).0 ≡ (if (insert a xs).1 then length xs + 1 else length xs)
  unfolding insert
  length-insert a [] = omega arith
  length-insert a (x ∷ xs) = ground (arith, length-insert a xs)

  pub insert-old : (a : K) (xs : List K) → (insert a xs).1 ≡ false → (insert a xs).0 ≡ xs
  unfolding insert
  insert-old a [] h = cc
  insert-old a (x ∷ xs) h = ground (arith, insert-old a xs)

  pub contains-insert :
      (q a : K) (xs : List K) → contains q (insert a xs).0 ≡ equivalent q a || contains q xs
  unfolding contains insert
  contains-insert q a [] = ground arith
  contains-insert q a (x ∷ xs) = ground (arith, contains-insert q a xs, o.lt_total a x)

  pub equivalent_refl : (a : K) → equivalent a a ≡ true
  equivalent_refl a = rw (o.lt_irrefl a)

  not-contains_self : (x : K) (xs : List K) → Above x xs → contains x xs ≡ false
  unfolding contains
  not-contains_self x [] u = refl
  not-contains_self x (y ∷ ys) u = ground (arith, not-contains_self x ys u.1)

  pub erase-Above : (x a : K) (xs : List K) → Above x xs → Above x (erase a xs).0
  unfolding erase
  erase-Above x a [] u = tt
  erase-Above x a (y ∷ ys) u = ground (arith, erase-Above x a ys u.1)

  pub erase-IsSorted : (a : K) (xs : List K) → IsSorted xs → IsSorted (erase a xs).0
  unfolding erase
  erase-IsSorted a [] s = tt
  erase-IsSorted a (x ∷ xs) s = ground (arith, erase-IsSorted a xs s.1, erase-Above x a xs)

  pub contains-erase :
      (q a : K) (xs : List K)
      → IsSorted xs
      → contains q (erase a xs).0 ≡ not (equivalent q a) && contains q xs
  unfolding contains erase
  contains-erase q a [] s = ground arith
  contains-erase q a (x ∷ xs) s = ground (
    arith,
    contains-erase q a xs s.1,
    o.lt_total a x,
    o.lt_total q x,
    not-contains_self x xs,
    o.lt_irrefl x,
  )

  pub erase-count : (a : K) (xs : List K) → (erase a xs).1 ≡ (if contains a xs then 1 else 0)
  unfolding contains erase
  erase-count a [] = refl
  erase-count a (x ∷ xs) = ground (arith, erase-count a xs)

  pub length-erase-le : (a : K) (xs : List K) → length (erase a xs).0 ≤ length xs
  unfolding erase
  length-erase-le a [] = omega arith
  length-erase-le a (x ∷ xs) = ground (arith, length-erase-le a xs)
