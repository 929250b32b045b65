-- ===== src/Prelude/Lists.antt =====
-- Lists measured and indexed by native numbers, under the library's names.
use Prim.Native.Nat.{ℕ, zero, suc, ◌+◌, ◌-◌, ◌≤◌, min}
use mathlib.Core.Path.{◌≡◌, refl, ap}
use mathlib.Core.List.{List, [], ◌∷◌, ◌++◌}
use mathlib.Core.Option.{Option, none, some}
use native.Mathlib.Omega.{arith}

module _ {ℓ} {A : Type ℓ} where
  abbrev pub length : List A → ℕ
  length [] = 0
  length (x ∷ xs) = suc (length xs)

  abbrev pub get_elem? : List A → ℕ → Option A
  get_elem? [] i = none
  get_elem? (x ∷ xs) zero = some x
  get_elem? (x ∷ xs) (suc i) = get_elem? xs i

  abbrev pub get_or : List A → ℕ → A → A
  get_or [] i d = d
  get_or (x ∷ xs) zero d = x
  get_or (x ∷ xs) (suc i) d = get_or xs i d

  -- A write out of bounds changes nothing.
  abbrev pub set : List A → ℕ → A → List A
  set [] i v = []
  set (x ∷ xs) zero v = v ∷ xs
  set (x ∷ xs) (suc i) v = x ∷ set xs i v

  abbrev pub take : ℕ → List A → List A
  take zero xs = []
  take (suc n) [] = []
  take (suc n) (x ∷ xs) = x ∷ take n xs

  abbrev pub drop : ℕ → List A → List A
  drop zero xs = xs
  drop (suc n) [] = []
  drop (suc n) (x ∷ xs) = drop n xs

  abbrev pub replicate : ℕ → A → List A
  replicate zero a = []
  replicate (suc n) a = a ∷ replicate n a

  -- A predicate of every element, by recursion.
  abbrev pub All {κ} : (A → Type κ) → List A → Type κ
  All P [] = Unit
  All P (x ∷ xs) = P x × All P xs

module _ {ℓ} {A : Type ℓ} where
  pub length-append : (xs ys : List A) → length (xs ++ ys) ≡ length xs + length ys
  length-append [] ys = omega arith
  length-append (x ∷ xs) ys = omega (arith, length-append xs ys)

  pub length-take : (n : ℕ) (xs : List A) → length (take n xs) ≡ min n (length xs)
  length-take zero xs = omega arith
  length-take (suc n) [] = omega arith
  length-take (suc n) (x ∷ xs) = omega (arith, length-take n xs)

  pub length-drop : (n : ℕ) (xs : List A) → length (drop n xs) ≡ length xs - n
  length-drop zero xs = omega arith
  length-drop (suc n) [] = omega arith
  length-drop (suc n) (x ∷ xs) = omega (arith, length-drop n xs)

  pub length-replicate : (n : ℕ) (a : A) → length (replicate n a) ≡ n
  length-replicate zero a = refl
  length-replicate (suc n) a = ap suc (length-replicate n a)

  pub take-append-drop : (n : ℕ) (xs : List A) → take n xs ++ drop n xs ≡ xs
  take-append-drop zero xs = refl
  take-append-drop (suc n) [] = refl
  take-append-drop (suc n) (x ∷ xs) = rw (take-append-drop n xs)

  -- Taking or dropping exactly a prefix.
  pub take-append : (n : ℕ) (xs ys : List A) → length xs ≡ n → take n (xs ++ ys) ≡ xs
  take-append zero [] ys h = refl
  take-append zero (x ∷ xs) ys h = absurd (omega arith)
  take-append (suc n) [] ys h = absurd (omega arith)
  take-append (suc n) (x ∷ xs) ys h = ap (◌∷◌ x) (take-append n xs ys (omega arith))

  pub drop-append : (n : ℕ) (xs ys : List A) → length xs ≡ n → drop n (xs ++ ys) ≡ ys
  drop-append zero [] ys h = refl
  drop-append zero (x ∷ xs) ys h = absurd (omega arith)
  drop-append (suc n) [] ys h = absurd (omega arith)
  drop-append (suc n) (x ∷ xs) ys h = drop-append n xs ys (omega arith)

  pub take_all : (n : ℕ) (xs : List A) → length xs ≤ n → take n xs ≡ xs
  take_all zero [] h = refl
  take_all zero (x ∷ xs) h = absurd (omega arith)
  take_all (suc n) [] h = refl
  take_all (suc n) (x ∷ xs) h = ap (◌∷◌ x) (take_all n xs (omega arith))

  pub drop_all : (n : ℕ) (xs : List A) → length xs ≤ n → drop n xs ≡ []
  drop_all zero [] h = refl
  drop_all zero (x ∷ xs) h = absurd (omega arith)
  drop_all (suc n) [] h = refl
  drop_all (suc n) (x ∷ xs) h = drop_all n xs (omega arith)

  pub get_or-append :
      (n : ℕ) (xs : List A) (x : A) (ys : List A) (d : A)
      → length xs ≡ n
      → get_or (xs ++ x ∷ ys) n d ≡ x
  get_or-append zero [] x ys d h = refl
  get_or-append zero (z ∷ xs) x ys d h = absurd (omega arith)
  get_or-append (suc n) [] x ys d h = absurd (omega arith)
  get_or-append (suc n) (z ∷ xs) x ys d h = get_or-append n xs x ys d (omega arith)

  pub drop-drop : (m k n : ℕ) (xs : List A) → m ≡ k + n → drop m xs ≡ drop n (drop k xs)
  drop-drop m zero n xs h = let e : m ≡ n = omega arith in rw e refl
  drop-drop zero (suc k) n [] h = absurd (omega arith)
  drop-drop (suc m) (suc k) zero [] h = refl
  drop-drop (suc m) (suc k) (suc n) [] h = refl
  drop-drop zero (suc k) n (x ∷ xs) h = absurd (omega arith)
  drop-drop (suc m) (suc k) n (x ∷ xs) h = drop-drop m k n xs (omega arith)

  -- Reading behind a prefix.
  pub get_or_past :
      (m i : ℕ) (xs ys : List A) (d : A) → m ≡ length xs + i → get_or (xs ++ ys) m d ≡ get_or ys i d
  get_or_past m i [] ys d h = let e : m ≡ i = omega arith in rw e refl
  get_or_past zero i (x ∷ xs) ys d h = absurd (omega arith)
  get_or_past (suc m) i (x ∷ xs) ys d h = get_or_past m i xs ys d (omega arith)

  -- Dropping one more than a prefix, and a second field behind it.
  pub drop_past :
      (n : ℕ) (xs : List A) (x : A) (ys : List A) → length xs ≡ n → drop (suc n) (xs ++ x ∷ ys) ≡ ys
  drop_past zero [] x ys h = refl
  drop_past zero (z ∷ xs) x ys h = absurd (omega arith)
  drop_past (suc n) [] x ys h = absurd (omega arith)
  drop_past (suc n) (z ∷ xs) x ys h = drop_past n xs x ys (omega arith)
