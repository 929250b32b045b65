-- ===== src/Provisioning/Index.antt =====
-- A vector with a hash map from keys to positions in it, as Provisioning/Namespace.cpp and
-- Provisioning/Registry.cpp of src/microReticulum keep their fields and namespaces; the hash map is
-- a list of pairs.
use micro_reticulum.Prelude.{
  ℕ, zero, suc, ◌<◌, ◌≡◌, refl, sym, ap, ◌∙◌, inl, inr, List, [], ◌∷◌, ◌++◌, Option, none, some,
  false, if◌then◌else◌, ◌==◌, ==_iff, length, get_elem?, Bool-cases, Option-cases, arith,
}

abbrev pub Map {ℓ} : Type ℓ → Type ℓ
Map A = List (ℕ × A)

module _ {ℓ} {A : Type ℓ} where
  unfoldable pub lookup : ℕ → Map A → Option A
  lookup k [] = none
  lookup k ((j, a) ∷ m) = if k == j then some a else lookup k m

  unfoldable pub erase : ℕ → Map A → Map A
  erase k [] = []
  erase k ((j, a) ∷ m) = let rest = erase k m in if k == j then rest else (j, a) ∷ rest

  -- `map[k] = a`
  unfoldable pub assign : ℕ → A → Map A → Map A
  unfolding erase
  assign k a m = (k, a) ∷ erase k m

  pub lookup-erase :
      (k j : ℕ) (m : Map A) → lookup k (erase j m) ≡ (if k == j then none else lookup k m)
  unfolding lookup erase
  lookup-erase k j [] = ground arith
  lookup-erase k j ((i, a) ∷ m) = ground (arith, lookup-erase k j m)

  pub lookup-assign :
      (k j : ℕ) (a : A) (m : Map A)
      → lookup k (assign j a m) ≡ (if k == j then some a else lookup k m)
  unfolding lookup assign
  lookup-assign k j a m = rw (lookup-erase k j m) (ground arith)

  pub get_elem?-append :
      (i : ℕ) (xs : List A) (x : A)
      → get_elem? (xs ++ x ∷ []) i ≡ (if i == length xs then some x else get_elem? xs i)
  get_elem?-append zero [] x = refl
  get_elem?-append (suc i) [] x = ground arith
  get_elem?-append zero (y ∷ xs) x = ground arith
  get_elem?-append (suc i) (y ∷ xs) x = ground (arith, get_elem?-append i xs x)

  pub get_elem?_below : (i : ℕ) (xs : List A) (x : A) → get_elem? xs i ≡ some x → i < length xs
  get_elem?_below i [] x h = absurd cc
  get_elem?_below zero (y ∷ xs) x h = omega arith
  get_elem?_below (suc i) (y ∷ xs) x h = omega (arith, get_elem?_below i xs x h)

-- The item at a key's position.
unfoldable pub find {ℓ} : {A : Type ℓ} → Map ℕ → List A → ℕ → Option A
unfolding lookup
find index items k = elim (lookup k index) [ none ↦ none | some i ↦ get_elem? items i ]

find_absent {ℓ} :
    {A : Type ℓ} (k : ℕ) (index : Map ℕ) (items : List A)
    → lookup k index ≡ none
    → find index items k ≡ none
unfolding find
find_absent k index items h = rw (find, h) refl

-- Positions and keys agree both ways.
pub record IsIndex {ℓ} {A : Type ℓ} (key : A → ℕ) (items : List A) (index : Map ℕ) : Type ℓ where
  pub found :
      (k i : ℕ) → lookup k index ≡ some i → (a : A) × (get_elem? items i ≡ some a) × (key a ≡ k)
  pub listed : (i : ℕ) (a : A) → get_elem? items i ≡ some a → lookup (key a) index ≡ some i

apart :
    (j k i : ℕ) (index : Map ℕ) → lookup j index ≡ some i → lookup k index ≡ none → j == k ≡ false
apart j k i index h g = elim (Bool-cases (j == k)) [
  | inl e ↦ absurd (cc (rw ((==_iff j k).0 e) at h))
  | inr e ↦ e
]

module _ {ℓ} {A : Type ℓ} (key : A → ℕ) where
  pub IsIndex-nil : IsIndex key [] []
  unfolding lookup
  IsIndex-nil = record { found = λ k i h. absurd cc; listed = λ i a h. absurd cc }

  module _ (items : List A) (index : Map ℕ) (w : IsIndex key items index) where
    -- An item with a new key is put at the end.
    pub IsIndex-append :
        (a : A)
        → lookup (key a) index ≡ none
        → IsIndex key (items ++ a ∷ []) (assign (key a) (length items) index)
    IsIndex-append a new = record {
      found = λ k i h. elim (Bool-cases (k == key a)) [
        | inl e ↦
            let at : some (length items) ≡ some i =
              rw (lookup-assign k (key a) (length items) index, e) at h in
            (a, ground (arith, get_elem?-append i items a, at), sym ((==_iff k (key a)).0 e))
        | inr e ↦
            let old : lookup k index ≡ some i =
              rw (lookup-assign k (key a) (length items) index, e) at h in
            let (b, g, same_key) = w.found k i old in
            let below = get_elem?_below i items b g in
            (b, ground (arith, get_elem?-append i items a, g, below), same_key)
      ];
      listed = λ i b h. elim (Bool-cases (i == length items)) [
        | inl e ↦
            let at : some a ≡ some b = rw (get_elem?-append i items a, e) at h in
            let same_key : key a ≡ key b = ap (λ o. elim o [ none ↦ key a | some x ↦ key x ]) at in
            rw (lookup-assign (key b) (key a) (length items) index) (ground (arith, e, same_key))
        | inr e ↦
            let old : get_elem? items i ≡ some b = rw (get_elem?-append i items a, e) at h in
            let there = w.listed i b old in
            let other : key b == key a ≡ false = apart (key b) (key a) i index there new in
            rw (lookup-assign (key b) (key a) (length items) index, other) there
      ];
    }

    -- Then it is found under its key, and the others as before.
    pub find-append :
        (a : A) (k : ℕ)
        → find (assign (key a) (length items) index) (items ++ a ∷ []) k
          ≡ (if k == key a then some a else find index items k)
    unfolding find
    find-append a k =
        let at = lookup-assign k (key a) (length items) index in
        elim (Bool-cases (k == key a)) [
          | inl e ↦ rw (find, at, e, get_elem?-append (length items) items a) (ground arith)
          | inr e ↦ elim (Option-cases (lookup k index)) [
            | inl f ↦ rw (find, at, e, f) refl
            | inr (i, f) ↦
                let (b, g, h) = w.found k i f in
                let below = get_elem?_below i items b g in
                rw (find, at, e, f, get_elem?-append i items a) (ground (arith, below))
          ]
        ]

    -- What was found is still found.
    pub find_kept :
        (a b : A) (k : ℕ)
        → lookup (key a) index ≡ none
        → find index items k ≡ some b
        → find (assign (key a) (length items) index) (items ++ a ∷ []) k ≡ some b
    find_kept a b k new h = elim (Bool-cases (k == key a)) [
      | inl e ↦
          let gone : find index items (key a) ≡ none = find_absent (key a) index items new in
          absurd (cc (rw ((==_iff k (key a)).0 e, gone) at h))
      | inr e ↦ find-append a k ∙ rw e h
    ]
