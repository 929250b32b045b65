-- ===== src/Utilities/GenerationalSet/Dedup.antt =====
-- src/microReticulum/Utilities/GenerationalSet.h, `insert`: sizes, membership, and how long a value
-- is known.
use micro_reticulum.Prelude.{
  ℕ, suc, ◌+◌, ◌≤◌, ◌<◌, ◌≡◌, refl, ◌⊎◌, inl, inr, List, [], ◌∷◌, true, false, ◌&&◌, length,
  Bool-cases, arith,
}
use micro_reticulum.Utilities.OrderedSet
use micro_reticulum.Utilities.OrderedSet.{Order, IsSorted, equivalent}
use micro_reticulum.Utilities.GenerationalSet.{
  GenerationalSet, half, rotate, rotation_due, insert, contains, size,
}

module _ {ℓ} {K : Type ℓ} ⦃o : Order K⦄ where
  -- Both generations are sets, no value stands in both, and neither is too large.
  pub record IsValid (s : GenerationalSet K) : Type ℓ where
    pub active_sorted : IsSorted s.active
    pub previous_sorted : IsSorted s.previous
    pub disjoint :
        (q : K) → (OrderedSet.contains q s.active && OrderedSet.contains q s.previous) ≡ false
    pub active_small : 0 < s.max_size → length s.active < half s.max_size
    pub previous_small : 0 < s.max_size → length s.previous ≤ half s.max_size

  equivalent-eq : (a b : K) → equivalent a b ≡ true → a ≡ b
  equivalent-eq a b h = o.lt_total a b (ground (arith, h)) (ground (arith, h))

  contains_congr :
      (a b : K) (xs : List K)
      → equivalent a b ≡ true
      → OrderedSet.contains a xs ≡ OrderedSet.contains b xs
  contains_congr a b xs h = rw (equivalent-eq a b h)

  -- A set with the value put into the active generation is well formed but for the size.
  disjoint-insert :
      (s : GenerationalSet K) (v q : K)
      → IsValid s
      → OrderedSet.contains v s.previous ≡ false
      → (OrderedSet.contains q (OrderedSet.insert v s.active).0 && OrderedSet.contains q s.previous)
        ≡ false
  disjoint-insert s v q h e =
      ground (
        arith,
        OrderedSet.contains-insert q v s.active,
        contains_congr q v s.previous,
        h.disjoint q,
      )

  rotate-IsValid :
      (s : GenerationalSet K)
      → IsSorted s.active
      → IsSorted s.previous
      → ((q : K) → (OrderedSet.contains q s.active && OrderedSet.contains q s.previous) ≡ false)
      → (0 < s.max_size → length s.active ≤ half s.max_size)
      → (0 < s.max_size → length s.previous ≤ half s.max_size)
      → IsValid (rotate s).0
  unfolding rotate OrderedSet.contains
  rotate-IsValid s sa sp d la lp = elim (Bool-cases (rotation_due s)) [
    | inl due ↦ rw due (record {
      active_sorted = tt;
      previous_sorted = sa;
      disjoint = λ q. refl;
      active_small = λ h. omega arith;
      previous_small = la;
    })
    | inr early ↦ rw early (record {
      active_sorted = sa;
      previous_sorted = sp;
      disjoint = d;
      active_small = λ h. unfold rotation_due in ground (arith, early);
      previous_small = lp;
    })
  ]

  insert_new :
      (s : GenerationalSet K) (v : K)
      → IsValid s
      → contains s v ≡ false
      → insert s v ≡ (
        (rotate (record s { active = (OrderedSet.insert v s.active).0 })).0,
        (rotate (record s { active = (OrderedSet.insert v s.active).0 })).1,
        true,
      )
  unfolding insert contains
  insert_new s v h e = ground (arith, OrderedSet.insert-new v s.active h.active_sorted)

  -- A value that is known changes nothing.
  pub insert_known :
      (s : GenerationalSet K) (v : K)
      → IsValid s
      → contains s v ≡ true
      → ((insert s v).0 ≡ s) × ((insert s v).2 ≡ false)
  unfolding insert contains
  insert_known s v h e =
      ground
        (arith, OrderedSet.insert-new v s.active h.active_sorted, OrderedSet.insert-old v s.active)

  IsValid-insert : (s : GenerationalSet K) (v : K) → IsValid s → IsValid (insert s v).0
  IsValid-insert s v h = elim (Bool-cases (contains s v)) [
    | inl old ↦ rw ((insert_known s v h old).0) h
    | inr new ↦
        let e : OrderedSet.contains v s.previous ≡ false = unfold contains in ground (arith, new) in
        rw (insert_new s v h new) (
          rotate-IsValid _ (OrderedSet.insert-IsSorted v s.active h.active_sorted) h.previous_sorted
            (λ q. disjoint-insert s v q h e)
            (λ p. ground (arith, OrderedSet.length-insert v s.active, h.active_small p))
            h.previous_small)
  ]

  insert-max_size : (s : GenerationalSet K) (v : K) → (insert s v).0.max_size ≡ s.max_size
  unfolding insert rotate
  insert-max_size s v = ground arith

  -- `insert` keeps a well-formed set well formed, with at most `max_size` entries where that is not
  -- zero.
  pub insert-IsValid :
      (s : GenerationalSet K) (v : K)
      → IsValid s
      → IsValid (insert s v).0 × (0 < s.max_size → size (insert s v).0 ≤ s.max_size)
  unfolding size
  insert-IsValid s v h =
      let t = IsValid-insert s v h in
      (
        t,
        λ p.
            let m : 0 < (insert s v).0.max_size = rw (insert-max_size s v) p in
            omega (arith, insert-max_size s v, t.active_small m, t.previous_small m),
      )

  -- The value survives `k` further insertions.
  abbrev Survives : ℕ → GenerationalSet K → K → Type 0
  Survives k s v =
      ((OrderedSet.contains v s.active ≡ true) × (k ≤ half s.max_size))
      ⊎ ((OrderedSet.contains v s.previous ≡ true) × (length s.active + k < half s.max_size))

  Survives-contains : (k : ℕ) (s : GenerationalSet K) (v : K) → Survives k s v → contains s v ≡ true
  unfolding contains
  Survives-contains k s v h = ground (arith, h)

  rotate-Survives_active :
      (k : ℕ) (s : GenerationalSet K) (v : K)
      → OrderedSet.contains v s.active ≡ true
      → k < half s.max_size
      → Survives k (rotate s).0 v
  unfolding rotate rotation_due
  rotate-Survives_active k s v c b = ground arith

  rotate-Survives_previous :
      (k : ℕ) (s : GenerationalSet K) (v : K)
      → OrderedSet.contains v s.previous ≡ true
      → length s.active + k < half s.max_size
      → Survives k (rotate s).0 v
  unfolding rotate rotation_due
  rotate-Survives_previous k s v c b = ground arith

  insert-Survives :
      (k : ℕ) (s : GenerationalSet K) (v w : K)
      → IsValid s
      → Survives (suc k) s v
      → Survives k (insert s w).0 v
  insert-Survives k s v w h u = elim (Bool-cases (contains s w)) [
    | inl old ↦ rw ((insert_known s w h old).0) (ground (arith, u))
    | inr new ↦
        let grown = OrderedSet.length-insert w s.active in
        let fresh = OrderedSet.insert-new w s.active h.active_sorted in
        rw (insert_new s w h new) (elim u [
          | inl a ↦
              rotate-Survives_active k _ v
                (ground (arith, a, OrderedSet.contains-insert v w s.active)) (omega arith)
          | inr p ↦ rotate-Survives_previous k _ v p.0 (ground (arith, p, grown))
        ])
  ]

  pub insert_all : GenerationalSet K → List K → GenerationalSet K
  insert_all s [] = s
  insert_all s (w ∷ ws) = insert_all (insert s w).0 ws

  insert_all-Survives :
      (s : GenerationalSet K) (v : K) (ws : List K)
      → IsValid s
      → Survives (length ws) s v
      → contains (insert_all s ws) v ≡ true
  unfolding insert_all
  insert_all-Survives s v [] h u = Survives-contains 0 s v u
  insert_all-Survives s v (w ∷ ws) h u =
      insert_all-Survives (insert s w).0 v ws (IsValid-insert s w h)
        (insert-Survives (length ws) s v w h u)

  -- In a well-formed set a new value is still contained after fewer than half of `max_size` further
  -- insertions, whatever they insert.
  pub insert_all-contains :
      (s : GenerationalSet K) (v : K) (ws : List K)
      → IsValid s
      → contains s v ≡ false
      → length ws < half s.max_size
      → contains (insert_all (insert s v).0 ws) v ≡ true
  insert_all-contains s v ws h new few =
      insert_all-Survives (insert s v).0 v ws (IsValid-insert s v h) (
        rw (insert_new s v h new) (
          rotate-Survives_active (length ws) _ v
            (rw OrderedSet.contains-insert (rw OrderedSet.equivalent_refl)) few))
