-- ===== src/Tests/Sets.antt =====
-- src/microReticulum/Utilities/GenerationalSet.h at a concrete set.
use micro_reticulum.Prelude.{
  ℕ, ◌≤◌, ◌<◌, ◌≡◌, refl, [], ◌∷◌, some, true, false, not, ◌&&◌, ltb, arith,
}
use micro_reticulum.Utilities.OrderedSet
use micro_reticulum.Utilities.OrderedSet.{Order, equivalent}
use micro_reticulum.Utilities.GenerationalSet.{
  GenerationalSet, at_end, insert, erase, contains, count, size,
}
use micro_reticulum.Utilities.GenerationalSet.Dedup.{
  IsValid, insert-IsValid, insert_all, insert_all-contains,
}
use micro_reticulum.Utilities.GenerationalSet.Iteration.{
  traverse, begin, traverse-begin, erase-contains,
}

ltb_irrefl : (a : ℕ) → ltb a a ≡ false
ltb_irrefl a = ground arith

ltb_trans : (a b c : ℕ) → ltb a b ≡ true → ltb b c ≡ true → ltb a c ≡ true
ltb_trans a b c h k = ground arith

ltb_total : (a b : ℕ) → ltb a b ≡ false → ltb b a ≡ false → a ≡ b
ltb_total a b h k = ground arith

instance abbrev numbers : Order ℕ
numbers = record { lt = ltb; lt_irrefl = ltb_irrefl; lt_trans = ltb_trans; lt_total = ltb_total }

-- Generations of two.
abbrev some_set : GenerationalSet ℕ
some_set = record { active = 5 ∷ []; previous = 1 ∷ 2 ∷ []; max_size = 4 }

some_set-IsValid : IsValid some_set
unfolding OrderedSet.contains
some_set-IsValid = record {
  active_sorted = (tt, tt);
  previous_sorted = ((refl, tt), (tt, tt));
  disjoint = λ q. ground arith;
  active_small = λ h. omega arith;
  previous_small = λ h. omega arith;
}

not_yet : contains some_set 9 ≡ false
unfolding contains OrderedSet.contains
not_yet = refl

insert-IsValid_example : IsValid (insert some_set 9).0 × (0 < 4 → size (insert some_set 9).0 ≤ 4)
insert-IsValid_example = insert-IsValid some_set 9 some_set-IsValid

insert_all-contains_example : contains (insert_all (insert some_set 9).0 (7 ∷ [])) 9 ≡ true
insert_all-contains_example =
    insert_all-contains some_set 9 (7 ∷ []) some_set-IsValid not_yet (omega arith)

traverse-begin_example :
    traverse some_set (size some_set) (begin some_set)
    ≡ (some 1 ∷ some 2 ∷ some 5 ∷ [], record { place = at_end; inner = [] })
traverse-begin_example = traverse-begin some_set

erase-contains_example :
    (contains (erase some_set 2).0 5 ≡ not (equivalent {K = ℕ} 5 2) && contains some_set 5)
    × ((erase some_set 2).1 ≡ count some_set 2)
    × IsValid (erase some_set 2).0
erase-contains_example = erase-contains some_set 2 5 some_set-IsValid
