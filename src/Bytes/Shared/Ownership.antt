-- ===== src/Bytes/Shared/Ownership.antt =====
-- src/microReticulum/Bytes.h and Bytes.cpp, `exclusiveData`: which objects point to a buffer.
use micro_reticulum.Prelude.{
  ℕ, ◌<◌, ◌≡◌, refl, sym, ◌≢◌, inl, inr, List, [], ◌∷◌, Option, none, some, Bool, true, false, ◌==◌,
  ==_iff, Bool-cases, arith,
}
use micro_reticulum.Bytes.Shared.{
  Store, buffer_value, value, allocate, new_data, exclusive_branch, exclusive_data, assign_bytes,
  clear, is_empty,
}

-- A buffer that an object holds exclusively is nobody else's, and addresses in use are not free.
pub record IsOwned (s : Store) : Type 0 where
  pub alone :
      (o q p : ℕ)
      → (s.objects o).buffer ≡ some p
      → (s.objects o).exclusive ≡ true
      → (s.objects q).buffer ≡ some p
      → q ≡ o
  pub used : (o p : ℕ) → (s.objects o).buffer ≡ some p → p < s.next

-- The object holds a buffer of its own.
pub record Holds (s : Store) (o p : ℕ) : Type 0 where
  pub at : (s.objects o).buffer ≡ some p
  pub own : (s.objects o).exclusive ≡ true

-- All objects but one show what they showed.
abbrev pub SameElsewhere : Store → Store → ℕ → Type 0
SameElsewhere s t o = (q : ℕ) → q ≢ o → value t q ≡ value s q

pub allocate-IsOwned : (s : Store) (o : ℕ) (c : List ℕ) → IsOwned s → IsOwned (allocate s o c)
unfolding allocate
allocate-IsOwned s o c v = record {
  alone = λ a b p h e k. ground (arith, v.alone a b p, v.used a p, v.used b p);
  used = λ a p h. ground (arith, v.used a p);
}

pub buffer_value-allocate :
    (s : Store) (o : ℕ) (c : List ℕ) (b : Option ℕ)
    → ((p : ℕ) → b ≡ some p → p < s.next)
    → buffer_value (allocate s o c) b ≡ buffer_value s b
unfolding allocate
buffer_value-allocate s o c none h = refl
buffer_value-allocate s o c (some p) h = ground (arith, h p refl)

pub allocate-SameElsewhere :
    (s : Store) (o : ℕ) (c : List ℕ) → IsOwned s → SameElsewhere s (allocate s o c) o
unfolding allocate
allocate-SameElsewhere s o c v q ne = elim (Bool-cases (q == o)) [
  | inl e ↦ absurd (ne ((==_iff q o).0 e))
  | inr e ↦ rw e (unfold allocate in buffer_value-allocate s o c (s.objects q).buffer (v.used q))
]

-- A null pointer is owned by nobody.
pub clear-IsOwned : (s : Store) (o : ℕ) → IsOwned s → IsOwned (clear s o)
unfolding clear
clear-IsOwned s o v = record {
  alone = λ a b p h e k. ground (arith, v.alone a b p);
  used = λ a p h. ground (arith, v.used a p);
}

pub assign_bytes-IsOwned : (s : Store) (o src : ℕ) → IsOwned s → IsOwned (assign_bytes s o src)
unfolding assign_bytes
assign_bytes-IsOwned s o src v = record {
  alone = λ a b p h e k. ground (arith, v.alone a b p, v.alone a src p);
  used = λ a p h. ground (arith, v.used a p, v.used src p);
}

-- What `exclusiveData` leaves: an own buffer, with the old content where it is kept.
pub record Ready (keep : Bool) (s t : Store) (o : ℕ) : Type 0 where
  pub pointer : ℕ
  pub held : Holds t o pointer
  pub owned : IsOwned t
  pub elsewhere : SameElsewhere s t o
  pub kept : keep ≡ true → value t o ≡ value s o

pub allocate-Ready :
    (keep : Bool) (s : Store) (o : ℕ) (c : List ℕ)
    → IsOwned s
    → (keep ≡ true → c ≡ value s o)
    → Ready keep s (allocate s o c) o
allocate-Ready keep s o c v same = record {
  pointer = s.next;
  held = record { at = unfold allocate in ground arith; own = unfold allocate in ground arith };
  owned = allocate-IsOwned s o c v;
  elsewhere = allocate-SameElsewhere s o c v;
  kept = λ k.
      unfold allocate in
      rw (let e : (o == o) ≡ true = ground arith in e)
        (rw (let e : (s.next == s.next) ≡ true = ground arith in e) (same k));
}

pub is_empty-nil : (b : List ℕ) → is_empty b ≡ true → b ≡ []
is_empty-nil [] h = refl
is_empty-nil (x ∷ b) h = cc

pub exclusive_branch-Ready :
    (keep : Bool) (s : Store) (o : ℕ) (b : Option ℕ) (e : Bool)
    → (s.objects o).buffer ≡ b
    → (s.objects o).exclusive ≡ e
    → IsOwned s
    → Ready keep s (exclusive_branch keep s o b e) o
unfolding exclusive_branch new_data
exclusive_branch-Ready keep s o none e hb he v = allocate-Ready keep s o [] v (λ _. rw hb)
exclusive_branch-Ready keep s o (some p) true hb he v = record {
  pointer = p;
  held = record { at = hb; own = he };
  owned = v;
  elsewhere = λ q _. refl;
  kept = λ _. refl;
}
exclusive_branch-Ready true s o (some p) false hb he v = elim (Bool-cases (is_empty (s.heap p))) [
  | inl e ↦ rw e (allocate-Ready true s o [] v (λ _. rw hb (sym (is_empty-nil _ e))))
  | inr e ↦ rw e (allocate-Ready true s o (s.heap p) v (λ _. rw hb))
]
exclusive_branch-Ready false s o (some p) false hb he v = allocate-Ready false s o [] v (λ k. cc)

pub exclusive_data-Ready :
    (keep : Bool) (s : Store) (o : ℕ) → IsOwned s → Ready keep s (exclusive_data keep s o) o
unfolding exclusive_data
exclusive_data-Ready keep s o v = exclusive_branch-Ready keep s o _ _ refl refl v
