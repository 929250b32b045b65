-- ===== src/Bytes/Shared/Writable.antt =====
-- src/microReticulum/Bytes.h, `writable`: what the pointer that it hands out reaches.
use micro_reticulum.Prelude.{
  ℕ, ◌<◌, ◌≡◌, ◌∙◌, inl, inr, Option, none, some, true, false, ltb, ◌==◌, length, Bool-cases, arith,
}
use micro_reticulum.Bytes.Shared.{
  Store, value, exclusive_branch, exclusive_data, write_branch, write, resize, writable_branch,
  writable,
}
use micro_reticulum.Bytes.Shared.Ownership.{SameElsewhere, IsOwned, Holds, exclusive_data-Ready}
use micro_reticulum.Bytes.Shared.Isolation.{length-resized, resize-Writes}

resize-Holds : (s : Store) (o n p : ℕ) → Holds s o p → Holds (resize s o n) o p
unfolding resize exclusive_data exclusive_branch write write_branch
resize-Holds s o n p h = elim (Bool-cases (n == length (value s o))) [
  | inl e ↦ rw e h
  | inr e ↦ rw (e, h.at, h.own) (rw h.at (record { at = h.at; own = h.own }))
]

-- A buffer handed out for writing: it has the size asked for and is the object's own.
pub record IsWritable (s t : Store) (o n : ℕ) : Type 0 where
  pub pointer : ℕ
  pub held : Holds t o pointer
  pub sized : length (value t o) ≡ n
  pub elsewhere : SameElsewhere s t o
  pub owned : IsOwned t

resize-IsWritable :
    (s : Store) (o n : ℕ) → IsOwned s → IsWritable s (resize (exclusive_data false s o) o n) o n
resize-IsWritable s o n v =
    let r = exclusive_data-Ready false s o v in
    let w = resize-Writes (exclusive_data false s o) o n r.owned in
    record {
      pointer = r.pointer;
      held = resize-Holds (exclusive_data false s o) o n r.pointer r.held;
      sized = rw w.shows (length-resized n (value (exclusive_data false s o) o));
      elsewhere = λ q ne. w.elsewhere q ne ∙ r.elsewhere q ne;
      owned = w.owned;
    }

writable_branch-IsWritable :
    (s : Store) (o n : ℕ) (b : Option ℕ)
    → IsOwned s
    → 0 < n
    → IsWritable s (writable_branch s o b n) o n
unfolding writable_branch
writable_branch-IsWritable s o n none v h =
    rw (let e : ltb 0 n ≡ true = ground arith in e) (resize-IsWritable s o n v)
writable_branch-IsWritable s o n (some p) v h =
    rw (let e : ltb 0 n ≡ true = ground arith in e) (resize-IsWritable s o n v)

-- In a store where no exclusive buffer has a second object, `writable` for at least one byte hands
-- out a buffer of that size that no other object shares, and changes no other object.
pub writable-IsWritable :
    (s : Store) (o n : ℕ) → IsOwned s → 0 < n → IsWritable s (writable s o n) o n
unfolding writable
writable-IsWritable s o n v h = writable_branch-IsWritable s o n _ v h
