-- ===== src/Bytes/Shared.antt =====
-- src/microReticulum/Bytes.h, `assign`, `append`, `resize`, `writable`, `operator[]`, and
-- Bytes.cpp, `newData` and `exclusiveData`: objects that share their buffer until one writes.
pub mod Ownership
pub mod Isolation
pub mod Writable
use micro_reticulum.Prelude.{
  ℕ, suc, ◌-◌, List, [], ◌∷◌, ◌++◌, Option, none, some, Bool, true, false, if◌then◌else◌, ltb, ◌==◌,
  length, take, replicate, set,
}

-- A `Bytes` object: its shared pointer and its mutable `_exclusive` flag.
pub record Object : Type 0 where
  pub buffer : Option ℕ
  pub exclusive : Bool

-- All objects, the buffers behind the pointers, and the next address to be allocated. A buffer that
-- nothing refers to any more is left in place: its address is not given out again.
pub record Store : Type 0 where
  pub objects : ℕ → Object
  pub heap : ℕ → List ℕ
  pub next : ℕ

abbrev pub update {ℓ} : {A : Type ℓ} → (ℕ → A) → ℕ → A → ℕ → A
update f k v q = if q == k then v else f q

-- `collection()`: what an object shows, an empty buffer where the pointer is null.
abbrev pub buffer_value : Store → Option ℕ → List ℕ
buffer_value s none = []
buffer_value s (some p) = s.heap p

abbrev pub value : Store → ℕ → List ℕ
value s o = buffer_value s (s.objects o).buffer

abbrev pub put : Store → ℕ → Option ℕ → Bool → Store
put s o b e = record s { objects = update s.objects o (record { buffer = b; exclusive = e }) }

-- A new buffer for the object. Capacity is not observable.
pub allocate : Store → ℕ → List ℕ → Store
allocate s o content = record (put s o (some s.next) true) {
  heap = update s.heap s.next content;
  next = suc s.next;
}

pub new_data : Store → ℕ → Store
unfolding allocate
new_data s o = allocate s o []

abbrev is_empty : List ℕ → Bool
is_empty [] = true
is_empty (x ∷ xs) = false

-- The branches of `exclusiveData` on the pointer and the flag.
pub exclusive_branch : Bool → Store → ℕ → Option ℕ → Bool → Store
unfolding new_data
exclusive_branch copy s o none e = new_data s o
exclusive_branch copy s o (some p) true = s
exclusive_branch true s o (some p) false =
    if is_empty (s.heap p) then new_data s o else allocate s o (s.heap p)
exclusive_branch false s o (some p) false = new_data s o

pub exclusive_data : Bool → Store → ℕ → Store
unfolding exclusive_branch
exclusive_data copy s o = exclusive_branch copy s o (s.objects o).buffer (s.objects o).exclusive

-- A write through the object's own pointer.
pub write_branch : Store → Option ℕ → (List ℕ → List ℕ) → Store
write_branch s none f = s
write_branch s (some p) f = record s { heap = update s.heap p (f (s.heap p)) }

pub write : Store → ℕ → (List ℕ → List ℕ) → Store
unfolding write_branch
write s o f = write_branch s (s.objects o).buffer f

-- The copy constructor and assignment: share the pointer, and mark both as not exclusive.
pub assign_bytes : Store → ℕ → ℕ → Store
assign_bytes s o src = let b = (s.objects src).buffer in put (put s src b false) o b false

pub clear : Store → ℕ → Store
clear s o = put s o none true

pub assign_chunk : Store → ℕ → List ℕ → Store
unfolding clear exclusive_data write
assign_chunk s o [] = clear s o
assign_chunk s o (x ∷ xs) = write (exclusive_data false s o) o (λ _. x ∷ xs)

pub append_chunk : Store → ℕ → List ℕ → Store
unfolding exclusive_data write
append_chunk s o [] = s
append_chunk s o (x ∷ xs) = write (exclusive_data true s o) o (λ b. b ++ x ∷ xs)

-- The appended bytes are read after the target has its own buffer.
pub append_bytes : Store → ℕ → ℕ → Store
unfolding exclusive_data write
append_bytes s o src =
    if is_empty (value s src)
    then s
    else let t = exclusive_data true s o in write t o (λ b. b ++ value t src)

pub append_byte : Store → ℕ → ℕ → Store
unfolding exclusive_data write
append_byte s o x = write (exclusive_data true s o) o (λ b. b ++ x ∷ [])

-- `std::vector::resize`: cut, or fill with zeros.
abbrev pub resized : ℕ → List ℕ → List ℕ
resized n b = take n b ++ replicate (n - length b) 0

pub resize : Store → ℕ → ℕ → Store
unfolding exclusive_data write
resize s o n = if n == length (value s o) then s else write (exclusive_data true s o) o (resized n)

-- `operator[]` as the target of an assignment; `none` is the exception for an index out of range.
pub index_write : Store → ℕ → ℕ → ℕ → Option Store
unfolding write
index_write s o i x = if ltb i (length (value s o)) then some (write s o (λ b. set b i x)) else none

-- `writable`: room for `n` bytes, or for the present ones; the caller writes through the pointer.
pub writable_branch : Store → ℕ → Option ℕ → ℕ → Store
unfolding exclusive_data resize
writable_branch s o none n = if ltb 0 n then resize (exclusive_data false s o) o n else s
writable_branch s o (some p) n =
    let size = if ltb 0 n then n else length (s.heap p) in resize (exclusive_data false s o) o size

pub writable : Store → ℕ → ℕ → Store
unfolding writable_branch
writable s o n = writable_branch s o (s.objects o).buffer n

-- The calls on an object, and what each makes of the values of the objects.
pub data Call : Type 0 where
  assigns appends : ℕ → ℕ → Call
  assigns_chunk appends_chunk : ℕ → List ℕ → Call
  appends_byte resizes : ℕ → ℕ → Call
  clears : ℕ → Call

pub step : Store → Call → Store
unfolding assign_bytes append_bytes assign_chunk append_chunk append_byte resize clear
step s (assigns o src) = assign_bytes s o src
step s (appends o src) = append_bytes s o src
step s (assigns_chunk o c) = assign_chunk s o c
step s (appends_chunk o c) = append_chunk s o c
step s (appends_byte o x) = append_byte s o x
step s (resizes o n) = resize s o n
step s (clears o) = clear s o

pub run : Store → List Call → Store
unfolding step
run s [] = s
run s (c ∷ cs) = run (step s c) cs
