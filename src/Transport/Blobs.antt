-- ===== src/Transport/Blobs.antt =====
-- src/microReticulum/Transport.cpp: the random blobs of a path, and the times of emission in them
-- (`announce_emitted`, `timebase_from_random_blob`, `timebase_from_random_blobs`), with
-- `from_bytes_big_endian` of src/microReticulum/Utilities/OS.h.
pub mod Window
use Prim.Native.Nat.{bit_or}
use micro_reticulum.Prelude.{
  ℕ, zero, suc, ◌+◌, ◌-◌, ◌*◌, ◌/◌, ◌%◌, ◌^◌, ◌≤◌, ◌≡◌, refl, inl, inr, List, [], ◌∷◌, ◌++◌, Bool,
  true, false, ◌||◌, if◌then◌else◌, ltb, leb, length, take, drop, max, length-append, length-drop,
  Bool-cases, arith,
}
use micro_reticulum.Bytes.{Bytes, mid_len, same}
use micro_reticulum.Bytes.Compare.{same_iff}

-- `result = (result << 8) | data[i]` on a `uint64_t`.
unfoldable pub from_bytes_loop : ℕ → Bytes → ℕ
from_bytes_loop result [] = result
from_bytes_loop result (x ∷ xs) = from_bytes_loop (bit_or (result * 2 ^ 8 % 2 ^ 64) x) xs

unfoldable pub from_bytes_big_endian : Bytes → ℕ → ℕ
unfolding from_bytes_loop
from_bytes_big_endian bytes len = from_bytes_loop 0 (take len bytes)

-- The five bytes behind offset 5. The code reads them also where the blob is shorter; here the
-- missing bytes are left out.
abbrev pub emission : Bytes → ℕ
emission blob = from_bytes_big_endian (drop 5 blob) 5

abbrev pub blob_offset : ℕ
blob_offset = 256 * 2 / 8 + 80 / 8

unfoldable pub random_blob_of : Bytes → Bytes
unfolding mid_len
random_blob_of payload = mid_len payload blob_offset 10

unfoldable pub announce_emitted : Bytes → ℕ
unfolding random_blob_of from_bytes_big_endian
announce_emitted payload = elim (random_blob_of payload) [ [] ↦ 0 | x ∷ xs ↦ emission (x ∷ xs) ]

unfoldable pub timebase_from_random_blob : Bytes → ℕ
unfolding from_bytes_big_endian
timebase_from_random_blob blob = if ltb (length blob) 10 then 0 else emission blob

timebase_loop : ℕ → List Bytes → ℕ
unfolding timebase_from_random_blob
timebase_loop timebase [] = timebase
timebase_loop timebase (blob ∷ blobs) =
    let emitted = timebase_from_random_blob blob in
    timebase_loop (if ltb timebase emitted then emitted else timebase) blobs

unfoldable pub timebase_from_random_blobs : List Bytes → ℕ
unfolding timebase_loop
timebase_from_random_blobs blobs = timebase_loop 0 blobs

-- The loop over the blobs of a path with fewer hops, left as soon as one is not older.
unfoldable pub path_emitted_loop : ℕ → ℕ → List Bytes → ℕ
unfolding from_bytes_big_endian
path_emitted_loop emitted latest [] = latest
path_emitted_loop emitted latest (blob ∷ blobs) =
    let now = max latest (emission blob) in
    let rest = path_emitted_loop emitted now blobs in if leb emitted now then now else rest

-- `std::find(...) != end()`
unfoldable pub has_blob : Bytes → List Bytes → Bool
unfolding same
has_blob blob [] = false
has_blob blob (b ∷ bs) = same b blob || has_blob blob bs

abbrev pub max_random_blobs : ℕ
max_random_blobs = 32

-- The new blob at the back, and the oldest dropped from the front.
unfoldable pub remember_blob : Bytes → List Bytes → List Bytes
unfolding has_blob
remember_blob blob blobs =
    if has_blob blob blobs
    then blobs
    else let longer = blobs ++ blob ∷ [] in
      if ltb max_random_blobs (length longer)
      then drop (length longer - max_random_blobs) longer
      else longer

timebase_loop-le : (t : ℕ) (blobs : List Bytes) → t ≤ timebase_loop t blobs
unfolding timebase_loop
timebase_loop-le t [] = omega arith
timebase_loop-le t (b ∷ bs) =
    let u : ℕ = if ltb t (timebase_from_random_blob b) then timebase_from_random_blob b else t in
    let ih = timebase_loop-le u bs in ground (arith, ih)

has_blob-le_loop :
    (b : Bytes) (t : ℕ) (blobs : List Bytes)
    → has_blob b blobs ≡ true
    → timebase_from_random_blob b ≤ timebase_loop t blobs
unfolding timebase_loop has_blob
has_blob-le_loop b t [] h = cc
has_blob-le_loop b t (c ∷ bs) h =
    let u : ℕ = if ltb t (timebase_from_random_blob c) then timebase_from_random_blob c else t in
    elim (Bool-cases (same c b)) [
      | inl e ↦
          let k : timebase_from_random_blob b ≤ u = rw ((same_iff c b).0 e) (ground arith) in
          let le = timebase_loop-le u bs in omega arith
      | inr e ↦ has_blob-le_loop b u bs (rw e at h)
    ]

-- The timebase of a path is no less than that of any blob that it remembers.
pub has_blob-le :
    (b : Bytes) (blobs : List Bytes)
    → has_blob b blobs ≡ true
    → timebase_from_random_blob b ≤ timebase_from_random_blobs blobs
unfolding timebase_from_random_blobs
has_blob-le b blobs h = has_blob-le_loop b 0 blobs h

pub has_blob-append :
    (b : Bytes) (xs ys : List Bytes) → has_blob b (xs ++ ys) ≡ has_blob b xs || has_blob b ys
unfolding has_blob
has_blob-append b [] ys = refl
has_blob-append b (x ∷ xs) ys = ground (arith, has_blob-append b xs ys)

has_blob_last :
    (n : ℕ) (b : Bytes) (xs : List Bytes)
    → n ≤ length xs
    → has_blob b (drop n (xs ++ b ∷ [])) ≡ true
unfolding has_blob
has_blob_last zero b xs h = rw (has_blob-append b xs (b ∷ []), (same_iff b b).1 refl) (ground arith)
has_blob_last (suc n) b [] h = absurd (omega arith)
has_blob_last (suc n) b (x ∷ xs) h = has_blob_last n b xs (omega arith)

-- The remembered list has the new blob, and at most 32 blobs if it had no more before.
pub remember_blob-has :
    (b : Bytes) (blobs : List Bytes)
    → length blobs ≤ max_random_blobs
    → (has_blob b (remember_blob b blobs) ≡ true)
      × (length (remember_blob b blobs) ≤ max_random_blobs)
unfolding remember_blob
remember_blob-has b blobs h =
    let longer : List Bytes = blobs ++ b ∷ [] in
    let n : ℕ = length longer - max_random_blobs in
    let size : length longer ≡ length blobs + 1 = length-append blobs (b ∷ []) in
    elim (Bool-cases (has_blob b blobs)) [
      | inl old ↦ rw old (old, h)
      | inr new ↦ elim (Bool-cases (ltb max_random_blobs (length longer))) [
        | inl full ↦
            rw (new, full)
              (has_blob_last n b blobs (omega arith), omega (arith, length-drop n longer))
        | inr room ↦ rw (new, room) (has_blob_last 0 b blobs (omega arith), ground (arith, room))
      ]
    ]
