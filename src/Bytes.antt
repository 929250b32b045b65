-- ===== src/Bytes.antt =====
-- src/microReticulum/Bytes.h and Bytes.cpp: the byte buffer as the value that it holds, and in the
-- children its hexadecimal text and the copy-on-write sharing behind that value.
pub mod Compare
pub mod Hex
pub mod Shared
pub mod Slices
use micro_reticulum.Prelude.{
  ℕ, ◌-◌, List, [], ◌∷◌, Option, none, some, Bool, true, false, if◌then◌else◌, leb, ltb, ◌==◌,
  length, take, drop,
}

-- A buffer is the list of its bytes; a byte is a number below 256.
abbrev pub Bytes : Type 0
Bytes = List ℕ

-- `mid(beginpos, len)`: the length is cut to what remains.
unfoldable pub mid_len : Bytes → ℕ → ℕ → Bytes
mid_len b beginpos len =
    if leb (length b) beginpos
    then []
    else let remaining = length b - beginpos in
      take (if ltb remaining len then remaining else len) (drop beginpos b)

-- `mid(beginpos)`
unfoldable pub mid : Bytes → ℕ → Bytes
mid b beginpos =
    if leb (length b) beginpos then [] else take (length b - beginpos) (drop beginpos b)

unfoldable pub left : Bytes → ℕ → Bytes
left b len = take (if ltb (length b) len then length b else len) b

unfoldable pub right : Bytes → ℕ → Bytes
right b len = let n = if ltb (length b) len then length b else len in take n (drop (length b - n) b)

-- The result of `compare`: below, equal, above.
pub data Sign : Type 0 where
  minus nought plus : Sign

-- `*_data < *bytes._data` and its mirror, the order of the vectors.
unfoldable pub compare_data : Bytes → Bytes → Sign
compare_data [] [] = nought
compare_data [] (y ∷ ys) = minus
compare_data (x ∷ xs) [] = plus
compare_data (x ∷ xs) (y ∷ ys) =
    if ltb x y then minus else if ltb y x then plus else compare_data xs ys

-- `compare(const Bytes&)`, where `none` is a null data pointer.
unfoldable pub compare_bytes : Option Bytes → Option Bytes → Sign
compare_bytes none none = nought
compare_bytes none (some b) = minus
compare_bytes (some a) none = plus
compare_bytes (some a) (some b) = compare_data a b

-- `operator==`
unfoldable pub bytes_eq : Option Bytes → Option Bytes → Bool
unfolding compare_bytes compare_data
bytes_eq a b = elim (compare_bytes a b) [ nought ↦ true | _ ↦ false ]

-- `operator==` on two buffers that are there.
unfoldable pub same : Bytes → Bytes → Bool
unfolding bytes_eq
same a b = bytes_eq (some a) (some b)
