-- ===== src/Bytes/Slices.antt =====
-- src/microReticulum/Bytes.h and Bytes.cpp: what `left`, `right` and `mid` cut from a buffer that
-- was put together, and how their pieces make the buffer again.
use micro_reticulum.Prelude.{
  ℕ, ◌+◌, ◌-◌, ◌≤◌, ◌<◌, ◌≡◌, subst, ◌++◌, [], false, if◌then◌else◌, ltb, leb, length, drop,
  length-append, length-take, length-drop, take-append-drop, take-append, drop-append, take_all,
  append-nil, if_both, arith,
}
use micro_reticulum.Bytes.{Bytes, mid, mid_len, left, right}

pub left-append : (n : ℕ) (a b : Bytes) → length a ≡ n → left (a ++ b) n ≡ a
unfolding left
left-append n a b h =
    let size = length-append a b in
    let cut : (if ltb (length (a ++ b)) n then length (a ++ b) else n) ≡ n = ground (arith, size) in
    rw cut (take-append n a b h)

pub right-append : (n : ℕ) (a b : Bytes) → length b ≡ n → right (a ++ b) n ≡ b
unfolding right
right-append n a b h =
    let size = length-append a b in
    let cut : (if ltb (length (a ++ b)) n then length (a ++ b) else n) ≡ n = ground (arith, size) in
    let before : length a ≡ length (a ++ b) - n = omega (arith, size) in
    rw cut (rw (drop-append (length (a ++ b) - n) a b before) (take_all n b (omega arith)))

pub mid_len-append :
    (n m : ℕ) (a b c : Bytes)
    → length a ≡ n
    → length b ≡ m
    → 0 < m
    → mid_len (a ++ (b ++ c)) n m ≡ b
unfolding mid_len
mid_len-append n m a b c ha hb some_bytes =
    let size : length (a ++ (b ++ c)) ≡ length a + (length b + length c) =
      omega (arith, length-append a (b ++ c), length-append b c) in
    let inside : leb (length (a ++ (b ++ c))) n ≡ false = ground (arith, size) in
    let cut : (if ltb (length (a ++ (b ++ c)) - n) m then length (a ++ (b ++ c)) - n else m) ≡ m =
      ground (arith, size) in
    rw (inside, cut, drop-append n a (b ++ c) ha) (take-append m b c hb)

-- The halves of a buffer.
pub left-right : (b : Bytes) (n : ℕ) → n ≤ length b → left b (length b - n) ++ right b n ≡ b
unfolding left right
left-right b n h =
    let size = length-drop (length b - n) b in
    let front : (if ltb (length b) (length b - n) then length b else length b - n) ≡ length b - n =
      ground arith in
    let back : (if ltb (length b) n then length b else n) ≡ n = ground arith in
    rw (front, back, take_all n (drop (length b - n) b) (omega arith))
      (take-append-drop (length b - n) b)

pub length-left : (b : Bytes) (n : ℕ) → n ≤ length b → length (left b n) ≡ n
unfolding left
length-left b n h =
    let cut : (if ltb (length b) n then length b else n) ≡ n = ground arith in
    rw cut (omega (arith, length-take n b))

-- A buffer of two pieces.
pub mid_len-rest :
    (n m : ℕ) (a b : Bytes) → length a ≡ n → length b ≡ m → 0 < m → mid_len (a ++ b) n m ≡ b
mid_len-rest n m a b ha hb some_bytes =
    subst (λ c. mid_len (a ++ c) n m ≡ b) (append-nil b)
      (mid_len-append n m a b [] ha hb some_bytes)

pub length-mid_len : (b : Bytes) (n m : ℕ) → length b ≡ n + m → 0 < m → length (mid_len b n m) ≡ m
unfolding mid_len
length-mid_len b n m h some_bytes =
    let inside : leb (length b) n ≡ false = ground arith in
    let cut : (if ltb (length b - n) m then length b - n else m) ≡ m = ground arith in
    rw (inside, cut) (omega (arith, length-take m (drop n b), length-drop n b))

pub left-mid_len : (b : Bytes) (n m : ℕ) → length b ≡ n + m → 0 < m → left b n ++ mid_len b n m ≡ b
unfolding left mid_len
left-mid_len b n m h some_bytes =
    let inside : leb (length b) n ≡ false = ground arith in
    let front : (if ltb (length b) n then length b else n) ≡ n = ground arith in
    let cut : (if ltb (length b - n) m then length b - n else m) ≡ m = ground arith in
    rw (inside, front, cut, take_all m (drop n b) (omega (arith, length-drop n b)))
      (take-append-drop n b)

pub left_all : (b : Bytes) (n : ℕ) → length b ≡ n → left b n ≡ b
unfolding left
left_all b n h =
    let cut : (if ltb (length b) n then length b else n) ≡ n = ground arith in
    rw cut (take_all n b (omega arith))

pub left_le : (b : Bytes) (n : ℕ) → length b ≤ n → left b n ≡ b
unfolding left
left_le b n h = take_all (if ltb (length b) n then length b else n) b (ground (arith, h))

pub length-mid_len_le : (b : Bytes) (n m : ℕ) → length (mid_len b n m) ≤ m
unfolding mid_len
length-mid_len_le b n m =
    if_both (λ (c : Bytes). length c ≤ m) (leb (length b) n) (λ e. omega arith)
      (λ e.
        let k : ℕ = if ltb (length b - n) m then length b - n else m in
        let size = length-take k (drop n b) in
        let less : k ≤ m = ground arith in omega (arith, size, less))

-- What stands behind a prefix.
pub mid-append : (n : ℕ) (a b : Bytes) → length a ≡ n → 0 < length b → mid (a ++ b) n ≡ b
unfolding mid
mid-append n a b ha some_bytes =
    let size = length-append a b in
    let inside : leb (length (a ++ b)) n ≡ false = ground (arith, size) in
    rw (inside, drop-append n a b ha) (take_all (length (a ++ b) - n) b (omega (arith, size)))
