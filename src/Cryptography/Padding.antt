-- ===== src/Cryptography/Padding.antt =====
-- src/microReticulum/Cryptography/PKCS7.h: `inplace_pad` and `inplace_unpad`, and the exceptions of
-- Cryptography/Token.cpp.
use micro_reticulum.Prelude.{
  ℕ, zero, suc, ◌+◌, ◌-◌, ◌%◌, ◌^◌, ◌≤◌, ◌<◌, ◌≡◌, refl, subst, ap, ◌∙◌, [], ◌∷◌, ◌++◌,
  if◌then◌else◌, ltb, ◌==◌, length, get_or, set, take, replicate, length-append, length-replicate,
  get_or-append, take-append, append_assoc, arith,
}
use micro_reticulum.Bytes.{Bytes}

-- `outside` is no exception: the byte before an empty buffer is read.
pub data Error : Type 0 where
  no_key bad_key_length bad_mode : Error
  too_short bad_hmac undecryptable : Error
  bad_padding bad_size outside : Error

pub data Result {ℓ} (A : Type ℓ) : Type ℓ where
  ok : A → Result A
  err : Error → Result A

abbrev pub blocksize : ℕ
blocksize = 16

-- Zeros, and then the length of the padding as a byte.
unfoldable pub pad : Bytes → ℕ → Bytes
pad content bs =
    let padlen = bs - length content % bs in
    content ++ set (replicate padlen 0) (padlen - 1) (padlen % 2 ^ 8)

-- A padding longer than the buffer makes the new size wrap, which no buffer can have.
unfoldable pub unpad : Bytes → ℕ → Result Bytes
unpad padded bs =
    let len = length padded in
    let padlen = get_or padded (len - 1) 0 in
    if len == 0
    then err outside
    else if ltb bs padlen
    then err bad_padding
    else if ltb len padlen
    then err bad_size
    else ok (take (len - padlen) padded)

set-replicate : (n v : ℕ) → set (replicate (suc n) 0) n v ≡ replicate n 0 ++ v ∷ []
set-replicate zero v = refl
set-replicate (suc n) v = ap (◌∷◌ 0) (set-replicate n v)

-- A buffer with zeros and a length behind it loses both.
unpad-append :
    (content : Bytes) (bs n : ℕ)
    → n < bs
    → unpad (content ++ (replicate n 0 ++ suc n ∷ [])) bs ≡ ok content
unfolding unpad
unpad-append content bs n h =
    let front : Bytes = content ++ replicate n 0 in
    let whole : Bytes = content ++ (replicate n 0 ++ suc n ∷ []) in
    let size : length whole ≡ length content + suc n = omega (
      arith,
      length-append content (replicate n 0 ++ suc n ∷ []),
      length-append (replicate n 0) (suc n ∷ []),
      length-replicate {A = ℕ} n 0,
    ) in
    let fits : length front ≡ length whole - 1 =
      omega (arith, size, length-append content (replicate n 0), length-replicate {A = ℕ} n 0) in
    let regrouped : front ++ suc n ∷ [] ≡ whole =
      append_assoc content (replicate n 0) (suc n ∷ []) in
    let last : get_or whole (length whole - 1) 0 ≡ suc n =
      subst (λ w. get_or w (length whole - 1) 0 ≡ suc n) regrouped
        (get_or-append (length whole - 1) front (suc n) [] 0 fits) in
    let kept : take (length whole - suc n) whole ≡ content =
      take-append (length whole - suc n) content (replicate n 0 ++ suc n ∷ [])
        (omega (arith, size)) in
    rw last (ground (arith, size, kept))

-- The padding is some zeros and then one byte more than their number.
pad-append :
    (content : Bytes)
    → let n = 15 - length content % blocksize in
      pad content blocksize ≡ content ++ (replicate n 0 ++ suc n ∷ [])
unfolding pad
pad-append content =
    let n : ℕ = 15 - length content % blocksize in
    let size : blocksize - length content % blocksize ≡ suc n = omega arith in
    let byte : suc n % 2 ^ 8 ≡ suc n = omega arith in
    let at_end : suc n - 1 ≡ n = omega arith in
    rw size (
      rw at_end (
        ap (◌++◌ content)
          (set-replicate n (suc n % 2 ^ 8) ∙ ap (λ v. replicate n 0 ++ v ∷ []) byte)))

-- Unpadding a padded buffer gives the buffer.
pub unpad-pad : (content : Bytes) → unpad (pad content blocksize) blocksize ≡ ok content
unpad-pad content =
    let n : ℕ = 15 - length content % blocksize in
    rw (pad-append content) (unpad-append content blocksize n (omega arith))

-- A padded buffer fills whole blocks, and is longer than the buffer by at most one block.
pub length-pad :
    (content : Bytes)
    → let padded = length (pad content blocksize) in
      (padded % blocksize ≡ 0) × (length content < padded) × (padded ≤ length content + blocksize)
length-pad content =
    let n : ℕ = 15 - length content % blocksize in
    let size : length (pad content blocksize) ≡ length content + suc n = rw (pad-append content) (
      omega (
        arith,
        length-append content (replicate n 0 ++ suc n ∷ []),
        length-append (replicate n 0) (suc n ∷ []),
        length-replicate {A = ℕ} n 0,
      )) in
    rw size (omega arith, omega arith, omega arith)
