-- ===== src/Cryptography/Token.antt =====
-- src/microReticulum/Cryptography/Token.cpp: the constructor, `verify_hmac`, `encrypt` and
-- `decrypt`.
pub mod Sealing
use micro_reticulum.Prelude.{
  ℕ, ◌+◌, ◌-◌, ◌%◌, ◌≤◌, ◌<◌, ◌≡◌, refl, sym, subst, ap, ap₂, ◌∙◌, inl, inr, List, [], ◌∷◌, ◌++◌,
  Bool, true, false, if◌then◌else◌, ltb, leb, ◌==◌, length, take, drop, length-append, length-take,
  length-drop, take-append-drop, take-append, drop-append, take_all, append_assoc, Bool-cases,
  arith,
}
use micro_reticulum.Bytes.{Bytes, mid, mid_len, left, right, same}
use micro_reticulum.Bytes.Compare.{same_iff}
use micro_reticulum.Cryptography.Padding.{
  Error, no_key, bad_key_length, bad_mode, too_short, bad_hmac, undecryptable, outside, Result, ok,
  err, blocksize, pad, unpad, unpad-pad, length-pad,
}

-- The ciphers and the authentication code, which come from another library: plaintext or
-- ciphertext, key and initialisation vector to the result. On whole blocks decryption undoes
-- encryption, which keeps the length; a code has 32 bytes.
pub record Primitives : Type 0 where
  pub aes_128_encrypt : Bytes → Bytes → Bytes → Bytes
  pub aes_128_decrypt : Bytes → Bytes → Bytes → Bytes
  pub aes_256_encrypt : Bytes → Bytes → Bytes → Bytes
  pub aes_256_decrypt : Bytes → Bytes → Bytes → Bytes
  pub digest : Bytes → Bytes → Bytes
  pub aes_128-inverse :
      (b key iv : Bytes)
      → length b % blocksize ≡ 0
      → (aes_128_decrypt (aes_128_encrypt b key iv) key iv ≡ b)
        × (length (aes_128_encrypt b key iv) ≡ length b)
  pub aes_256-inverse :
      (b key iv : Bytes)
      → length b % blocksize ≡ 0
      → (aes_256_decrypt (aes_256_encrypt b key iv) key iv ≡ b)
        × (length (aes_256_encrypt b key iv) ≡ length b)
  pub length-digest : (key b : Bytes) → length (digest key b) ≡ 32

pub data TokenMode : Type 0 where
  mode_aes mode_aes_128_cbc mode_aes_256_cbc : TokenMode

pub record Token : Type 0 where
  pub mode : TokenMode
  pub signing_key : Bytes
  pub encryption_key : Bytes

-- The constructor: one half of the key signs and the other encrypts.
unfoldable pub token : Bytes → TokenMode → Result Token
unfolding left mid
token [] m = err no_key
token (x ∷ xs) mode_aes =
    let key : Bytes = x ∷ xs in
    if length key == 32
    then ok
        (record { mode = mode_aes_128_cbc; signing_key = left key 16; encryption_key = mid key 16 })
    else if length key == 64
    then ok
        (record { mode = mode_aes_256_cbc; signing_key = left key 32; encryption_key = mid key 32 })
    else err bad_key_length
token (x ∷ xs) m = err bad_mode

-- An exception while the padding comes off becomes another one.
abbrev pub recast : Result Bytes → Result Bytes
recast (ok b) = ok b
recast (err outside) = err outside
recast (err e) = err undecryptable

module _ (p : Primitives) where
  unfoldable pub verify_hmac : Token → Bytes → Result Bool
  unfolding left right same
  verify_hmac t tok =
      if leb (length tok) 32
      then err too_short
      else ok (same (right tok 32) (p.digest t.signing_key (left tok (length tok - 32))))

  -- The text encrypted in the token's mode.
  unfoldable pub ciphertext : Token → Bytes → Bytes → Result Bytes
  unfolding pad
  ciphertext t iv content = elim t.mode [
    | mode_aes ↦ err bad_mode
    | mode_aes_128_cbc ↦ ok (p.aes_128_encrypt (pad content blocksize) t.encryption_key iv)
    | mode_aes_256_cbc ↦ ok (p.aes_256_encrypt (pad content blocksize) t.encryption_key iv)
  ]

  abbrev sealed : Token → Bytes → Bytes
  sealed t signed_parts = signed_parts ++ p.digest t.signing_key signed_parts

  -- `encrypt`, where the random vector is an argument.
  unfoldable pub encrypt : Token → Bytes → Bytes → Result Bytes
  unfolding ciphertext
  encrypt t iv content = elim (ciphertext t iv content) [
    | ok c ↦ ok (sealed t (iv ++ c))
    | err e ↦ err e
  ]

  unfoldable pub plaintext : Token → Bytes → Bytes → Result Bytes
  unfolding unpad
  plaintext t iv c = elim t.mode [
    | mode_aes ↦ err undecryptable
    | mode_aes_128_cbc ↦ recast (unpad (p.aes_128_decrypt c t.encryption_key iv) blocksize)
    | mode_aes_256_cbc ↦ recast (unpad (p.aes_256_decrypt c t.encryption_key iv) blocksize)
  ]

  -- `decrypt` behind the check of the code.
  unfoldable pub opened : Token → Bytes → Result Bool → Result Bytes
  unfolding plaintext left mid_len
  opened t tok (err e) = err e
  opened t tok (ok false) = err bad_hmac
  opened t tok (ok true) = plaintext t (left tok 16) (mid_len tok 16 (length tok - 48))

  unfoldable pub decrypt : Token → Bytes → Result Bytes
  unfolding opened verify_hmac
  decrypt t tok = if ltb (length tok) 48 then err too_short else opened t tok (verify_hmac t tok)
