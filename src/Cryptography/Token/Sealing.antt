-- ===== src/Cryptography/Token/Sealing.antt =====
-- src/microReticulum/Cryptography/Token.cpp: `decrypt` on what `encrypt` makes, and on any token.
use micro_reticulum.Prelude.{
  ℕ, ◌+◌, ◌-◌, ◌≤◌, ◌<◌, ◌≡◌, refl, sym, subst, ap, ◌∙◌, inl, inr, ◌⊎◌, [], ◌∷◌, ◌++◌, true, false,
  ltb, leb, ◌==◌, length, length-append, append_assoc, Bool-cases, arith,
}
use micro_reticulum.Bytes.{Bytes, mid, mid_len, left, right, same}
use micro_reticulum.Bytes.Compare.{same_iff}
use micro_reticulum.Bytes.Slices.{
  left-append, right-append, mid_len-append, left-right, length-left,
}
use micro_reticulum.Cryptography.Padding.{Result, ok, err, blocksize, pad, unpad-pad, length-pad}
use micro_reticulum.Cryptography.Token.{
  Primitives, TokenMode, mode_aes, mode_aes_128_cbc, mode_aes_256_cbc, Token, token, verify_hmac,
  ciphertext, encrypt, plaintext, opened, decrypt,
}

not_below : (n : ℕ) → ltb n 48 ≡ false → 48 ≤ n
not_below n h = ground arith

-- A mode with a cipher.
pub data IsCipher : TokenMode → Type 0 where
  cipher_128 : IsCipher mode_aes_128_cbc
  cipher_256 : IsCipher mode_aes_256_cbc

IsCipher-cases : (m : TokenMode) → IsCipher m → (m ≡ mode_aes_128_cbc) ⊎ (m ≡ mode_aes_256_cbc)
IsCipher-cases mode_aes k = elim k [ ]
IsCipher-cases mode_aes_128_cbc cipher_128 = inl refl
IsCipher-cases mode_aes_256_cbc cipher_256 = inr refl

mode_of : Result Token → TokenMode
mode_of (ok t) = t.mode
mode_of (err e) = mode_aes

pub token-IsCipher :
    (key : Bytes) (m : TokenMode) (t : Token) → token key m ≡ ok t → IsCipher t.mode
unfolding token mode_of
token-IsCipher [] m t h = cc
token-IsCipher (x ∷ xs) mode_aes t h = elim (Bool-cases (length (x ∷ xs) == 32)) [
  | inl e ↦ subst IsCipher (ap mode_of (rw e at h)) cipher_128
  | inr e ↦ elim (Bool-cases (length (x ∷ xs) == 64)) [
    | inl f ↦ subst IsCipher (ap mode_of (rw (e, f) at h)) cipher_256
    | inr f ↦ absurd (cc (rw (e, f) at h))
  ]
]
token-IsCipher (x ∷ xs) mode_aes_128_cbc t h = cc
token-IsCipher (x ∷ xs) mode_aes_256_cbc t h = cc

-- A key of 64 bytes makes a token.
pub token_made :
    (key : Bytes)
    → length key ≡ 64
    → token key mode_aes
      ≡ ok (record {
        mode = mode_aes_256_cbc;
        signing_key = left key 32;
        encryption_key = mid key 32;
      })
unfolding token
token_made [] len = absurd (omega arith)
token_made (x ∷ xs) len =
    let short : (length (x ∷ xs) == 32) ≡ false = rw len refl in
    let fits : (length (x ∷ xs) == 64) ≡ true = rw len refl in rw (short, fits) refl

module _ (p : Primitives) where
  verify_hmac-append :
      (t : Token) (parts : Bytes)
      → 0 < length parts
      → verify_hmac p t (parts ++ p.digest t.signing_key parts) ≡ ok true
  unfolding verify_hmac
  verify_hmac-append t parts some_bytes =
      let code : Bytes = p.digest t.signing_key parts in
      let tok : Bytes = parts ++ code in
      let len = p.length-digest t.signing_key parts in
      let size = length-append parts code in
      let long : leb (length tok) 32 ≡ false = ground (arith, len, size) in
      let front : left tok (length tok - 32) ≡ parts =
        left-append (length tok - 32) parts code (omega (arith, len, size)) in
      rw (long, right-append 32 parts code len, front) (ap ok ((same_iff code code).1 refl))

  -- What the cipher of the token makes of a text, and back.
  record Ciphers (t : Token) (iv content c : Bytes) : Type 0 where
    made : ciphertext p t iv content ≡ ok c
    undone : plaintext p t iv c ≡ ok content
    sized : length c ≡ length (pad content blocksize)

  ciphertext-Ciphers :
      (t : Token) (iv content : Bytes) → IsCipher t.mode → (c : Bytes) × Ciphers t iv content c
  unfolding ciphertext plaintext
  ciphertext-Ciphers t iv content k =
      let whole = (length-pad content).0 in
      let back = unpad-pad content in
      elim (IsCipher-cases t.mode k) [
        | inl e ↦ (
          p.aes_128_encrypt (pad content blocksize) t.encryption_key iv,
          record {
            made = rw e refl;
            undone =
                rw
                  (e, (p.aes_128-inverse (pad content blocksize) t.encryption_key iv whole).0, back)
                  refl;
            sized = (p.aes_128-inverse (pad content blocksize) t.encryption_key iv whole).1;
          },
        )
        | inr e ↦ (
          p.aes_256_encrypt (pad content blocksize) t.encryption_key iv,
          record {
            made = rw e refl;
            undone =
                rw
                  (e, (p.aes_256-inverse (pad content blocksize) t.encryption_key iv whole).0, back)
                  refl;
            sized = (p.aes_256-inverse (pad content blocksize) t.encryption_key iv whole).1;
          },
        )
      ]

  -- What a token built from a key encrypts is decrypted to the same text, whatever the text and the
  -- random vector of 16 bytes.
  pub decrypt-encrypt :
      (key : Bytes) (m : TokenMode) (t : Token) (iv content : Bytes)
      → token key m ≡ ok t
      → length iv ≡ 16
      → (tok : Bytes) × (encrypt p t iv content ≡ ok tok) × (decrypt p t tok ≡ ok content)
  unfolding encrypt decrypt opened
  decrypt-encrypt key m t iv content h li =
      let (c, w) = ciphertext-Ciphers t iv content (token-IsCipher key m t h) in
      let parts : Bytes = iv ++ c in
      let code : Bytes = p.digest t.signing_key parts in
      let len = p.length-digest t.signing_key parts in
      let padded = length-pad content in
      let size : length (parts ++ code) ≡ 16 + length c + 32 =
        omega (arith, length-append parts code, length-append iv c, len, li) in
      let long : ltb (length (parts ++ code)) 48 ≡ false = ground (arith, size) in
      let seen : verify_hmac p t (parts ++ code) ≡ ok true =
        verify_hmac-append t parts (omega (arith, length-append iv c, li)) in
      let regrouped : parts ++ code ≡ iv ++ (c ++ code) = append_assoc iv c code in
      let first : left (parts ++ code) 16 ≡ iv = rw regrouped (left-append 16 iv (c ++ code) li) in
      let some_bytes : 0 < length c = omega (arith, w.sized, padded.1) in
      let middle : mid_len (parts ++ code) 16 (length (parts ++ code) - 48) ≡ c = rw regrouped (
        mid_len-append 16 (length (iv ++ (c ++ code)) - 48) iv c code li
          (omega (arith, ap length regrouped, size))
          (omega (arith, ap length regrouped, size, some_bytes))) in
      (parts ++ code, rw (encrypt, w.made) refl, rw (long, seen, first, middle) w.undone)

  -- A token that is decrypted ends with the code of all that comes before, which is an
  -- initialisation vector of 16 bytes and a ciphertext.
  pub decrypt_signed :
      (t : Token) (tok content : Bytes)
      → decrypt p t tok ≡ ok content
      → (parts : Bytes) × (16 ≤ length parts) × (tok ≡ parts ++ p.digest t.signing_key parts)
  unfolding decrypt opened verify_hmac
  decrypt_signed t tok content h = elim (Bool-cases (ltb (length tok) 48)) [
    | inl short ↦ absurd (cc (rw (decrypt, short) at h))
    | inr long ↦
        let front : Bytes = left tok (length tok - 32) in
        let code : Bytes = right tok 32 in
        let most : 48 ≤ length tok = not_below (length tok) long in
        let more : leb (length tok) 32 ≡ false = ground (arith, most) in
        elim (Bool-cases (same code (p.digest t.signing_key front))) [
          | inl equal ↦ (
            front,
            omega (arith, most, length-left tok (length tok - 32) (omega arith)),
            sym (left-right tok 32 (omega (arith, most)))
                ∙ ap (◌++◌ front) ((same_iff code (p.digest t.signing_key front)).0 equal),
          )
          | inr differs ↦ absurd (cc (rw (decrypt, long, verify_hmac, more, differs) at h))
        ]
  ]
