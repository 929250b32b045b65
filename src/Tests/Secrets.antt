-- ===== src/Tests/Secrets.antt =====
-- src/microReticulum/Cryptography at a key, a text and a cipher that turns the bytes around.
use micro_reticulum.Prelude.{
  ℕ, ◌+◌, ◌%◌, ◌≤◌, ◌≡◌, refl, [], ◌∷◌, ◌++◌, length, replicate, length-replicate, length-append,
  arith,
}
use micro_reticulum.Bytes.{Bytes}
use micro_reticulum.Cryptography.Padding.{ok}
use micro_reticulum.Cryptography.Token.{
  Primitives, Token, token, mode_aes, mode_aes_128_cbc, encrypt, decrypt,
}
use micro_reticulum.Cryptography.Token.Sealing.{decrypt-encrypt, decrypt_signed}

pub turned : Bytes → Bytes
turned [] = []
turned (x ∷ xs) = turned xs ++ x ∷ []

turned-append : (xs : Bytes) (x : ℕ) → turned (xs ++ x ∷ []) ≡ x ∷ turned xs
unfolding turned
turned-append [] x = refl
turned-append (y ∷ xs) x = rw (turned-append xs x) refl

pub turned-turned : (xs : Bytes) → turned (turned xs) ≡ xs
unfolding turned
turned-turned [] = refl
turned-turned (x ∷ xs) = rw (turned-append (turned xs) x, turned-turned xs) refl

pub length-turned : (xs : Bytes) → length (turned xs) ≡ length xs
unfolding turned
length-turned [] = refl
length-turned (x ∷ xs) = omega (arith, length-append (turned xs) (x ∷ []), length-turned xs)

-- The code is the length of the key and of the bytes, 32 times.
abbrev pub turning : Primitives
turning = record {
  aes_128_encrypt = λ b key iv. turned b;
  aes_128_decrypt = λ b key iv. turned b;
  aes_256_encrypt = λ b key iv. turned b;
  aes_256_decrypt = λ b key iv. turned b;
  digest = λ key b. replicate 32 ((length key + length b) % 256);
  aes_128-inverse = λ b key iv h. (turned-turned b, length-turned b);
  aes_256-inverse = λ b key iv h. (turned-turned b, length-turned b);
  length-digest = λ key b. length-replicate 32 ((length key + length b) % 256);
}

abbrev secret_key : Bytes
secret_key = replicate 16 1 ++ replicate 16 2

abbrev secret_token : Token
secret_token = record {
  mode = mode_aes_128_cbc;
  signing_key = replicate 16 1;
  encryption_key = replicate 16 2;
}

token_made : token secret_key mode_aes ≡ ok secret_token
unfolding token
token_made = refl

abbrev message : Bytes
message = 7 ∷ 8 ∷ 9 ∷ []

abbrev sealed_message : Bytes
sealed_message = replicate 16 5 ++ (13 ∷ (replicate 12 0 ++ 9 ∷ 8 ∷ 7 ∷ []) ++ replicate 32 48)

encrypt-message : encrypt turning secret_token (replicate 16 5) message ≡ ok sealed_message
unfolding encrypt turned
encrypt-message = refl

decrypt-message : decrypt turning secret_token sealed_message ≡ ok message
unfolding decrypt turned
decrypt-message = refl

decrypt-encrypt_example :
    (tok : Bytes) × (encrypt turning secret_token (replicate 16 5) message ≡ ok tok)
    × (decrypt turning secret_token tok ≡ ok message)
decrypt-encrypt_example =
    decrypt-encrypt turning secret_key mode_aes secret_token (replicate 16 5) message token_made
      refl

decrypt_signed_example :
    (parts : Bytes) × (16 ≤ length parts)
    × (sealed_message ≡ parts ++ replicate 32 ((16 + length parts) % 256))
decrypt_signed_example = decrypt_signed turning secret_token sealed_message message decrypt-message
