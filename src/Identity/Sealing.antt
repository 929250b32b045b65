-- ===== src/Identity/Sealing.antt =====
-- src/microReticulum/Identity.cpp: what is encrypted for an identity, and what its owner decrypts.
use micro_reticulum.Prelude.{
  ◌≤◌, ◌≡◌, refl, ap, ap₂, ◌∙◌, inl, inr, ◌++◌, none, some, true, false, ltb, leb, length,
  length-append, Bool-cases, arith,
}
use micro_reticulum.Bytes.{Bytes, left, mid}
use micro_reticulum.Bytes.Slices.{left-append, mid-append}
use micro_reticulum.Cryptography.Derivation.{salted, hkdf_made}
use micro_reticulum.Cryptography.Padding.{ok}
use micro_reticulum.Cryptography.Token.{
  Primitives, Token, mode_aes, mode_aes_256_cbc, token, decrypt,
}
use micro_reticulum.Cryptography.Token.Sealing.{token_made, decrypt-encrypt}
use micro_reticulum.Identity.{
  half_key_bytes, Keys, Identity, no_keys, get_public_key, update_hashes, create_keys,
  load_public_key, token_for, encrypt_for, decrypt_with, decrypt_by, opened_by,
}

decrypt-long :
    (p : Primitives) (t : Token) (tok content : Bytes)
    → decrypt p t tok ≡ ok content
    → 48 ≤ length tok
unfolding decrypt
decrypt-long p t tok content h = elim (Bool-cases (ltb (length tok) 48)) [
  | inl short ↦ absurd (cc (rw short at h))
  | inr long ↦ ground arith
]

module _ (k : Keys) where
  -- An identity that knows only what is public of the keys.
  abbrev pub known_as : (prv sig_prv : Bytes) → Identity
  known_as prv sig_prv = load_public_key k (get_public_key (create_keys k prv sig_prv)) no_keys

  pub load_public_key-create_keys :
      (prv sig_prv : Bytes)
      → known_as prv sig_prv ≡ record (create_keys k prv sig_prv) { prv = none; sig_prv = none }
  unfolding load_public_key create_keys
  load_public_key-create_keys prv sig_prv =
      let x : Bytes = k.x25519_public prv in
      let e : Bytes = k.ed25519_public sig_prv in
      let size : length e ≡ 32 = k.length-ed25519_public sig_prv in
      ap₂
        (λ a b.
          update_hashes k (record no_keys { has_pub = true; pub_bytes = a; sig_pub_bytes = b }))
        (left-append half_key_bytes x e (k.length-x25519_public prv))
        (mid-append half_key_bytes x e (k.length-x25519_public prv) (omega (arith, size)))

  module _ (p : Primitives) where
    -- What is encrypted for the public keys of an identity is decrypted by its owner, whatever the
    -- ephemeral key; the random vector has 16 bytes.
    pub decrypt_by-encrypt_for :
        (prv sig_prv ephemeral iv content : Bytes)
        → length iv ≡ 16
        → (c : Bytes) × (encrypt_for k p ephemeral iv content (known_as prv sig_prv) ≡ some c)
          × (decrypt_by k p c (create_keys k prv sig_prv) ≡ some content)
    unfolding encrypt_for decrypt_by decrypt_with create_keys
    decrypt_by-encrypt_for prv sig_prv ephemeral iv content li =
        let owner : Identity = create_keys k prv sig_prv in
        let front : Bytes = k.x25519_public ephemeral in
        let shared : Bytes = k.exchange ephemeral (k.x25519_public prv) in
        let key : Bytes = k.extract 64 shared (salted owner.hash) in
        let t : Token = record {
          mode = mode_aes_256_cbc;
          signing_key = left key 32;
          encryption_key = mid key 32;
        } in
        let made : token key mode_aes ≡ ok t =
          token_made key (k.length-extract 64 shared (salted owner.hash)) in
        let derived =
          hkdf_made k.extract shared owner.hash
            (k.length-exchange ephemeral (k.x25519_public prv)) in
        let for_owner : token_for k shared owner ≡ ok t = rw (token_for, derived) made in
        let (tok, sealed, opened) = decrypt-encrypt p key mode_aes t iv content made li in
        let long = decrypt-long p t tok content opened in
        let size = length-append front tok in
        let first = left-append half_key_bytes front tok (k.length-x25519_public ephemeral) in
        let rest =
          mid-append half_key_bytes front tok (k.length-x25519_public ephemeral)
            (omega (arith, long)) in
        let enough : leb (length (front ++ tok)) half_key_bytes ≡ false =
          ground (arith, size, long) in
        (
          front ++ tok,
          ap (encrypt_for k p ephemeral iv content) (load_public_key-create_keys prv sig_prv)
              ∙ rw (for_owner, sealed) refl,
          rw (enough, first, rest, k.exchange-comm prv ephemeral, for_owner, opened_by, opened)
              refl,
        )
