-- ===== src/Identity.antt =====
-- src/microReticulum/Identity.h and Identity.cpp: the keys of an identity, what it encrypts and
-- signs, and in a child the announces that it validates.
pub mod Announce
pub mod Sealing
use micro_reticulum.Prelude.{
  ℕ, ◌*◌, ◌/◌, ◌≡◌, [], ◌++◌, Option, none, some, Bool, true, false, if◌then◌else◌, leb, length,
}
use micro_reticulum.Bytes.{Bytes, left, mid}
use micro_reticulum.Cryptography.Derivation.{hkdf}
use micro_reticulum.Cryptography.Padding.{Result, ok, err, no_key}
use micro_reticulum.Cryptography.Token.{Primitives, Token, mode_aes, token, encrypt, decrypt}

-- In bytes: both public keys, one of them, a signature, the truncated hash, and the key of a token.
abbrev pub key_bytes : ℕ
key_bytes = 256 * 2 / 8

abbrev pub half_key_bytes : ℕ
half_key_bytes = key_bytes / 2

abbrev pub signature_bytes : ℕ
signature_bytes = key_bytes

abbrev pub truncated_bytes : ℕ
truncated_bytes = 128 / 8

abbrev pub derived_key_bytes : ℕ
derived_key_bytes = 512 / 8

-- The functions of other libraries: the curves, the extraction of HKDF, and SHA-256. Two key pairs
-- exchange the same secret, and a signature is verified with the public key of its signer.
pub record Keys : Type 0 where
  pub x25519_public : Bytes → Bytes
  pub exchange : Bytes → Bytes → Bytes
  pub ed25519_public : Bytes → Bytes
  pub sign_with : Bytes → Bytes → Bytes
  pub verify : Bytes → Bytes → Bytes → Bool
  pub extract : ℕ → Bytes → Option Bytes → Bytes
  pub full_hash : Bytes → Bytes
  pub exchange-comm : (a b : Bytes) → exchange a (x25519_public b) ≡ exchange b (x25519_public a)
  pub length-exchange : (a b : Bytes) → length (exchange a b) ≡ 32
  pub length-extract : (n : ℕ) (key : Bytes) (salt : Option Bytes) → length (extract n key salt) ≡ n
  pub length-x25519_public : (a : Bytes) → length (x25519_public a) ≡ 32
  pub length-ed25519_public : (a : Bytes) → length (ed25519_public a) ≡ 32
  pub length-sign_with : (key message : Bytes) → length (sign_with key message) ≡ 64
  pub length-full_hash : (b : Bytes) → length (full_hash b) ≡ 32
  pub verify-sign_with :
      (key message : Bytes) → verify (ed25519_public key) (sign_with key message) message ≡ true

-- `Identity::Object`. A key object is its bytes; `has_pub` is whether there is a public one.
pub record Identity : Type 0 where
  pub prv : Option Bytes
  pub sig_prv : Option Bytes
  pub has_pub : Bool
  pub pub_bytes : Bytes
  pub sig_pub_bytes : Bytes
  pub hash : Bytes
  pub app_data : Bytes

-- `Identity(false)`
abbrev pub no_keys : Identity
no_keys = record {
  prv = none;
  sig_prv = none;
  has_pub = false;
  pub_bytes = [];
  sig_pub_bytes = [];
  hash = [];
  app_data = [];
}

abbrev pub get_public_key : Identity → Bytes
get_public_key i = i.pub_bytes ++ i.sig_pub_bytes

module _ (k : Keys) where
  unfoldable pub truncated_hash : Bytes → Bytes
  truncated_hash b = left (k.full_hash b) truncated_bytes

  abbrev pub update_hashes : Identity → Identity
  update_hashes i = record i { hash = truncated_hash (get_public_key i) }

  -- From the two private keys that are generated.
  unfoldable pub create_keys : (prv sig_prv : Bytes) → Identity
  create_keys prv sig_prv = update_hashes (record {
    prv = some prv;
    sig_prv = some sig_prv;
    has_pub = true;
    pub_bytes = k.x25519_public prv;
    sig_pub_bytes = k.ed25519_public sig_prv;
    hash = [];
    app_data = [];
  })

  unfoldable pub load_public_key : Bytes → Identity → Identity
  load_public_key b i = update_hashes (record i {
    has_pub = true;
    pub_bytes = left b half_key_bytes;
    sig_pub_bytes = mid b half_key_bytes;
  })

  -- The token for a shared key, with the hash of the identity as its salt.
  abbrev pub token_for : (shared_key : Bytes) → Identity → Result Token
  token_for shared_key i = elim (hkdf k.extract derived_key_bytes shared_key i.hash []) [
    | none ↦ err no_key
    | some key ↦ token key mode_aes
  ]

  -- An exception is `none`.
  unfoldable pub sign : (message : Bytes) → Identity → Option Bytes
  sign message i = elim i.sig_prv [ none ↦ none | some key ↦ some (k.sign_with key message) ]

  unfoldable pub validate : (signature message : Bytes) → Identity → Option Bool
  validate signature message i =
      if i.has_pub then some (k.verify i.sig_pub_bytes signature message) else none

  -- The payload of the proof that `prove` sends for a packet with this hash.
  unfoldable pub prove : (is_implicit : Bool) (packet_hash : Bytes) → Identity → Option Bytes
  prove is_implicit packet_hash i = elim (sign packet_hash i) [
    | none ↦ none
    | some signature ↦ some (if is_implicit then signature else packet_hash ++ signature)
  ]

  module _ (p : Primitives) where
    -- `Identity::encrypt`, with the ephemeral private key and the vector that are picked at random.
    unfoldable pub encrypt_for : (ephemeral iv content : Bytes) → Identity → Option Bytes
    encrypt_for ephemeral iv content i =
        if i.has_pub
        then elim (token_for (k.exchange ephemeral i.pub_bytes) i) [
          | err e ↦ none
          | ok t ↦ elim (encrypt p t iv content) [
            | err e ↦ none
            | ok c ↦ some (k.x25519_public ephemeral ++ c)
          ]
        ]
        else none

    -- What the token makes of the bytes behind the ephemeral key; a caught exception leaves nothing.
    abbrev pub opened_by : Result Token → Bytes → Bytes
    opened_by (err e) c = []
    opened_by (ok t) c = elim (decrypt p t c) [ ok b ↦ b | err e ↦ [] ]

    unfoldable pub decrypt_with : (ciphertext_token : Bytes) → (prv : Bytes) → Identity → Bytes
    decrypt_with tok prv i =
        if leb (length tok) half_key_bytes
        then []
        else opened_by (token_for (k.exchange prv (left tok half_key_bytes)) i)
            (mid tok half_key_bytes)

    -- `Identity::decrypt`; the exception is that of a missing private key.
    unfoldable pub decrypt_by : (ciphertext_token : Bytes) → Identity → Option Bytes
    decrypt_by tok i = elim i.prv [ none ↦ none | some prv ↦ some (decrypt_with tok prv i) ]
