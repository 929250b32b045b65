-- ===== src/Cryptography/Derivation.antt =====
-- src/microReticulum/Cryptography/HKDF.cpp: `hkdf` around the class of another library.
use micro_reticulum.Prelude.{ℕ, zero, suc, ◌≡◌, refl, [], ◌∷◌, Option, none, some, length, arith}
use micro_reticulum.Bytes.{Bytes}

-- A salt of no bytes is no salt.
abbrev pub salted : Bytes → Option Bytes
salted [] = none
salted (x ∷ xs) = some (x ∷ xs)

-- The extraction, from a length, a key and perhaps a salt; the context is not read. `none` is an
-- exception.
unfoldable pub hkdf :
    (extract : ℕ → Bytes → Option Bytes → Bytes) (size : ℕ) (derive_from salt context : Bytes)
    → Option Bytes
hkdf extract zero derive_from salt context = none
hkdf extract (suc n) [] salt context = none
hkdf extract (suc n) (x ∷ xs) salt context = some (extract (suc n) (x ∷ xs) (salted salt))

-- From a shared key that is there.
pub hkdf_made :
    (extract : ℕ → Bytes → Option Bytes → Bytes) (key salt : Bytes)
    → length key ≡ 32
    → hkdf extract 64 key salt [] ≡ some (extract 64 key (salted salt))
unfolding hkdf
hkdf_made extract [] salt len = absurd (omega arith)
hkdf_made extract (x ∷ xs) salt len = refl
