-- ===== src/Bytes/Compare.antt =====
-- src/microReticulum/Bytes.cpp, `compare`: when two buffers are the same.
use micro_reticulum.Prelude.{◌≡◌, refl, ◌↔◌, [], ◌∷◌, true, arith}
use micro_reticulum.Bytes.{Bytes, nought, compare_data, compare_bytes, bytes_eq, same}

compare_data-nought : (a b : Bytes) → compare_data a b ≡ nought → a ≡ b
unfolding compare_data
compare_data-nought [] [] h = refl
compare_data-nought [] (y ∷ b) h = cc
compare_data-nought (x ∷ a) [] h = cc
compare_data-nought (x ∷ a) (y ∷ b) h = ground (arith, compare_data-nought a b)

compare_data_refl : (a : Bytes) → compare_data a a ≡ nought
unfolding compare_data
compare_data_refl [] = refl
compare_data_refl (x ∷ a) = ground (arith, compare_data_refl a)

-- Equality of two buffers that are not null.
pub same_iff : (a b : Bytes) → (same a b ≡ true) ↔ (a ≡ b)
unfolding same bytes_eq compare_bytes
same_iff a b = ground (arith, compare_data-nought a b, compare_data_refl a)
