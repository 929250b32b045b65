-- ===== src/Packet/Hash.antt =====
-- src/microReticulum/Packet.cpp, `get_hashable_part`, in terms of the fields on the wire.
use Prim.Native.Nat.{bit_and}
use micro_reticulum.Prelude.{
  ℕ, ◌≡◌, inl, inr, sym, ap, ◌∙◌, ◌∷◌, ◌++◌, leb, length, drop, take_all, drop_all, length-drop,
  drop-append, Bool-cases, arith,
}
use micro_reticulum.Bytes.{Bytes, mid}
use micro_reticulum.Packet.Types.{header_1, header_2}
use micro_reticulum.Packet.Wire.{get_hashable_part}

-- `mid` to the end is `drop`.
pub mid-drop : (b : Bytes) (n : ℕ) → mid b n ≡ drop n b
unfolding mid
mid-drop b n = elim (Bool-cases (leb (length b) n)) [
  | inl e ↦ rw e (sym (drop_all n b (ground (arith, e))))
  | inr e ↦ rw e (take_all _ (drop n b) (omega (arith, length-drop n b)))
]

-- With one address field the hash covers the low flags and all behind the hops.
pub get_hashable_part-header_1 :
    (f h : ℕ) (rest : Bytes) → get_hashable_part header_1 (f ∷ h ∷ rest) ≡ bit_and f 0x0f ∷ rest
unfolding get_hashable_part
get_hashable_part-header_1 f h rest = ap (◌∷◌ (bit_and f 0x0f)) (mid-drop (f ∷ h ∷ rest) 2)

-- With two the transport id is left out.
pub get_hashable_part-header_2 :
    (f h : ℕ) (id rest : Bytes)
    → length id ≡ 16
    → get_hashable_part header_2 (f ∷ h ∷ (id ++ rest)) ≡ bit_and f 0x0f ∷ rest
unfolding get_hashable_part
get_hashable_part-header_2 f h id rest len =
    ap (◌∷◌ (bit_and f 0x0f)) (mid-drop (f ∷ h ∷ (id ++ rest)) 18 ∙ drop-append 16 id rest len)
