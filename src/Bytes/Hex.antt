-- ===== src/Bytes/Hex.antt =====
-- src/microReticulum/Bytes.cpp, `toHex`, `hexFromByte`, `assignHex` and `appendHex`.
use Prim.Native.Nat.{bit_and}
use micro_reticulum.Prelude.{
  ℕ, ◌+◌, ◌*◌, ◌/◌, ◌%◌, ◌^◌, ◌<◌, ◌≡◌, refl, ap₂, List, [], ◌∷◌, ◌++◌, Bool, true, false,
  if◌then◌else◌, ◌==◌, ==_iff, get_or, All, all_below, all_below_sound,
}

abbrev pub hex_upper_chars : List ℕ
hex_upper_chars =
    b'0' ∷ b'1' ∷ b'2' ∷ b'3' ∷ b'4' ∷ b'5' ∷ b'6' ∷ b'7' ∷ b'8' ∷ b'9' ∷ b'A' ∷ b'B' ∷ b'C' ∷ b'D'
    ∷ b'E' ∷ b'F' ∷ []

abbrev pub hex_lower_chars : List ℕ
hex_lower_chars =
    b'0' ∷ b'1' ∷ b'2' ∷ b'3' ∷ b'4' ∷ b'5' ∷ b'6' ∷ b'7' ∷ b'8' ∷ b'9' ∷ b'a' ∷ b'b' ∷ b'c' ∷ b'd'
    ∷ b'e' ∷ b'f' ∷ []

abbrev hex_chars : Bool → List ℕ
hex_chars upper = if upper then hex_upper_chars else hex_lower_chars

abbrev high_char : Bool → ℕ → ℕ
high_char upper byte = get_or (hex_chars upper) (bit_and byte 0xf0 / 2 ^ 4) 0

abbrev low_char : Bool → ℕ → ℕ
low_char upper byte = get_or (hex_chars upper) (bit_and byte 0x0f) 0

unfoldable pub hex_from_byte : Bool → ℕ → List ℕ
hex_from_byte upper byte = high_char upper byte ∷ low_char upper byte ∷ []

unfoldable pub to_hex : Bool → List ℕ → List ℕ
to_hex upper [] = []
to_hex upper (byte ∷ rest) = high_char upper byte ∷ low_char upper byte ∷ to_hex upper rest

-- One digit of either case, and a pair of them as an `uint8_t`. Other characters give some number.
abbrev hex_value : ℕ → ℕ
hex_value c = (c % 32 + 9) % 25

abbrev byte_of_pair : ℕ → ℕ → ℕ
byte_of_pair high low = (hex_value high * 16 + hex_value low) % 2 ^ 8

-- The loop of `assignHex` and `appendHex`: an odd last character is left out.
unfoldable pub pairs : List ℕ → List ℕ
pairs [] = []
pairs (c ∷ []) = []
pairs (high ∷ low ∷ rest) = byte_of_pair high low ∷ pairs rest

unfoldable pub assign_hex : List ℕ → List ℕ
unfolding pairs
assign_hex hex = pairs hex

unfoldable pub append_hex : List ℕ → List ℕ → List ℕ
unfolding pairs
append_hex b hex = b ++ pairs hex

abbrev round_trip : Bool → ℕ → Bool
round_trip upper x = byte_of_pair (high_char upper x) (low_char upper x) == x

round_trip_all : (upper : Bool) → all_below 256 (round_trip upper) ≡ true
unfolding all_below
round_trip_all true = refl
round_trip_all false = refl

byte_of_pair_lem :
    (upper : Bool) (x : ℕ) → x < 256 → byte_of_pair (high_char upper x) (low_char upper x) ≡ x
byte_of_pair_lem upper x h =
    (==_iff _ x).0 (all_below_sound 256 (round_trip upper) x (round_trip_all upper) h)

-- Reading back the hexadecimal text of a buffer of bytes, in either case, gives the buffer.
pub assign_hex-to_hex :
    (upper : Bool) (b : List ℕ) → All (λ x. x < 256) b → assign_hex (to_hex upper b) ≡ b
unfolding assign_hex to_hex
assign_hex-to_hex upper [] h = refl
assign_hex-to_hex upper (x ∷ b) h =
    ap₂ ◌∷◌ (byte_of_pair_lem upper x h.0) (assign_hex-to_hex upper b h.1)
