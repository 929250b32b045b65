-- ===== src/Link/Signalling.antt =====
-- src/microReticulum/Link.cpp: the MTU and the mode of a link as the three bytes behind the keys of
-- a link request or a link proof, and the id of a link.
pub mod Roundtrip
use micro_reticulum.Prelude.{
  ℕ, ◌+◌, ◌-◌, ◌*◌, ◌/◌, ◌%◌, ◌^◌, [], ◌∷◌, Option, none, some, if◌then◌else◌, ltb, ◌==◌, length,
  get_or,
}
use micro_reticulum.Bytes.{Bytes, left, mid_len}
use micro_reticulum.Packet.Types.{Packet}
use micro_reticulum.Packet.Wire.{get_hashable_part}
use micro_reticulum.Link.{
  ecpubsize, half_ecpubsize, sig_bytes, link_mtu_size, mode_default, is_enabled, Host,
}

-- `MTU_BYTEMASK` has 21 ones; `(mode << 5) & MODE_BYTEMASK` is a byte whose low five bits are zero.
unfoldable pub signalling_value : ℕ → ℕ → ℕ
signalling_value mtu mode = mtu % 2 ^ 21 + (mode * 2 ^ 5) % 2 ^ 8 * 2 ^ 16

-- `signalling_bytes`: the low three bytes, most significant first; `none` is the exception.
unfoldable pub signalling_bytes : ℕ → ℕ → Option Bytes
signalling_bytes mtu mode =
    let v = signalling_value mtu mode in
    if is_enabled mode then some (v / 2 ^ 16 % 2 ^ 8 ∷ v / 2 ^ 8 % 2 ^ 8 ∷ v % 2 ^ 8 ∷ []) else none

-- The three bytes at an offset, masked and cast to `uint16_t`.
unfoldable pub mtu_at : Bytes → ℕ → ℕ
mtu_at b i =
    (get_or b i 0 * 2 ^ 16 + get_or b (i + 1) 0 * 2 ^ 8 + get_or b (i + 2) 0) % 2 ^ 21 % 2 ^ 16

unfoldable pub mtu_from_lr_packet : Packet → ℕ
mtu_from_lr_packet p =
    if length p.payload == ecpubsize + link_mtu_size then mtu_at p.payload ecpubsize else 0

unfoldable pub mtu_from_lp_packet : Packet → ℕ
mtu_from_lp_packet p =
    if length p.payload == sig_bytes + half_ecpubsize + link_mtu_size
    then mtu_at (mid_len p.payload (sig_bytes + half_ecpubsize) link_mtu_size) 0
    else 0

-- `none` is the exception.
unfoldable pub mode_byte : ℕ → Option ℕ
mode_byte mode = if is_enabled mode then some ((mode * 2 ^ 5) % 2 ^ 8) else none

unfoldable pub mode_from_lr_packet : Packet → ℕ
mode_from_lr_packet p =
    if ltb ecpubsize (length p.payload)
    then get_or p.payload ecpubsize 0 % 2 ^ 8 / 2 ^ 5
    else mode_default

-- Without the mask, which a shift by five makes superfluous.
unfoldable pub mode_from_lp_packet : Packet → ℕ
mode_from_lp_packet p =
    if ltb (sig_bytes + half_ecpubsize) (length p.payload)
    then get_or p.payload (sig_bytes + half_ecpubsize) 0 / 2 ^ 5
    else mode_default

-- The part that is hashed, without what stands behind the keys. Where less is there than is cut,
-- the difference wraps to a length beyond that of any buffer.
unfoldable pub unsignalled_part : Packet → Bytes
unsignalled_part p =
    let hashable_part = get_hashable_part p.header_type p.raw in
    let diff = length p.payload - ecpubsize in
    if ltb ecpubsize (length p.payload)
    then if ltb (length hashable_part) diff
      then hashable_part
      else left hashable_part (length hashable_part - diff)
    else hashable_part

unfoldable pub link_id_from_lr_packet : Host → Packet → Bytes
link_id_from_lr_packet h p = h.truncated_hash (unsignalled_part p)
