-- ===== src/Transport/Forward.antt =====
-- src/microReticulum/Transport.cpp: the raw bytes that `outbound` and `inbound` pass on, and what
-- they leave of the packet's hash.
use Prim.Native.Nat.{bit_and, bit_or}
use micro_reticulum.Prelude.{
  ℕ, ◌+◌, ◌*◌, ◌/◌, ◌%◌, ◌^◌, ◌<◌, ◌≡◌, refl, sym, ap, ◌∙◌, inl, inr, [], ◌∷◌, ◌++◌, Bool, true,
  ◌&&◌, if◌then◌else◌, ltb, ◌==◌, length, get_or, drop, drop-append, all_below, all_below_sound,
  Bool-cases, arith,
}
use micro_reticulum.Bytes.{Bytes, mid, mid_len, left}
use micro_reticulum.Packet.Types.{
  HeaderType, header_1, header_2, header_code, transport_code, broadcast, transport, to_header_type,
  destination_length,
}
use micro_reticulum.Packet.Wire.{get_hashable_part, is_header_2}
use micro_reticulum.Packet.Hash.{mid-drop, get_hashable_part-header_1, get_hashable_part-header_2}

-- The flag byte with the header and propagation type set anew; the context flag goes.
unfoldable pub stripped_flags : ℕ → ℕ
stripped_flags flags =
    bit_or (header_code header_1 * 2 ^ 6)
      (bit_or (transport_code broadcast * 2 ^ 4) (bit_and flags 0x0f))

unfoldable pub inserted_flags : ℕ → ℕ
inserted_flags flags =
    bit_or (header_code header_2 * 2 ^ 6)
      (bit_or (transport_code transport * 2 ^ 4) (bit_and flags 0x0f))

-- `packet.hops(packet.hops() + 1)` on a `uint8_t`.
unfoldable pub received_hops : ℕ → ℕ
received_hops hops = (hops + 1) % 2 ^ 8

-- The designated next hop passes a packet on: to the next node, to the last one, or to a local one.
unfoldable pub next_hop_raw : ℕ → Bytes → ℕ → ℕ → Bytes → Bytes
unfolding stripped_flags
next_hop_raw remaining_hops raw flags hops next_hop =
    if ltb 1 remaining_hops
    then (left raw 1 ++ hops ∷ []) ++ (next_hop ++ mid raw (destination_length + 2))
    else if remaining_hops == 1
    then stripped_flags flags ∷ hops ∷ mid raw (destination_length + 2)
    else (left raw 1 ++ hops ∷ []) ++ mid raw 2

-- Link transport: only the hop count changes.
unfoldable pub link_raw : Bytes → ℕ → Bytes
link_raw raw hops = (left raw 1 ++ hops ∷ []) ++ mid raw 2

-- `outbound` inserts a packet into transport.
unfoldable pub insert_raw : Bytes → ℕ → Bytes → Bytes
unfolding inserted_flags
insert_raw raw flags received_from =
    (inserted_flags flags ∷ mid_len raw 1 1) ++ (received_from ++ mid raw 2)

-- The header type that a receiver reads.
abbrev pub header_of : Bytes → HeaderType
header_of raw = to_header_type (bit_and (get_or raw 0 0) 0x40 / 2 ^ 6)

-- The part of the bytes that a receiver hashes.
abbrev pub hashed : Bytes → Bytes
hashed raw = get_hashable_part (header_of raw) raw

stripped_check : ℕ → Bool
unfolding stripped_flags
stripped_check f =
    (bit_and (stripped_flags f) 0x40 / 2 ^ 6 == 0)
    && (bit_and (stripped_flags f) 0x0f == bit_and f 0x0f)

stripped_table : all_below 256 stripped_check ≡ true
unfolding all_below stripped_check
stripped_table = refl

stripped_flags_lem :
    (f : ℕ)
    → f < 256
    → (bit_and (stripped_flags f) 0x40 / 2 ^ 6 ≡ 0)
      × (bit_and (stripped_flags f) 0x0f ≡ bit_and f 0x0f)
stripped_flags_lem f h =
    let e : stripped_check f ≡ true = all_below_sound 256 stripped_check f stripped_table h in
    unfold stripped_check in ground (arith, e)

-- Reading the header type off the first byte.
hashed_as :
    (raw : Bytes) (t : HeaderType) → header_of raw ≡ t → hashed raw ≡ get_hashable_part t raw
hashed_as raw t e = ap (λ k. get_hashable_part k raw) e

left_one : (f : ℕ) (rest : Bytes) → left (f ∷ rest) 1 ≡ f ∷ []
unfolding left
left_one f rest = ground arith

hashed-tail :
    (f h : ℕ) (rest : Bytes)
    → hashed (f ∷ h ∷ rest)
      ≡ bit_and f 0x0f ∷ (if is_header_2 (header_of (f ∷ [])) then drop 16 rest else rest)
unfolding get_hashable_part
hashed-tail f h rest = rw (mid-drop (f ∷ h ∷ rest) 18, mid-drop (f ∷ h ∷ rest) 2)

module _ (f h hops : ℕ) (byte : f < 256) where
  -- For a packet with a transport id and a next hop of 16 bytes, the bytes that `next_hop_raw`
  -- makes have the hash of the packet on each of its branches: with a new next hop, with the
  -- transport headers stripped, and as they are but for the hop count. A change of the MTU that a
  -- link request signals comes behind that, and is no part of this.
  pub hashed-next_hop_raw :
      (remaining : ℕ) (id next_hop rest : Bytes)
      → length id ≡ 16
      → length next_hop ≡ 16
      → header_of (f ∷ h ∷ (id ++ rest)) ≡ header_2
      → hashed (next_hop_raw remaining (f ∷ h ∷ (id ++ rest)) f hops next_hop)
        ≡ hashed (f ∷ h ∷ (id ++ rest))
  unfolding next_hop_raw
  hashed-next_hop_raw remaining id next_hop rest li ln e =
      let raw : Bytes = f ∷ h ∷ (id ++ rest) in
      let whole = hashed_as raw header_2 e ∙ get_hashable_part-header_2 f h id rest li in
      let tail : mid raw 18 ≡ rest = mid-drop raw 18 ∙ drop-append 16 id rest li in
      let one = left_one f (h ∷ (id ++ rest)) in
      elim (Bool-cases (ltb 1 remaining)) [
        | inl far ↦
            rw (far, one, tail)
              (hashed_as (f ∷ hops ∷ (next_hop ++ rest)) header_2 e
                ∙ get_hashable_part-header_2 f hops next_hop rest ln
                ∙ sym whole)
        | inr near ↦ elim (Bool-cases (remaining == 1)) [
          | inl last ↦
              let s = stripped_flags_lem f byte in
              let new : Bytes = stripped_flags f ∷ hops ∷ rest in
              rw (near, last, tail)
                (hashed_as new header_1 (rw s.0)
                  ∙ get_hashable_part-header_1 (stripped_flags f) hops rest
                  ∙ ap (λ k. k ∷ rest) s.1
                  ∙ sym whole)
          | inr local ↦
              rw (near, local, one, mid-drop raw 2)
                (hashed_as (f ∷ hops ∷ (id ++ rest)) header_2 e
                  ∙ get_hashable_part-header_2 f hops id rest li
                  ∙ sym whole)
        ]
      ]

  -- Link transport changes the hop count and keeps the hash, whatever the header type.
  pub hashed-link_raw :
      (rest : Bytes) → hashed (link_raw (f ∷ h ∷ rest) hops) ≡ hashed (f ∷ h ∷ rest)
  unfolding link_raw
  hashed-link_raw rest =
      rw (left_one f (h ∷ rest), mid-drop (f ∷ h ∷ rest) 2)
        (hashed-tail f hops rest ∙ sym (hashed-tail f h rest))
