-- ===== src/Packet/Flags.antt =====
-- src/microReticulum/Packet.cpp, `get_packed_flags` and `unpack_flags`, and the setters of
-- Packet.h.
use Prim.Native.Nat.{bit_and, bit_or}
use micro_reticulum.Prelude.{
  ℕ, ◌*◌, ◌/◌, ◌%◌, ◌^◌, ◌<◌, ◌≡◌, ◌⊎◌, inl, inr, Option, none, some, if◌then◌else◌, ◌==◌,
  Bool-cases, arith,
}
use micro_reticulum.Packet.Context.{lrproof}
use micro_reticulum.Packet.Types.{
  PacketType, HeaderType, ContextFlag, TransportType, DestinationType, broadcast, transport, link,
  packet_code, header_code, context_flag_code, transport_code, destination_code, to_packet_type,
  to_header_type, to_context_flag, to_transport_type, to_destination_type, Destination, Packet,
}

-- The `uint8_t` of the shifted codes.
unfoldable pub packed_byte :
    HeaderType → ContextFlag → TransportType → DestinationType → PacketType → ℕ
packed_byte h c t d p =
    bit_or (header_code h * 2 ^ 6) (
      bit_or (context_flag_code c * 2 ^ 5)
        (bit_or (transport_code t * 2 ^ 4) (bit_or (destination_code d * 2 ^ 2) (packet_code p))))
    % 2 ^ 8

-- `none` is the exception for a missing destination.
unfoldable pub get_packed_flags : Packet → Option ℕ
unfolding packed_byte
get_packed_flags p =
    if p.context == lrproof
    then some (packed_byte p.header_type p.context_flag p.transport_type link p.packet_type)
    else elim p.destination [
      | none ↦ none
      | some d ↦
          some (packed_byte p.header_type p.context_flag p.transport_type d.kind p.packet_type)
    ]

unfoldable pub unpack_flags : Packet → ℕ → Packet
unpack_flags p flags = record p {
  header_type = to_header_type (bit_and flags 0x40 / 2 ^ 6);
  context_flag = to_context_flag (bit_and flags 0x20 / 2 ^ 5);
  transport_type = to_transport_type (bit_and flags 0x10 / 2 ^ 4);
  destination_type = to_destination_type (bit_and flags 0x0c / 2 ^ 2);
  packet_type = to_packet_type (bit_and flags 0x03);
}

-- The two propagation types that have a bit on the wire.
abbrev pub HasBit : TransportType → Type 0
HasBit t = (t ≡ broadcast) ⊎ (t ≡ transport)

packed_byte-unpack :
    (q : Packet) (h : HeaderType) (c : ContextFlag) (t : TransportType) (d : DestinationType)
    (k : PacketType)
    → HasBit t
    → let u = unpack_flags q (packed_byte h c t d k) in
      (u.header_type ≡ h)
      × (u.context_flag ≡ c)
      × (u.transport_type ≡ t)
      × (u.destination_type ≡ d)
      × (u.packet_type ≡ k)
unfolding packed_byte unpack_flags
packed_byte-unpack q h c t d k b = ground arith

-- The type of destination that the flags carry: a link request proof is always for a link.
abbrev pub sent_type : Packet → Destination → DestinationType
sent_type p d = if p.context == lrproof then link else d.kind

-- The flags of a packet with a destination, read by the receiver, are the packet's own types, where
-- its propagation type has a bit on the wire.
pub unpack_flags-get_packed_flags :
    (p q : Packet) (d : Destination)
    → p.destination ≡ some d
    → HasBit p.transport_type
    → (f : ℕ) × (get_packed_flags p ≡ some f)
      × (f < 256)
      × ((unpack_flags q f).header_type ≡ p.header_type)
      × ((unpack_flags q f).context_flag ≡ p.context_flag)
      × ((unpack_flags q f).transport_type ≡ p.transport_type)
      × ((unpack_flags q f).destination_type ≡ sent_type p d)
      × ((unpack_flags q f).packet_type ≡ p.packet_type)
unfolding get_packed_flags
unpack_flags-get_packed_flags p q d hd b =
    let kind = sent_type p d in
    let r =
      packed_byte-unpack q p.header_type p.context_flag p.transport_type kind p.packet_type b in
    (
      packed_byte p.header_type p.context_flag p.transport_type kind p.packet_type,
      elim (Bool-cases (p.context == lrproof)) [ inl e ↦ rw e | inr e ↦ rw (e, hd) ],
      unfold packed_byte in omega arith,
      r.0,
      r.1,
      r.2,
      r.3,
      r.4,
    )
