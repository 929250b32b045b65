-- ===== src/Packet/Wire.antt =====
-- src/microReticulum/Packet.cpp, `pack` and `unpack`.
pub mod Reading
pub mod Roundtrip
use Prim.Native.Nat.{bit_and}
use micro_reticulum.Prelude.{
  ℕ, ◌+◌, ◌-◌, ◌*◌, ◌^◌, List, [], ◌∷◌, ◌++◌, Option, none, some, Bool, true, false, ◌&&◌, ◌||◌,
  if◌then◌else◌, ltb, ◌==◌, length, get_or, take, drop,
}
use micro_reticulum.Bytes.{Bytes, mid}
use micro_reticulum.Packet.Context.{resource, resource_prf, cache_request, keepalive, lrproof}
use micro_reticulum.Packet.Types.{
  PacketType, HeaderType, DestinationType, data_packet, announce, linkrequest, proof, header_1,
  header_2, single, group, plain, link, destination_length, header_minsize, header_maxsize,
  Destination, Packet,
}
use micro_reticulum.Packet.Flags.{unpack_flags}

-- The exceptions of `pack`.
pub data Error : Type 0 where
  destination_required not_linked no_transport_id exceeds_mtu : Error

pub data Result {ℓ} (A : Type ℓ) : Type ℓ where
  ok : A → Result A
  err : Error → Result A

infixl 5 ◌>>=◌
abbrev pub ◌>>=◌ {ℓ κ} : {A : Type ℓ} {B : Type κ} → Result A → (A → Result B) → Result B
ok a >>= f = f a
err e >>= f = err e

-- What the packet calls: SHA-256 of `Identity::full_hash`, and the encryption of a destination (by
-- its hash) and of a link (by its id).
pub record Crypto : Type 0 where
  pub full_hash : Bytes → Bytes
  pub destination_encrypt : Bytes → Bytes → Bytes
  pub link_encrypt : Bytes → Bytes → Bytes

abbrev pub is_announce : PacketType → Bool
is_announce announce = true
is_announce _ = false

abbrev pub is_proof : PacketType → Bool
is_proof proof = true
is_proof _ = false

abbrev pub is_linkrequest : PacketType → Bool
is_linkrequest linkrequest = true
is_linkrequest _ = false

abbrev pub is_link : DestinationType → Bool
is_link link = true
is_link _ = false

abbrev pub is_header_2 : HeaderType → Bool
is_header_2 header_1 = false
is_header_2 header_2 = true

-- The packets of header type 1 that travel as they are.
unfoldable pub sent_plain : Packet → Destination → Bool
sent_plain p d =
    is_announce p.packet_type
    || is_linkrequest p.packet_type
    || (is_proof p.packet_type && p.context == resource_prf)
    || (is_proof p.packet_type && is_link d.kind)
    || p.context == resource
    || p.context == keepalive
    || p.context == cache_request

-- `get_hashable_part`: the low half of the flag byte, then all but the hops and the transport id.
unfoldable pub get_hashable_part : HeaderType → Bytes → Bytes
unfolding mid
get_hashable_part h raw =
    bit_and (get_or raw 0 0) 0x0f
    ∷ (if is_header_2 h then mid raw (destination_length + 2) else mid raw 2)

abbrev is_nil : Bytes → Bool
is_nil [] = true
is_nil (x ∷ xs) = false

module _ (c : Crypto) where
  unfoldable pub update_hash : Packet → Packet
  unfolding get_hashable_part
  update_hash p = record p { packet_hash = c.full_hash (get_hashable_part p.header_type p.raw) }

  -- The address fields, the ciphertext, and whether it is encrypted.
  pub body_1 : Packet → Destination → Bytes × Bytes × Bool
  unfolding sent_plain
  body_1 p d = if sent_plain p d then (d.hash, p.payload, false) else elim p.destination_link [
    | some id ↦ (d.hash, c.link_encrypt id p.payload, true)
    | none ↦ (d.hash, c.destination_encrypt d.hash p.payload, true)
  ]

  -- With header type 2 only an announce gets a new ciphertext: else the field keeps its value.
  pub body_2 : Packet → Destination → Result (Bytes × Bytes × Bool)
  body_2 p d =
      if is_nil p.transport_id
      then err no_transport_id
      else ok (
        p.transport_id ++ d.hash,
        (if is_announce p.packet_type then p.payload else p.ciphertext),
        false,
      )

  pub body : Packet → Destination → Result (Bytes × Bytes × Bool)
  unfolding body_1 body_2
  body p d =
      if p.context == lrproof
      then elim p.destination_link [ none ↦ err not_linked | some id ↦ ok (id, p.payload, false) ]
      else if is_header_2 p.header_type
      then body_2 p d
      else ok (body_1 p d)

  pub finish : Packet → Destination → Bytes × Bytes × Bool → Result Packet
  unfolding update_hash
  finish p d (address, ciphertext, encrypted) =
      let raw = (p.flags ∷ p.hops ∷ (address ++ p.context ∷ [])) ++ ciphertext in
      if ltb p.mtu (length raw)
      then err exceeds_mtu
      else ok (
          update_hash (record p {
            destination_hash = d.hash;
            encrypted = encrypted;
            ciphertext = ciphertext;
            raw = raw;
            packed = true;
          }))

  -- An exception leaves the packet behind; the model returns its kind alone.
  unfoldable pub pack : Packet → Result Packet
  unfolding body finish
  pack p = elim p.destination [ none ↦ err destination_required | some d ↦ body p d >>= finish p d ]

  -- The two layouts behind the flags, as offsets into the raw bytes.
  pub unpack_2 : Packet → Packet
  unfolding update_hash
  unpack_2 p = update_hash (record p {
    transport_id = take destination_length (drop 2 p.raw);
    destination_hash = take destination_length (drop (destination_length + 2) p.raw);
    context = get_or p.raw (2 * destination_length + 2) 0;
    payload = drop (2 * destination_length + 3) p.raw;
    encrypted = false;
    packed = false;
  })

  pub unpack_1 : Packet → Packet
  unfolding update_hash
  unpack_1 p = update_hash (record p {
    transport_id = [];
    destination_hash = take destination_length (drop 2 p.raw);
    context = get_or p.raw (destination_length + 2) 0;
    payload = drop (destination_length + 3) p.raw;
    encrypted = false;
    packed = false;
  })

  pub unpack_body : Packet → Packet × Bool
  unfolding unpack_1 unpack_2
  unpack_body p =
      if is_header_2 p.header_type
      then if ltb (length p.raw) header_maxsize then (p, false) else (unpack_2 p, true)
      else (unpack_1 p, true)

  -- A packet that is too short is left as far as it was read.
  unfoldable pub unpack : Packet → Packet × Bool
  unfolding unpack_body
  unpack p =
      if ltb (length p.raw) header_minsize
      then (p, false)
      else unpack_body (
          unpack_flags (record p { flags = get_or p.raw 0 0; hops = get_or p.raw 1 0 })
            (get_or p.raw 0 0))
