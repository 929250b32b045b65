-- ===== src/Tests/Packets.antt =====
-- src/microReticulum/Packet.cpp and the forwarding of src/microReticulum/Transport.cpp at concrete
-- packets.
use micro_reticulum.Prelude.{◌≡◌, refl, inl, [], ◌∷◌, ◌++◌, some, true, replicate, arith}
use micro_reticulum.Bytes.{Bytes}
use micro_reticulum.Packet.Types.{flag_set, single, Destination, Packet, from_raw}
use micro_reticulum.Packet.Flags.{get_packed_flags}
use micro_reticulum.Packet.Wire.{Crypto, ok, err, exceeds_mtu, pack, unpack}
use micro_reticulum.Packet.Wire.Roundtrip.{IsSendable, Agrees, unpack-pack}
use micro_reticulum.Transport.Forward.{next_hop_raw, hashed, hashed-next_hop_raw, received_hops}

-- A hash and ciphers that can be followed by hand.
abbrev toy : Crypto
toy = record {
  full_hash = λ b. 1 ∷ b;
  destination_encrypt = λ hash b. 0x55 ∷ b;
  link_encrypt = λ id b. 0xaa ∷ b;
}

abbrev alice : Destination
alice = record { hash = replicate 16 0xa1; kind = single }

-- A data packet of two bytes for the destination.
abbrev letter : Packet
letter = record (from_raw []) {
  destination = some alice;
  context_flag = flag_set;
  flags = 0x20;
  hops = 3;
  payload = 7 ∷ 8 ∷ [];
}

abbrev letter_raw : Bytes
letter_raw = (0x20 ∷ 3 ∷ (replicate 16 0xa1 ++ 0 ∷ [])) ++ 0x55 ∷ 7 ∷ 8 ∷ []

-- The packet as `pack` leaves it.
abbrev packed_letter : Packet
packed_letter = record letter {
  destination_hash = replicate 16 0xa1;
  encrypted = true;
  ciphertext = 0x55 ∷ 7 ∷ 8 ∷ [];
  raw = letter_raw;
  packed = true;
  packet_hash = 1 ∷ 0 ∷ ((replicate 16 0xa1 ++ 0 ∷ []) ++ 0x55 ∷ 7 ∷ 8 ∷ []);
}

pack-letter : pack toy letter ≡ ok packed_letter
unfolding pack
pack-letter = refl

pack_too_long : pack toy (record letter { mtu = 20 }) ≡ err exceeds_mtu
unfolding pack
pack_too_long = refl

letter-IsSendable : IsSendable letter alice
unfolding get_packed_flags
letter-IsSendable = record {
  target = refl;
  coherent = refl;
  has_bit = inl refl;
  sized = refl;
  transport_sized = λ e. cc;
  proof_type = λ e. refl;
}

unpack-pack_example :
    ((unpack toy (from_raw packed_letter.raw)).1 ≡ true)
    × Agrees letter packed_letter alice (unpack toy (from_raw packed_letter.raw)).0
unpack-pack_example = unpack-pack toy letter packed_letter alice letter-IsSendable pack-letter

abbrev here : Bytes
here = replicate 16 0x11

abbrev there : Bytes
there = replicate 16 0x22

abbrev remains : Bytes
remains = replicate 16 0xa1 ++ 0 ∷ 7 ∷ []

hashed-next_hop_raw_example :
    hashed (next_hop_raw 1 (0x51 ∷ 3 ∷ (here ++ remains)) 0x51 4 there)
    ≡ hashed (0x51 ∷ 3 ∷ (here ++ remains))
hashed-next_hop_raw_example =
    hashed-next_hop_raw 0x51 3 4 (omega arith) 1 here there remains refl refl refl

-- A packet that arrives with 255 hops has none after the increment.
hops_wrap : received_hops 255 ≡ 0
unfolding received_hops
hops_wrap = refl
