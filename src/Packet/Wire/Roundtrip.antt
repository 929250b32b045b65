-- ===== src/Packet/Wire/Roundtrip.antt =====
-- src/microReticulum/Packet.cpp: `unpack` on what `pack` writes.
use micro_reticulum.Prelude.{
  ◌≡◌, refl, sym, ap, ◌∙◌, ◌⊎◌, inl, inr, [], ◌++◌, some, Bool, true, if◌then◌else◌, length, arith,
}
use micro_reticulum.Bytes.{Bytes}
use micro_reticulum.Packet.Context.{lrproof}
use micro_reticulum.Packet.Types.{HeaderType, header_1, header_2, Packet, from_raw, Destination}
use micro_reticulum.Packet.Flags.{
  unpack_flags, get_packed_flags, HasBit, sent_type, unpack_flags-get_packed_flags,
}
use micro_reticulum.Packet.Wire.{
  Result, ok, err, is_header_2, body_1, body_2, body, finish, pack, ◌>>=◌, Crypto,
  get_hashable_part, update_hash, unpack,
}
use micro_reticulum.Packet.Wire.Reading.{
  raw_bytes, address, Reads, unpack-header_1, unpack-header_2,
}

-- A packet that the setters have made for a destination, its hashes and ids of the right length. A
-- link request proof has header type 1.
pub record IsSendable (p : Packet) (d : Destination) : Type 0 where
  pub target : p.destination ≡ some d
  pub coherent : get_packed_flags p ≡ some p.flags
  pub has_bit : HasBit p.transport_type
  pub sized : length (address p d) ≡ 16
  pub transport_sized : p.header_type ≡ header_2 → length p.transport_id ≡ 16
  pub proof_type : p.context ≡ lrproof → p.header_type ≡ header_1

finish-ok :
    (c : Crypto) (p q : Packet) (d : Destination) (a ct : Bytes) (e : Bool)
    → finish c p d (a, ct, e) ≡ ok q
    → (q.raw ≡ raw_bytes p.flags p.hops a p.context ct)
      × (q.ciphertext ≡ ct)
      × (q.packet_hash ≡ c.full_hash (get_hashable_part p.header_type q.raw))
unfolding finish update_hash
finish-ok c p q d a ct e h = ground arith

body-ok :
    (c : Crypto) (p : Packet) (d : Destination) (x : Bytes × Bytes × Bool)
    → IsSendable p d
    → body c p d ≡ ok x
    → x.0 ≡ (if is_header_2 p.header_type then p.transport_id ++ address p d else address p d)
unfolding body body_1 body_2
body-ok c p d x v h = ground arith

-- What `pack` wrote, by header type.
pack-raw :
    (c : Crypto) (p q : Packet) (d : Destination)
    → IsSendable p d
    → pack c p ≡ ok q
    → (q.raw
        ≡ raw_bytes p.flags p.hops
            (if is_header_2 p.header_type then p.transport_id ++ address p d else address p d)
            p.context
            q.ciphertext)
      × (q.packet_hash ≡ c.full_hash (get_hashable_part p.header_type q.raw))
unfolding pack
pack-raw c p q d v h = go (body c p d) refl (rw (v.target, pack) at h)
  where
    go :
        (r : Result (Bytes × Bytes × Bool))
        → body c p d ≡ r
        → (r >>= finish c p d) ≡ ok q
        → (q.raw
            ≡ raw_bytes p.flags p.hops
                (if is_header_2 p.header_type then p.transport_id ++ address p d else address p d)
                p.context
                q.ciphertext)
          × (q.packet_hash ≡ c.full_hash (get_hashable_part p.header_type q.raw))
    go (err e) eb k = cc
    go (ok x) eb k =
        let f = finish-ok c p q d x.0 x.1 x.2 k in
        let a = body-ok c p d x v eb in (rw (f.1, ← a) f.0, f.2)

-- The fields of a received packet are those of the packet that was sent.
pub record Agrees (p q : Packet) (d : Destination) (r : Packet) : Type 0 where
  pub header_type : r.header_type ≡ p.header_type
  pub context_flag : r.context_flag ≡ p.context_flag
  pub transport_type : r.transport_type ≡ p.transport_type
  pub destination_type : r.destination_type ≡ sent_type p d
  pub packet_type : r.packet_type ≡ p.packet_type
  pub hops : r.hops ≡ p.hops
  pub context : r.context ≡ p.context
  pub transport_id : r.transport_id ≡ (if is_header_2 p.header_type then p.transport_id else [])
  pub destination_hash : r.destination_hash ≡ address p d
  pub payload : r.payload ≡ q.ciphertext
  pub packet_hash : r.packet_hash ≡ q.packet_hash

flags_read :
    (p x : Packet) (d : Destination)
    → IsSendable p d
    → let u = unpack_flags x p.flags in
      (u.header_type ≡ p.header_type)
      × (u.context_flag ≡ p.context_flag)
      × (u.transport_type ≡ p.transport_type)
      × (u.destination_type ≡ sent_type p d)
      × (u.packet_type ≡ p.packet_type)
flags_read p x d v =
    let g = unpack_flags-get_packed_flags p x d v.target v.has_bit in
    let e : g.0 ≡ p.flags = cc (g.1, v.coherent) in rw (← e) (g.3, g.4, g.5, g.6, g.7)

agrees :
    (c : Crypto) (p q : Packet) (d : Destination) (id : Bytes) (r : Packet × Bool)
    → IsSendable p d
    → id ≡ (if is_header_2 p.header_type then p.transport_id else [])
    → q.packet_hash ≡ c.full_hash (get_hashable_part p.header_type q.raw)
    → Reads c r q.raw p.flags p.hops id (address p d) p.context q.ciphertext
    → (r.1 ≡ true) × Agrees p q d r.0
agrees c p q d id r v ei eh reads =
    let u = flags_read p (from_raw q.raw) d v in
    let same = reads.types.0 ∙ u.0 in
    (
      reads.accepted,
      record {
        header_type = same;
        context_flag = reads.types.1 ∙ u.1;
        transport_type = reads.types.2 ∙ u.2;
        destination_type = reads.types.3 ∙ u.3;
        packet_type = reads.types.4 ∙ u.4;
        hops = reads.hops;
        context = reads.context_byte;
        transport_id = reads.transport_id ∙ ei;
        destination_hash = reads.destination_hash;
        payload = reads.payload;
        packet_hash =
            reads.packet_hash ∙ ap (λ h. c.full_hash (get_hashable_part h q.raw)) same ∙ sym eh;
      },
    )

HeaderType-cases : (h : HeaderType) → (h ≡ header_1) ⊎ (h ≡ header_2)
HeaderType-cases header_1 = inl refl
HeaderType-cases header_2 = inr refl

-- A sendable packet that `pack` accepts is unpacked from its raw bytes with the same types, hops,
-- context, addresses and packet hash, and with the ciphertext as its data.
pub unpack-pack :
    (c : Crypto) (p q : Packet) (d : Destination)
    → IsSendable p d
    → pack c p ≡ ok q
    → ((unpack c (from_raw q.raw)).1 ≡ true) × Agrees p q d (unpack c (from_raw q.raw)).0
unpack-pack c p q d v h =
    let w = pack-raw c p q d v h in
    elim (HeaderType-cases p.header_type) [
      | inl e ↦
          let raw : q.raw ≡ raw_bytes p.flags p.hops (address p d) p.context q.ciphertext =
            rw e at w.0 in
          agrees c p q d [] _ v (rw e) w.1 (
            rw raw (
              unpack-header_1 c p.flags p.hops p.context (address p d) q.ciphertext v.sized
                ((flags_read p _ d v).0 ∙ e)))
      | inr e ↦
          let raw : q.raw
              ≡ raw_bytes p.flags p.hops (p.transport_id ++ address p d) p.context q.ciphertext =
            rw e at w.0 in
          agrees c p q d p.transport_id _ v (rw e) w.1 (
            rw raw (
              unpack-header_2 c p.flags p.hops p.context (address p d) q.ciphertext v.sized
                p.transport_id (v.transport_sized e) ((flags_read p _ d v).0 ∙ e)))
    ]
