-- ===== src/Packet/Wire/Reading.antt =====
-- src/microReticulum/Packet.cpp, `unpack`: the bytes on the wire, field by field.
use micro_reticulum.Prelude.{
  ℕ, ◌≤◌, ◌≡◌, refl, ap, ◌∙◌, [], ◌∷◌, ◌++◌, Option, none, some, Bool, true, if◌then◌else◌, ◌==◌,
  length, get_or, append_assoc, length-append, take-append, drop-append, get_or-append, drop_past,
  arith,
}
use micro_reticulum.Bytes.{Bytes}
use micro_reticulum.Packet.Context.{lrproof}
use micro_reticulum.Packet.Types.{header_1, header_2, Packet, from_raw, Destination}
use micro_reticulum.Packet.Flags.{unpack_flags}
use micro_reticulum.Packet.Wire.{
  body, Crypto, get_hashable_part, update_hash, unpack_1, unpack_2, unpack_body, unpack,
}

-- The bytes of a packet with one address field.
abbrev pub raw_bytes : ℕ → ℕ → Bytes → ℕ → Bytes → Bytes
raw_bytes f h address context body = (f ∷ h ∷ (address ++ context ∷ [])) ++ body

-- What a receiver reads from such bytes.
pub record Reads (c : Crypto) (r : Packet × Bool) (raw : Bytes) (f h : ℕ) (id hash : Bytes)
    (context : ℕ) (body : Bytes) : Type 0 where
  pub accepted : r.1 ≡ true
  pub flags : r.0.flags ≡ f
  pub types :
      let u = unpack_flags (from_raw raw) f in
      (r.0.header_type ≡ u.header_type)
      × (r.0.context_flag ≡ u.context_flag)
      × (r.0.transport_type ≡ u.transport_type)
      × (r.0.destination_type ≡ u.destination_type)
      × (r.0.packet_type ≡ u.packet_type)
  pub hops : r.0.hops ≡ h
  pub transport_id : r.0.transport_id ≡ id
  pub destination_hash : r.0.destination_hash ≡ hash
  pub context_byte : r.0.context ≡ context
  pub payload : r.0.payload ≡ body
  pub packet_hash : r.0.packet_hash ≡ c.full_hash (get_hashable_part r.0.header_type raw)

pub regroup : (a : Bytes) (x : ℕ) (b : Bytes) → (a ++ x ∷ []) ++ b ≡ a ++ x ∷ b
regroup a x b = append_assoc a (x ∷ []) b

abbrev pub flagged : Packet → Packet
flagged p =
    unpack_flags (record p { flags = get_or p.raw 0 0; hops = get_or p.raw 1 0 }) (get_or p.raw 0 0)

pub unpack_long :
    (c : Crypto) (p : Packet) → 19 ≤ length p.raw → unpack c p ≡ unpack_body c (flagged p)
unfolding unpack unpack_flags
unpack_long c p h = ground arith

pub unpack_body-header_1 :
    (c : Crypto) (p : Packet) → p.header_type ≡ header_1 → unpack_body c p ≡ (unpack_1 c p, true)
unfolding unpack_body
unpack_body-header_1 c p e = rw e

pub unpack_body-header_2 :
    (c : Crypto) (p : Packet)
    → p.header_type ≡ header_2
    → 35 ≤ length p.raw
    → unpack_body c p ≡ (unpack_2 c p, true)
unfolding unpack_body
unpack_body-header_2 c p e h = rw e (ground arith)

module _ (c : Crypto) (f h context : ℕ) (hash body : Bytes) (sized : length hash ≡ 16) where
  -- Bytes with one address field behind flags of header type 1 are read field by field.
  pub unpack-header_1 :
      let raw = raw_bytes f h hash context body in
      (unpack_flags (from_raw raw) f).header_type ≡ header_1
      → Reads c (unpack c (from_raw raw)) raw f h [] hash context body
  unpack-header_1 e =
      let raw : Bytes = raw_bytes f h hash context body in
      let same = regroup hash context body in
      let long : 19 ≤ length raw =
        omega (arith, ap length same, length-append hash (context ∷ body)) in
      let seen : (flagged (from_raw raw)).header_type ≡ header_1 = unfold unpack_flags in e in
      let eq =
        unpack_long c (from_raw raw) long ∙ unpack_body-header_1 c (flagged (from_raw raw)) seen in
      rw eq (
        unfold unpack_1 update_hash unpack_flags in
        record {
          accepted = refl;
          flags = refl;
          types = (refl, refl, refl, refl, refl);
          hops = refl;
          transport_id = refl;
          destination_hash = rw same (take-append 16 hash (context ∷ body) sized);
          context_byte = rw same (get_or-append 16 hash context body 0 sized);
          payload = rw same (drop_past 16 hash context body sized);
          packet_hash = refl;
        })

  -- Bytes with a transport id before the address, behind flags of header type 2, likewise.
  pub unpack-header_2 :
      (id : Bytes)
      → length id ≡ 16
      → let raw = raw_bytes f h (id ++ hash) context body in
        (unpack_flags (from_raw raw) f).header_type ≡ header_2
        → Reads c (unpack c (from_raw raw)) raw f h id hash context body
  unpack-header_2 id len e =
      let raw : Bytes = raw_bytes f h (id ++ hash) context body in
      let same : ((id ++ hash) ++ context ∷ []) ++ body ≡ id ++ (hash ++ context ∷ body) =
        regroup (id ++ hash) context body ∙ append_assoc id hash (context ∷ body) in
      let flat = regroup (id ++ hash) context body in
      let both : length (id ++ hash) ≡ 32 = omega (arith, length-append id hash) in
      let long : 35 ≤ length raw =
        omega (arith, ap length flat, length-append (id ++ hash) (context ∷ body)) in
      let seen : (flagged (from_raw raw)).header_type ≡ header_2 = unfold unpack_flags in e in
      let eq =
        unpack_long c (from_raw raw) (omega arith)
        ∙ unpack_body-header_2 c (flagged (from_raw raw)) seen (unfold unpack_flags in long) in
      rw eq (
        unfold unpack_2 update_hash unpack_flags in
        record {
          accepted = refl;
          flags = refl;
          types = (refl, refl, refl, refl, refl);
          hops = refl;
          transport_id = rw same (take-append 16 id (hash ++ context ∷ body) len);
          destination_hash = rw same (
              rw (drop-append 16 id (hash ++ context ∷ body) len)
                (take-append 16 hash (context ∷ body) sized));
          context_byte = rw flat (get_or-append 32 (id ++ hash) context body 0 both);
          payload = rw flat (drop_past 32 (id ++ hash) context body both);
          packet_hash = refl;
        })

-- The address that a packet carries: the id of the link for a link request proof.
abbrev pub link_id_or : Option Bytes → Bytes
link_id_or none = []
link_id_or (some id) = id

abbrev pub address : Packet → Destination → Bytes
address p d = if p.context == lrproof then link_id_or p.destination_link else d.hash
