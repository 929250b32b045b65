-- ===== src/Link/Establishment.antt =====
-- src/microReticulum/Link.cpp: `validate_proof`, with which the initiator of a link establishes it.
pub mod Agreement
use micro_reticulum.Prelude.{
  ℕ, ◌+◌, ◌-◌, ◌*◌, ◌/◌, ◌%◌, ◌^◌, max, List, [], ◌∷◌, ◌++◌, Option, none, some, Bool, true, false,
  ◌&&◌, ◌||◌, if◌then◌else◌, ltb, ◌==◌, length,
}
use micro_reticulum.Bytes.{Bytes, left, mid_len}
use micro_reticulum.Packet.Context.{context_none, lrrtt, lrproof}
use micro_reticulum.Packet.Types.{Packet, data_packet, linkrequest, proof}
use micro_reticulum.Cryptography.Derivation.{hkdf}
use micro_reticulum.Cryptography.Padding.{ok, err}
use micro_reticulum.Cryptography.Token.{Token, token, mode_aes}
use micro_reticulum.Link.{
  Status, pending, handshaking, active, closed, teardown_none, is_pending, is_handshaking,
  ecpubsize, half_ecpubsize, sig_bytes, link_mtu_size, reticulum_mtu, mode_aes128_cbc,
  mode_aes256_cbc, mode_default, establishment_timeout_per_hop, keepalive_time, Host, Link, Effect,
  packed_size, sealed_size, sends, activates, calls_established, Try, done, threw,
}
use micro_reticulum.Link.Signalling.{
  signalling_bytes, mtu_from_lr_packet, mtu_from_lp_packet, mode_from_lr_packet,
  mode_from_lp_packet, link_id_from_lr_packet,
}
use micro_reticulum.Link.Handshake.{had_outbound, load_peer, handshake, update_mdu, signed_part}

-- The token that encrypts for the link is made from the derived key at its first use; `none` is the
-- exception.
unfoldable pub made_token : Option Token → Bytes → Option Token
made_token (some t) derived_key = some t
made_token none derived_key = elim (token derived_key mode_aes) [ ok t ↦ some t | err e ↦ none ]

-- An exception closes the link.
abbrev pub caught : Try → Link × List Effect
caught (done l es) = (l, es)
caught (threw l es) = (record l { status = closed }, es)

module _ (h : Host) where
  -- The proof is valid; `activate_link` finds the link in the list of pending links. `pack` throws
  -- where the MTU has no room for the packet with the round trip time.
  unfoldable pub establish : (now confirmed_mtu : ℕ) (interface : Option ℕ) → Link → Try
  establish now confirmed_mtu interface l =
      let up =
        record (update_mdu h (record l {
          rtt = now - l.request_time;
          attached_interface = interface;
          remote_identity = some l.destination_key;
          mtu = if confirmed_mtu == 0 then reticulum_mtu else confirmed_mtu;
        })) { status = active; activated_at = now; last_proof = now } in
      elim (made_token up.token up.derived_key) [
        | none ↦ threw up (activates ∷ [])
        | some t ↦
            if ltb up.mtu (packed_size (sealed_size (length (h.pack_double up.rtt))))
            then threw (record up { token = some t; last_outbound = now }) (activates ∷ [])
            else done (had_outbound now false (record up { token = some t })) (
                activates ∷ sends data_packet lrrtt (h.pack_double up.rtt) ∷ calls_established ∷ [])
      ]

  -- Behind the handshake: the identity of the destination signs with the second half of its key.
  unfoldable pub check_proof :
      (now confirmed_mtu : ℕ) (interface : Option ℕ) (p : Packet) (signature s : Bytes) → Try → Try
  check_proof now confirmed_mtu interface p signature s (threw l es) = threw l es
  check_proof now confirmed_mtu interface p signature s (done l es) =
      let costed = record l {
        establishment_cost = (l.establishment_cost + length p.raw) % 2 ^ 16;
      } in
      let message = signed_part l.link_id l.peer_pub_bytes l.peer_sig_pub_bytes s in
      if h.verify (mid_len l.destination_key half_ecpubsize half_ecpubsize) signature message
      then if is_handshaking l.status
        then establish now confirmed_mtu interface costed
        else threw costed []
      else done costed []

  -- The keys and the signature of a proof whose mode is that of the link, and the signalled bytes.
  unfoldable pub read_proof :
      (now confirmed_mtu : ℕ) (interface : Option ℕ) (p : Packet) (packet_data : Bytes)
      (s : Option Bytes)
      → Link
      → Try
  read_proof now confirmed_mtu interface p packet_data none l = threw l []
  read_proof now confirmed_mtu interface p packet_data (some s) l =
      if l.initiator && length packet_data == sig_bytes + half_ecpubsize
      then check_proof now confirmed_mtu interface p (left packet_data sig_bytes) s (
          handshake h (
            load_peer (mid_len packet_data sig_bytes half_ecpubsize)
              (mid_len l.destination_key half_ecpubsize half_ecpubsize) l))
      else done l []

  unfoldable pub validate_proof :
      (now : ℕ) (interface : Option ℕ) (p : Packet) → Link → Link × List Effect
  validate_proof now interface p l =
      if is_pending l.status
      then if mode_from_lp_packet p == l.mode
        then caught (
            if length p.payload == sig_bytes + half_ecpubsize + link_mtu_size
            then read_proof now (mtu_from_lp_packet p) interface p
                (left p.payload (sig_bytes + half_ecpubsize))
                (signalling_bytes (mtu_from_lp_packet p) (mode_from_lp_packet p)) l
            else read_proof now 0 interface p p.payload (some []) l)
        else caught (threw l [])
      else (l, [])
