-- ===== src/Transport/Links/Passing.antt =====
-- src/microReticulum/Transport.cpp: the proof of a link's destination on its way back.
use micro_reticulum.Prelude.{
  ℕ, ◌<◌, ◌^◌, ◌≡◌, refl, ap, ◌∙◌, ◌++◌, Option, some, true, ◌||◌, ◌==◌, ==_iff, length,
  length-append, arith,
}
use micro_reticulum.Bytes.{Bytes, left, mid, mid_len}
use micro_reticulum.Bytes.Slices.{left-append, mid-append, mid_len-append, mid_len-rest}
use micro_reticulum.Packet.Types.{Packet}
use micro_reticulum.Link.{Host}
use micro_reticulum.Link.Signalling.{mode_from_lp_packet}
use micro_reticulum.Link.Signalling.Roundtrip.{
  three_bytes, signalling_bytes-three_bytes, mtu_from_lp_packet-append,
}
use micro_reticulum.Link.Handshake.{signed_part}
use micro_reticulum.Link.Handshake.Answer.{answer, agreed_mtu, length-answer}
use micro_reticulum.Transport.Forward.{link_raw}
use micro_reticulum.Transport.Links.{LinkEntry, vouch, signalled_by, transport_proof}

module _ (h : Host) where
  -- The proof of the owner of the destination, that comes for the link of an entry from the interface
  -- towards the destination, at a node that knows the owner's key for the destination: the entry is
  -- validated, and the proof goes on to where the request came from, with only the hop count changed.
  pub transport_proof-answer :
      (recall : Bytes → Option Bytes) (interface : ℕ) (q : Packet) (e : LinkEntry)
      (owner_key prv encryption_half : Bytes) (m : ℕ)
      → m < 2 ^ 16
      → interface ≡ e.outbound_interface
      → length encryption_half ≡ 32
      → recall e.destination_hash ≡ some (encryption_half ++ h.ed25519_public owner_key)
      → q.payload ≡ answer h owner_key prv q.destination_hash m
      → transport_proof h recall interface q e
        ≡ (record e { validated = true }, some (e.receiving_interface, link_raw q.raw q.hops))
  unfolding transport_proof vouch
  transport_proof-answer recall interface q e owner_key prv half m small from lh known pay =
      let mtu : ℕ = agreed_mtu m in
      let s : Bytes = three_bytes mtu in
      let fits : mtu < 2 ^ 16 = ground arith in
      let pub_bytes : Bytes = h.x25519_public prv in
      let signing : Bytes = h.ed25519_public owner_key in
      let message : Bytes = signed_part q.destination_hash pub_bytes signing s in
      let signature : Bytes = h.sign owner_key message in
      let ls = h.length-sign owner_key message in
      let le = h.length-ed25519_public owner_key in
      let (parts, len) = length-answer h owner_key prv q.destination_hash m in
      let (read_mtu, read_mode) =
        mtu_from_lp_packet-append q (signature ++ pub_bytes) mtu fits len (pay ∙ parts) in
      let size : length q.payload ≡ 99 =
        omega (arith, ap length (pay ∙ parts), length-append (signature ++ pub_bytes) s, len) in
      let made = signalling_bytes-three_bytes mtu (mode_from_lp_packet q) fits read_mode in
      let signalled : signalled_by q ≡ some s = rw (size, read_mtu) made in
      let here : (interface == e.outbound_interface) ≡ true = (==_iff _ _).1 from in
      let sized : (length q.payload == 96 || length q.payload == 99) ≡ true = rw size refl in
      let first : left q.payload 64 ≡ signature =
        ap (λ b. left b 64) pay ∙ left-append 64 signature (pub_bytes ++ s) ls in
      let second : mid_len q.payload 64 32 ≡ pub_bytes =
        ap (λ b. mid_len b 64 32) pay
        ∙ mid_len-append 64 32 signature pub_bytes s ls (h.length-x25519_public prv)
            (omega arith) in
      let signer : mid (half ++ signing) 32 ≡ signing =
        mid-append 32 half signing lh (omega (arith, le)) in
      let signer' : mid_len (half ++ signing) 32 32 ≡ signing =
        mid_len-rest 32 32 half signing lh le (omega arith) in
      let vouched : vouch h q (some (half ++ signing)) (some s) e
          ≡ (record e { validated = true }, some (e.receiving_interface, link_raw q.raw q.hops)) =
        rw (vouch, first, second, signer, signer', h.verify-sign owner_key message) refl in
      let opened : transport_proof h recall interface q e
          ≡ vouch h q (recall e.destination_hash) (signalled_by q) e =
        rw (transport_proof, here, sized) refl in
      opened
      ∙ ap (λ z. vouch h q z (signalled_by q) e) known
      ∙ ap (λ z. vouch h q (some (half ++ signing)) z e) signalled
      ∙ vouched
