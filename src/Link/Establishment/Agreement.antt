-- ===== src/Link/Establishment/Agreement.antt =====
-- src/microReticulum/Link.cpp: the initiator validates the proof of its link request.
use micro_reticulum.Prelude.{
  ℕ, ◌+◌, ◌-◌, ◌%◌, ◌^◌, ◌<◌, ◌≤◌, ltb, ◌≡◌, refl, ap, ◌∙◌, List, [], ◌∷◌, ◌++◌, Option, none, some,
  true, false, ◌&&◌, if◌then◌else◌, ◌==◌, length, length-append, arith,
}
use micro_reticulum.Bytes.{Bytes, left, mid, mid_len}
use micro_reticulum.Bytes.Slices.{left-append, mid_len-rest}
use micro_reticulum.Packet.Context.{lrrtt}
use micro_reticulum.Packet.Types.{Packet, data_packet}
use micro_reticulum.Cryptography.Derivation.{salted}
use micro_reticulum.Cryptography.Token.{Token, mode_aes_256_cbc}
use micro_reticulum.Cryptography.Token.Sealing.{token_made}
use micro_reticulum.Link.{
  is_pending, pending, active, half_ecpubsize, sig_bytes, link_mtu_size, reticulum_mtu,
  mode_aes256_cbc, Host, Link, Effect, packed_size, sealed_size, sends, activates,
  calls_established, done,
}
use micro_reticulum.Link.Signalling.{signalling_bytes, mode_from_lp_packet}
use micro_reticulum.Link.Signalling.Roundtrip.{
  three_bytes, signalling_bytes-three_bytes, mtu_from_lp_packet-append,
}
use micro_reticulum.Link.Handshake.{had_outbound, load_peer, signed_part, handshake, update_mdu}
use micro_reticulum.Link.Establishment.{
  made_token, establish, check_proof, read_proof, validate_proof, caught,
}
use micro_reticulum.Link.Handshake.Answer.{
  shaken, answer, agreed_mtu, handshake-shaken, length-answer,
}

-- What an opened link is, before the proof comes.
pub record IsOpened (l : Link) (prv id : Bytes) : Type 0 where
  pub opened_pending : l.status ≡ pending
  pub opened_mode : l.mode ≡ mode_aes256_cbc
  pub opened_prv : l.prv ≡ some prv
  pub opened_id : l.link_id ≡ id
  pub opened_initiator : l.initiator ≡ true
  pub opened_token : l.token ≡ none

-- A key of 64 bytes makes a token.
made_token-derived : (key : Bytes) → length key ≡ 64 → (t : Token) × (made_token none key ≡ some t)
unfolding made_token
made_token-derived key len =
    let t : Token = record {
      mode = mode_aes_256_cbc;
      signing_key = left key 32;
      encryption_key = mid key 32;
    } in
    (t, rw (made_token, token_made key len) refl)

-- What the initiator ends with.
pub record IsEstablished (l : Link) (key id : Bytes) (mtu : ℕ) : Type 0 where
  pub is_up : l.status ≡ active
  pub same_key : l.derived_key ≡ key
  pub same_id : l.link_id ≡ id
  pub same_mtu : l.mtu ≡ mtu

module _ (h : Host) where
  establish-IsEstablished :
      (now mtu : ℕ) (interface : Option ℕ) (l : Link) (key id : Bytes)
      → (mtu == 0) ≡ false
      → 118 ≤ mtu
      → l.token ≡ none
      → length l.derived_key ≡ 64
      → l.derived_key ≡ key
      → l.link_id ≡ id
      → (l' : Link) × (es : List Effect) × (establish h now mtu interface l ≡ done l' es)
        × IsEstablished l' key id mtu
  unfolding establish update_mdu
  establish-IsEstablished now mtu interface l key id some_mtu room no_token len ek ei =
      let (t, made) = made_token-derived l.derived_key len in
      let have : made_token l.token l.derived_key ≡ some t =
        ap (λ o. made_token o l.derived_key) no_token ∙ made in
      let up : Link =
        record (update_mdu h (record l {
          rtt = now - l.request_time;
          attached_interface = interface;
          remote_identity = some l.destination_key;
          mtu = if mtu == 0 then reticulum_mtu else mtu;
        })) { status = active; activated_at = now; last_proof = now } in
      let fitting : ltb up.mtu (packed_size (sealed_size (length (h.pack_double up.rtt)))) ≡ false =
        rw (some_mtu, h.length-pack_double up.rtt) (ground (arith, room)) in
      (
        had_outbound now false (record up { token = some t }),
        activates ∷ sends data_packet lrrtt (h.pack_double up.rtt) ∷ calls_established ∷ [],
        rw (establish, have, fitting) refl,
        record { is_up = refl; same_key = ek; same_id = ei; same_mtu = rw some_mtu refl },
      )

  -- The initiator validates the answer of the destination that it has asked.
  pub validate_proof-IsEstablished :
      (now : ℕ) (interface : Option ℕ) (a : Packet) (l : Link) (owner_key prv peer_prv id : Bytes)
      → (m : ℕ) → m < 2 ^ 16
      → 118 ≤ agreed_mtu m
      → IsOpened l prv id
      → mid_len l.destination_key half_ecpubsize half_ecpubsize ≡ h.ed25519_public owner_key
      → a.payload ≡ answer h owner_key peer_prv id m
      → (l' : Link) × (es : List Effect) × (validate_proof h now interface a l ≡ (l', es))
        × IsEstablished l'
            (h.extract 64 (h.exchange prv (h.x25519_public peer_prv)) (salted id))
            id
            (agreed_mtu m)
  unfolding validate_proof read_proof check_proof
  validate_proof-IsEstablished now interface a l owner_key prv peer_prv id m small room w known
        pay =
      let mtu : ℕ = agreed_mtu m in
      let s : Bytes = three_bytes mtu in
      let fits : mtu < 2 ^ 16 = ground arith in
      let some_mtu : (mtu == 0) ≡ false = ground arith in
      let pub_bytes : Bytes = h.x25519_public peer_prv in
      let key : Bytes = h.ed25519_public owner_key in
      let message : Bytes = signed_part id pub_bytes key s in
      let signature : Bytes = h.sign owner_key message in
      let (parts, len) = length-answer h owner_key peer_prv id m in
      let (read_mtu, read_mode) =
        mtu_from_lp_packet-append a (signature ++ pub_bytes) mtu fits len (pay ∙ parts) in
      let size : length a.payload ≡ 99 =
        omega (arith, ap length (pay ∙ parts), length-append (signature ++ pub_bytes) s, len) in
      let cut : left a.payload 96 ≡ signature ++ pub_bytes =
        ap (λ b. left b 96) (pay ∙ parts) ∙ left-append 96 (signature ++ pub_bytes) s len in
      let signed : left (signature ++ pub_bytes) 64 ≡ signature =
        left-append 64 signature pub_bytes (h.length-sign owner_key message) in
      let peer : mid_len (signature ++ pub_bytes) 64 32 ≡ pub_bytes =
        mid_len-rest 64 32 signature pub_bytes (h.length-sign owner_key message)
          (h.length-x25519_public peer_prv) (omega arith) in
      let asked : Link = load_peer pub_bytes key l in
      let shook : handshake h asked ≡ done (shaken h prv asked) [] =
        handshake-shaken h asked prv w.opened_prv w.opened_pending w.opened_mode
          (h.is_valid_key-x25519_public peer_prv) in
      let valid : h.verify key signature (signed_part l.link_id pub_bytes key s) ≡ true =
        rw w.opened_id (h.verify-sign owner_key message) in
      let costed : Link = record (shaken h prv asked) {
        establishment_cost = (l.establishment_cost + length a.raw) % 2 ^ 16;
      } in
      let checked : check_proof h now mtu interface a signature s (done (shaken h prv asked) [])
          ≡ establish h now mtu interface costed =
        rw (check_proof, known, valid) refl in
      let (l', es, up, good) =
        establish-IsEstablished now mtu interface costed
          (h.extract 64 (h.exchange prv pub_bytes) (salted id)) id some_mtu room w.opened_token
          (h.length-extract 64 _ _)
          (ap (λ i. h.extract 64 (h.exchange prv pub_bytes) (salted i)) w.opened_id) w.opened_id in
      let read : read_proof h now mtu interface a (signature ++ pub_bytes) (some s) l ≡ done l' es =
        let both : (l.initiator && length (signature ++ pub_bytes) == 96) ≡ true =
          rw (w.opened_initiator, len) refl in
        rw (read_proof, both, signed, peer, known)
          (ap (check_proof h now mtu interface a signature s) shook ∙ checked ∙ up) in
      let idle : is_pending l.status ≡ true = rw w.opened_pending refl in
      let agreed : (mode_from_lp_packet a == l.mode) ≡ true = rw (read_mode, w.opened_mode) refl in
      let sized : (length a.payload == sig_bytes + half_ecpubsize + link_mtu_size) ≡ true =
        rw size refl in
      let again : signalling_bytes mtu (mode_from_lp_packet a) ≡ some s =
        signalling_bytes-three_bytes mtu (mode_from_lp_packet a) fits read_mode in
      (
        l',
        es,
        rw (validate_proof, idle, agreed, sized, read_mtu, again, cut) (ap caught read),
        good,
      )
