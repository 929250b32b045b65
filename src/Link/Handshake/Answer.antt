-- ===== src/Link/Handshake/Answer.antt =====
-- src/microReticulum/Link.cpp: a link request and the proof that answers it.
use micro_reticulum.Prelude.{
  ℕ, ◌+◌, ◌%◌, ◌^◌, ◌<◌, ◌≤◌, ltb, ◌≡◌, refl, sym, ap, ◌∙◌, [], ◌∷◌, ◌++◌, Option, none, some, true,
  false, ◌||◌, if◌then◌else◌, ◌==◌, length, length-append, append_assoc, arith,
}
use micro_reticulum.Bytes.{Bytes, left}
use micro_reticulum.Bytes.Slices.{left-append}
use micro_reticulum.Packet.Context.{lrproof}
use micro_reticulum.Packet.Types.{Packet, proof}
use micro_reticulum.Cryptography.Derivation.{salted, hkdf_made}
use micro_reticulum.Link.{
  pending, handshaking, ecpubsize, half_ecpubsize, sig_bytes, link_mtu_size, reticulum_mtu,
  mode_aes256_cbc, Host, Link, packed_size, sends, registers, done, threw,
}
use micro_reticulum.Link.Signalling.{signalling_bytes, link_id_from_lr_packet}
use micro_reticulum.Link.Signalling.Roundtrip.{
  three_bytes, signalling_bytes-three_bytes, mtu_from_lr_packet-append,
}
use micro_reticulum.Link.Handshake.{
  had_outbound, signed_part, new_link, handshake, derived_key_length, derive, prove_as, prove,
  then_prove, accepted, requested, validate_request, update_mdu,
}

-- The MTU of a link whose request signals this one.
abbrev pub agreed_mtu : ℕ → ℕ
agreed_mtu m = if m == 0 then reticulum_mtu else m

module _ (h : Host) where
  abbrev pub shaken : Bytes → Link → Link
  shaken prv l = record l {
    status = handshaking;
    shared_key = h.exchange prv l.peer_pub_bytes;
    derived_key = h.extract 64 (h.exchange prv l.peer_pub_bytes) (salted l.link_id);
  }

  derive-shaken :
      (l : Link) (prv : Bytes)
      → l.mode ≡ mode_aes256_cbc
      → h.is_valid_key l.peer_pub_bytes ≡ true
      → derive h prv l ≡ done (shaken prv l) []
  unfolding derive
  derive-shaken l prv em valid =
      let key =
        hkdf_made h.extract (h.exchange prv l.peer_pub_bytes) l.link_id
          (h.length-exchange prv l.peer_pub_bytes) in
      let size : derived_key_length l.mode ≡ some 64 = rw em refl in
      rw (derive, valid, size, key) refl

  pub handshake-shaken :
      (l : Link) (prv : Bytes)
      → l.prv ≡ some prv
      → l.status ≡ pending
      → l.mode ≡ mode_aes256_cbc
      → h.is_valid_key l.peer_pub_bytes ≡ true
      → handshake h l ≡ done (shaken prv l) []
  unfolding handshake
  handshake-shaken l prv ep es em valid =
      let opened : handshake h l ≡ derive h prv l = simp (handshake, ep, es) refl in
      opened ∙ derive-shaken l prv em valid

  -- The keys of the initiator and the bytes that it signals.
  abbrev keys : Bytes → Bytes → Bytes
  keys prv sig_prv = h.x25519_public prv ++ h.ed25519_public sig_prv

  -- What a request with these keys and this MTU makes of the other side.
  record IsRequested (r : Link) (owner_key prv peer id : Bytes) (m : ℕ) : Type 0 where
    has_mode : r.mode ≡ mode_aes256_cbc
    has_mtu : r.mtu ≡ agreed_mtu m
    has_prv : r.prv ≡ some prv
    has_owner : r.owner ≡ some owner_key
    has_id : r.link_id ≡ id
    has_pub : r.pub_bytes ≡ h.x25519_public prv
    has_sig_pub : r.sig_pub_bytes ≡ h.ed25519_public owner_key
    has_peer : r.peer_pub_bytes ≡ peer

  requested-IsRequested :
      (owner_key destination_key prv sig_prv peer peer_sig : Bytes) (m : ℕ) (p : Packet)
      → m < 2 ^ 16
      → length peer ≡ 32
      → length peer_sig ≡ 32
      → p.payload ≡ (peer ++ peer_sig) ++ three_bytes m
      → IsRequested
          (requested h (some owner_key) destination_key prv sig_prv p.payload p)
          owner_key
          prv
          peer
          (link_id_from_lr_packet h p)
          m
  unfolding requested update_mdu new_link signalling_bytes
  requested-IsRequested owner_key destination_key prv sig_prv peer peer_sig m p small lp ls pay =
      let size : length (peer ++ peer_sig) ≡ 64 =
        omega (arith, length-append peer peer_sig, lp, ls) in
      let whole : length p.payload ≡ 67 =
        omega (arith, ap length pay, length-append (peer ++ peer_sig) (three_bytes m), size) in
      let (mtu, mode) = mtu_from_lr_packet-append p (peer ++ peer_sig) m small size pay in
      let cut : left p.payload 32 ≡ peer =
        rw (pay, append_assoc peer peer_sig (three_bytes m))
          (left-append 32 peer (peer_sig ++ three_bytes m) lp) in
      record {
        has_mode = mode;
        has_mtu = rw (whole, mtu) refl;
        has_prv = refl;
        has_owner = refl;
        has_id = refl;
        has_pub = refl;
        has_sig_pub = refl;
        has_peer = cut;
      }

  -- The payload of the proof with which an owner answers, for the id of the link.
  abbrev pub answer : Bytes → Bytes → Bytes → ℕ → Bytes
  answer owner_key prv id m =
      let s = three_bytes (agreed_mtu m) in
      let pub_bytes = h.x25519_public prv in
      h.sign owner_key (signed_part id pub_bytes (h.ed25519_public owner_key) s) ++ (pub_bytes ++ s)

  prove-answer :
      (now : ℕ) (r : Link) (owner_key prv peer id : Bytes) (m : ℕ)
      → m < 2 ^ 16
      → 118 ≤ agreed_mtu m
      → IsRequested r owner_key prv peer id m
      → (r' : Link) × (prove h now r
          ≡ done r' (sends proof lrproof (answer owner_key prv id m) ∷ []))
        × (r'.derived_key ≡ r.derived_key)
        × (r'.mtu ≡ r.mtu)
        × (r'.link_id ≡ r.link_id)
  unfolding prove prove_as
  prove-answer now r owner_key prv peer id m small room w =
      let fits : agreed_mtu m < 2 ^ 16 = ground arith in
      let fits' : r.mtu < 2 ^ 16 = omega (arith, w.has_mtu, fits) in
      let s = signalling_bytes-three_bytes r.mtu r.mode fits' w.has_mode in
      let r' : Link = had_outbound now false (record r {
        establishment_cost =
            (r.establishment_cost
              + packed_size (
                  length (
                    h.sign owner_key
                      (signed_part r.link_id r.pub_bytes r.sig_pub_bytes (three_bytes r.mtu))
                    ++ (r.pub_bytes ++ three_bytes r.mtu))))
            % 2 ^ 16;
      }) in
      let parts = signed_part r.link_id r.pub_bytes r.sig_pub_bytes (three_bytes r.mtu) in
      let payload : h.sign owner_key parts ++ (r.pub_bytes ++ three_bytes r.mtu)
          ≡ answer owner_key prv id m =
        rw (w.has_id, w.has_pub, w.has_sig_pub, w.has_mtu) refl in
      let sized : length (h.sign owner_key parts ++ (r.pub_bytes ++ three_bytes r.mtu)) ≡ 99 =
        omega (
          arith,
          length-append (h.sign owner_key parts) (r.pub_bytes ++ three_bytes r.mtu),
          length-append r.pub_bytes (three_bytes r.mtu),
          ap length w.has_pub,
          h.length-sign owner_key parts,
          h.length-x25519_public prv,
        ) in
      let fitting : ltb r.mtu
            (packed_size (length (h.sign owner_key parts ++ (r.pub_bytes ++ three_bytes r.mtu))))
          ≡ false =
        rw (sized, w.has_mtu) (ground (arith, room)) in
      (
        r',
        rw (prove, s)
            (ap (prove_as h now r (three_bytes r.mtu)) w.has_owner
              ∙ ap
                  (λ b.
                    if b
                    then threw (record r { last_outbound = now }) []
                    else done r' (
                        sends proof lrproof
                          (h.sign owner_key parts ++ (r.pub_bytes ++ three_bytes r.mtu))
                        ∷ []))
                  fitting
              ∙ ap (λ b. done r' (sends proof lrproof b ∷ [])) payload),
        refl,
        refl,
        refl,
      )

  -- The owner of a destination validates a request.
  pub validate_request-answer :
      (now : ℕ) (owner_key destination_key prv sig_prv peer peer_sig : Bytes) (m : ℕ)
      → (interface : Option ℕ) (p : Packet) → m < 2 ^ 16
      → 118 ≤ agreed_mtu m
      → h.is_valid_key peer ≡ true
      → length peer ≡ 32
      → length peer_sig ≡ 32
      → p.payload ≡ (peer ++ peer_sig) ++ three_bytes m
      → let id = link_id_from_lr_packet h p in
        (r : Link) × (validate_request h now
            (some owner_key)
            destination_key
            prv
            sig_prv
            interface
            p.payload
            p
          ≡ some (r, sends proof lrproof (answer owner_key prv id m) ∷ registers ∷ []))
        × (r.derived_key ≡ h.extract 64 (h.exchange prv peer) (salted id))
        × (r.mtu ≡ agreed_mtu m)
        × (r.link_id ≡ id)
  unfolding validate_request requested new_link update_mdu
  validate_request-answer now owner_key destination_key prv sig_prv peer peer_sig m interface p
        small room valid lp ls pay =
      let w =
        requested-IsRequested owner_key destination_key prv sig_prv peer peer_sig m p small lp ls
          pay in
      let q : Link = requested h (some owner_key) destination_key prv sig_prv p.payload p in
      let up : Link = record (shaken prv q) { attached_interface = interface } in
      let w' : IsRequested up owner_key prv peer (link_id_from_lr_packet h p) m = record {
        has_mode = w.has_mode;
        has_mtu = w.has_mtu;
        has_prv = w.has_prv;
        has_owner = w.has_owner;
        has_id = w.has_id;
        has_pub = w.has_pub;
        has_sig_pub = w.has_sig_pub;
        has_peer = w.has_peer;
      } in
      let (r, made, key, mtu, id) =
        prove-answer now up owner_key prv peer (link_id_from_lr_packet h p) m small room w' in
      let size : length p.payload ≡ 67 = omega (
        arith,
        ap length pay,
        length-append (peer ++ peer_sig) (three_bytes m),
        length-append peer peer_sig,
        lp,
        ls,
      ) in
      let sized : (length p.payload == ecpubsize || length p.payload == ecpubsize + link_mtu_size)
          ≡ true =
        rw size refl in
      let shook : handshake h q ≡ done (shaken prv q) [] =
        handshake-shaken q prv w.has_prv refl w.has_mode (ap h.is_valid_key w.has_peer ∙ valid) in
      let run : accepted now (then_prove h now interface (handshake h q))
          ≡ some (
            record r { request_time = now; last_inbound = now },
            sends proof lrproof (answer owner_key prv (link_id_from_lr_packet h p) m)
                ∷ registers
                ∷ [],
          ) =
        ap (λ t. accepted now (then_prove h now interface t)) shook ∙ ap (accepted now) made in
      (
        record r { request_time = now; last_inbound = now },
        ap (λ b. if b then accepted now (then_prove h now interface (handshake h q)) else none)
              sized
            ∙ run,
        key
            ∙ ap (λ k. h.extract 64 (h.exchange prv k) (salted q.link_id)) w.has_peer
            ∙ ap (λ k. h.extract 64 (h.exchange prv peer) (salted k)) w.has_id,
        mtu ∙ w.has_mtu,
        id ∙ w.has_id,
      )

  pub length-answer :
      (owner_key prv id : Bytes) (m : ℕ)
      → let s = three_bytes (agreed_mtu m) in
        let pub_bytes = h.x25519_public prv in
        let signature =
          h.sign owner_key (signed_part id pub_bytes (h.ed25519_public owner_key) s) in
        (answer owner_key prv id m ≡ (signature ++ pub_bytes) ++ s)
        × (length (signature ++ pub_bytes) ≡ sig_bytes + half_ecpubsize)
  length-answer owner_key prv id m =
      let s = three_bytes (agreed_mtu m) in
      let pub_bytes = h.x25519_public prv in
      let parts = signed_part id pub_bytes (h.ed25519_public owner_key) s in
      let signature = h.sign owner_key parts in
      (
        sym (append_assoc signature pub_bytes s),
        omega (
          arith,
          length-append signature pub_bytes,
          h.length-sign owner_key parts,
          h.length-x25519_public prv,
        ),
      )
