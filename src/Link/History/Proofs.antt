-- ===== src/Link/History/Proofs.antt =====
-- src/microReticulum/Link.cpp, `validate_proof`: what it leaves as it is, and when it establishes.
use micro_reticulum.Prelude.{
  ℕ, ◌+◌, ◌≡◌, refl, sym, ap, ◌∙◌, subst, inl, inr, ◌⊎◌, List, [], Option, none, some, Bool, true,
  false, ◌&&◌, not, if◌then◌else◌, ltb, ◌-◌, ◌==◌, length, if_both, option_both, ==_iff,
}
use micro_reticulum.Bytes.{Bytes, left, mid_len}
use micro_reticulum.Bytes.Slices.{left_all}
use micro_reticulum.Packet.Types.{Packet}
use micro_reticulum.Cryptography.Derivation.{hkdf}
use micro_reticulum.Link.{
  Status, pending, handshaking, active, stale, closed, is_pending, is_handshaking, half_ecpubsize,
  sig_bytes, link_mtu_size, reticulum_mtu, packed_size, sealed_size, Host, Link, Effect, Try, done,
  threw,
}
use micro_reticulum.Link.Signalling.{signalling_bytes, mtu_from_lp_packet, mode_from_lp_packet}
use micro_reticulum.Link.Handshake.{
  update_mdu, load_peer, signed_part, derived_key_length, derive, handshake,
}
use micro_reticulum.Link.Establishment.{
  made_token, caught, establish, check_proof, read_proof, validate_proof,
}

abbrev pub is_up : Status → Bool
is_up active = true
is_up stale = true
is_up _ = false

pending_down : (s : Status) → is_pending s ≡ true → is_up s ≡ false
pending_down pending e = refl
pending_down handshaking e = cc
pending_down active e = cc
pending_down stale e = cc
pending_down closed e = cc

sized : (b : Bool) (n : ℕ) → (b && n == 96) ≡ true → n ≡ 96
sized true n e = (==_iff n 96).0 e
sized false n e = cc

abbrev OnTry : (Link → Type 0) → Try → Type 0
OnTry P (done l es) = P l
OnTry P (threw l es) = P l

-- What a handshake keeps; it does not make the link active.
record Fresh (a t : Link) : Type 0 where
  fresh_side : t.initiator ≡ a.initiator
  fresh_id : t.link_id ≡ a.link_id
  fresh_destination : t.destination_key ≡ a.destination_key
  fresh_peer : t.peer_pub_bytes ≡ a.peer_pub_bytes
  fresh_peer_sig : t.peer_sig_pub_bytes ≡ a.peer_sig_pub_bytes
  fresh_down : is_up t.status ≡ false

module _ (h : Host) where
  derive-Fresh : (prv : Bytes) (a : Link) → OnTry (Fresh a) (derive h prv a)
  unfolding derive
  derive-Fresh prv a =
      if_both (OnTry (Fresh a)) (not (h.is_valid_key a.peer_pub_bytes))
        (λ e. record {
          fresh_side = refl;
          fresh_id = refl;
          fresh_destination = refl;
          fresh_peer = refl;
          fresh_peer_sig = refl;
          fresh_down = refl;
        })
        (λ e.
          option_both (OnTry (Fresh a)) (derived_key_length a.mode)
            (record {
              fresh_side = refl;
              fresh_id = refl;
              fresh_destination = refl;
              fresh_peer = refl;
              fresh_peer_sig = refl;
              fresh_down = refl;
            })
            (λ n.
              option_both (OnTry (Fresh a))
                (hkdf h.extract n (h.exchange prv a.peer_pub_bytes) a.link_id [])
                (record {
                  fresh_side = refl;
                  fresh_id = refl;
                  fresh_destination = refl;
                  fresh_peer = refl;
                  fresh_peer_sig = refl;
                  fresh_down = refl;
                })
                (λ k. record {
                  fresh_side = refl;
                  fresh_id = refl;
                  fresh_destination = refl;
                  fresh_peer = refl;
                  fresh_peer_sig = refl;
                  fresh_down = refl;
                })))

  handshake-Fresh : (a : Link) → is_up a.status ≡ false → OnTry (Fresh a) (handshake h a)
  unfolding handshake
  handshake-Fresh a down =
      let idle : Fresh a a = record {
        fresh_side = refl;
        fresh_id = refl;
        fresh_destination = refl;
        fresh_peer = refl;
        fresh_peer_sig = refl;
        fresh_down = down;
      } in
      option_both (OnTry (Fresh a)) a.prv idle (λ prv.
        if_both (OnTry (Fresh a)) (is_pending a.status) (λ e. derive-Fresh prv a) (λ e. idle))

  -- A packet with a signature of the destination on the keys in it, under the id of the link.
  pub record IsSigned (l : Link) (q : Packet) : Type 0 where
    pub signalled : Bytes
    pub valid :
        (let keys = left q.payload (sig_bytes + half_ecpubsize) in
          let signer = mid_len l.destination_key half_ecpubsize half_ecpubsize in
          h.verify signer
            (left keys sig_bytes)
            (signed_part l.link_id (mid_len keys sig_bytes half_ecpubsize) signer signalled))
        ≡ true

  pub record Proven (l : Link) (q : Packet) (t : Link) : Type 0 where
    pub proven_side : t.initiator ≡ l.initiator
    pub proven_id : t.link_id ≡ l.link_id
    pub proven_destination : t.destination_key ≡ l.destination_key
    pub proven_up : is_up t.status ≡ true → (is_up l.status ≡ true) ⊎ IsSigned l q

  abbrev Proves : Link → Packet → Link × List Effect → Type 0
  Proves l q r = Proven l q r.0

  -- Where the signature is known to be valid.
  establish-Proven :
      (now mtu : ℕ) (interface : Option ℕ) (l k : Link) (q : Packet)
      → k.initiator ≡ l.initiator
      → k.link_id ≡ l.link_id
      → k.destination_key ≡ l.destination_key
      → IsSigned l q
      → Proves l q (caught (establish h now mtu interface k))
  unfolding establish update_mdu
  establish-Proven now mtu interface l k q side id dest w =
      option_both (λ r. Proves l q (caught r)) (made_token k.token k.derived_key)
        (record {
          proven_side = side;
          proven_id = id;
          proven_destination = dest;
          proven_up = λ e. inr w;
        })
        (λ t.
          if_both (λ r. Proves l q (caught r))
            (let mtu' = if mtu == 0 then reticulum_mtu else mtu in
              ltb mtu' (packed_size (sealed_size (length (h.pack_double (now - k.request_time))))))
            (λ g. record {
              proven_side = side;
              proven_id = id;
              proven_destination = dest;
              proven_up = λ e. inr w;
            })
            (λ g. record {
              proven_side = side;
              proven_id = id;
              proven_destination = dest;
              proven_up = λ e. inr w;
            }))

  -- Behind the handshake of the link with the peer's keys loaded.
  check_proof-Proven :
      (now mtu : ℕ) (interface : Option ℕ) (l a : Link) (q : Packet) (s : Bytes) (t : Try)
      → let keys = left q.payload (sig_bytes + half_ecpubsize) in
        let signer = mid_len l.destination_key half_ecpubsize half_ecpubsize in
        a ≡ load_peer (mid_len keys sig_bytes half_ecpubsize) signer l
        → OnTry (Fresh a) t
        → Proves l q (caught (check_proof h now mtu interface q (left keys sig_bytes) s t))
  unfolding check_proof
  check_proof-Proven now mtu interface l a q s (threw k es) loaded f = record {
    proven_side = f.fresh_side ∙ ap (λ (x : Link). x.initiator) loaded;
    proven_id = f.fresh_id ∙ ap (λ (x : Link). x.link_id) loaded;
    proven_destination = f.fresh_destination ∙ ap (λ (x : Link). x.destination_key) loaded;
    proven_up = λ e. absurd (cc e);
  }
  check_proof-Proven now mtu interface l a q s (done k es) loaded f =
      let keys : Bytes = left q.payload (sig_bytes + half_ecpubsize) in
      let signer : Bytes = mid_len l.destination_key half_ecpubsize half_ecpubsize in
      let side = f.fresh_side ∙ ap (λ (x : Link). x.initiator) loaded in
      let id = f.fresh_id ∙ ap (λ (x : Link). x.link_id) loaded in
      let dest = f.fresh_destination ∙ ap (λ (x : Link). x.destination_key) loaded in
      let peer : k.peer_pub_bytes ≡ mid_len keys sig_bytes half_ecpubsize =
        f.fresh_peer ∙ ap (λ (x : Link). x.peer_pub_bytes) loaded in
      let peer_sig : k.peer_sig_pub_bytes ≡ signer =
        f.fresh_peer_sig ∙ ap (λ (x : Link). x.peer_sig_pub_bytes) loaded in
      let checked =
        h.verify (mid_len k.destination_key half_ecpubsize half_ecpubsize) (left keys sig_bytes)
          (signed_part k.link_id k.peer_pub_bytes k.peer_sig_pub_bytes s) in
      if_both (λ r. Proves l q (caught r)) checked
        (λ e.
          let w : IsSigned l q = record {
            signalled = s;
            valid = rw (dest, id, peer, peer_sig) at e;
          } in
          if_both (λ r. Proves l q (caught r)) (is_handshaking k.status)
            (λ g. establish-Proven now mtu interface l _ q side id dest w)
            (λ g. record {
              proven_side = side;
              proven_id = id;
              proven_destination = dest;
              proven_up = λ i. inr w;
            }))
        (λ e. record {
          proven_side = side;
          proven_id = id;
          proven_destination = dest;
          proven_up = λ i. absurd (cc (i, f.fresh_down));
        })

  refused : (l : Link) (q : Packet) → Proven l q l
  refused l q = record {
    proven_side = refl;
    proven_id = refl;
    proven_destination = refl;
    proven_up = inl;
  }

  read_proof-Proven :
      (now mtu : ℕ) (interface : Option ℕ) (q : Packet) (packet_data : Bytes) (s : Option Bytes)
      → (l : Link) → is_up l.status ≡ false
      → (length packet_data ≡ sig_bytes + half_ecpubsize
          → packet_data ≡ left q.payload (sig_bytes + half_ecpubsize))
      → Proves l q (caught (read_proof h now mtu interface q packet_data s l))
  unfolding read_proof
  read_proof-Proven now mtu interface q packet_data none l down cut = record {
    proven_side = refl;
    proven_id = refl;
    proven_destination = refl;
    proven_up = λ e. absurd (cc e);
  }
  read_proof-Proven now mtu interface q packet_data (some s) l down cut =
      let signer : Bytes = mid_len l.destination_key half_ecpubsize half_ecpubsize in
      if_both (λ r. Proves l q (caught r))
        (l.initiator && length packet_data == sig_bytes + half_ecpubsize)
        (λ e.
          let keys : packet_data ≡ left q.payload (sig_bytes + half_ecpubsize) =
            cut (sized l.initiator (length packet_data) e) in
          let a : Link = load_peer (mid_len packet_data sig_bytes half_ecpubsize) signer l in
          subst
            (λ b. Proves l q (
              caught (
                check_proof h now mtu interface q (left b sig_bytes) s
                  (handshake h (load_peer (mid_len b sig_bytes half_ecpubsize) signer l)))))
            (sym keys)
            (check_proof-Proven now mtu interface l _ q s _ refl (handshake-Fresh _ down)))
        (λ e. refused l q)

  -- `validate_proof` makes a link active only with a signature of the destination.
  pub validate_proof-Proven :
      (now : ℕ) (interface : Option ℕ) (q : Packet) (l : Link)
      → Proves l q (validate_proof h now interface q l)
  unfolding validate_proof
  validate_proof-Proven now interface q l =
      if_both (Proves l q) (is_pending l.status)
        (λ e.
          let down = pending_down l.status e in
          if_both (Proves l q) (mode_from_lp_packet q == l.mode)
            (λ f.
              if_both (λ t. Proves l q (caught t))
                (length q.payload == sig_bytes + half_ecpubsize + link_mtu_size)
                (λ g.
                  read_proof-Proven now (mtu_from_lp_packet q) interface q
                    (left q.payload (sig_bytes + half_ecpubsize))
                    (signalling_bytes (mtu_from_lp_packet q) (mode_from_lp_packet q)) l down
                    (λ i. refl))
                (λ g.
                  read_proof-Proven now 0 interface q q.payload (some []) l down
                    (λ i. sym (left_all q.payload (sig_bytes + half_ecpubsize) i))))
            (λ f. record {
              proven_side = refl;
              proven_id = refl;
              proven_destination = refl;
              proven_up = λ i. absurd (cc i);
            }))
        (λ e. refused l q)
