-- ===== src/Link/Handshake.antt =====
-- src/microReticulum/Link.cpp: how a link is opened, from the request of its initiator to the
-- proof that answers it.
pub mod Answer
use micro_reticulum.Prelude.{
  ℕ, ◌+◌, ◌-◌, ◌*◌, ◌/◌, ◌%◌, ◌^◌, max, List, [], ◌∷◌, ◌++◌, Option, none, some, Bool, true, false,
  ◌&&◌, ◌||◌, not, if◌then◌else◌, ltb, ◌==◌, length,
}
use micro_reticulum.Bytes.{Bytes, left, mid_len}
use micro_reticulum.Packet.Context.{context_none, lrrtt, lrproof}
use micro_reticulum.Packet.Types.{Packet, data_packet, linkrequest, proof}
use micro_reticulum.Cryptography.Derivation.{hkdf}
use micro_reticulum.Cryptography.Padding.{ok, err}
use micro_reticulum.Cryptography.Token.{token, mode_aes}
use micro_reticulum.Link.{
  Status, pending, handshaking, active, closed, teardown_none, is_pending, is_handshaking,
  ecpubsize, half_ecpubsize, sig_bytes, link_mtu_size, reticulum_mtu, mode_aes128_cbc,
  mode_aes256_cbc, mode_default, establishment_timeout_per_hop, keepalive_time, Host, Link, Effect,
  packed_size, sends, registers, activates, calls_established, Try, done, threw,
}
use micro_reticulum.Link.Signalling.{
  signalling_bytes, mtu_from_lr_packet, mtu_from_lp_packet, mode_from_lr_packet,
  mode_from_lp_packet, link_id_from_lr_packet,
}

abbrev pub had_outbound : ℕ → Bool → Link → Link
had_outbound now is_keepalive l = record l {
  last_outbound = now;
  last_data = if is_keepalive then l.last_data else now;
}

abbrev pub load_peer : Bytes → Bytes → Link → Link
load_peer peer_pub_bytes peer_sig_pub_bytes l = record l {
  peer_pub_bytes = peer_pub_bytes;
  peer_sig_pub_bytes = peer_sig_pub_bytes;
}

-- The length of the derived key; `none` is the exception.
abbrev pub derived_key_length : ℕ → Option ℕ
derived_key_length mode =
    if mode == mode_aes128_cbc then some 32 else if mode == mode_aes256_cbc then some 64 else none

-- What the proof of a link request signs: the answering side's keys and what it signals.
abbrev pub signed_part : Bytes → Bytes → Bytes → Bytes → Bytes
signed_part link_id pub_bytes sig_pub_bytes s = link_id ++ (pub_bytes ++ (sig_pub_bytes ++ s))

-- What `handshake` and `prove` are called on and then done to, in `validate_request`.
abbrev pub accepted : (now : ℕ) → Try → Option (Link × List Effect)
accepted now (threw l es) = none
accepted now (done l es) =
    some (record l { request_time = now; last_inbound = now }, es ++ registers ∷ [])

module _ (h : Host) where
  -- The part of the constructor that both sides share; the private keys are generated by the
  -- caller, and an owner signs with its own.
  unfoldable pub new_link :
      (initiator : Bool) (owner : Option Bytes) (destination_key prv sig_prv : Bytes) → Link
  new_link initiator owner destination_key prv sig_prv = record {
    link_id = [];
    hash = [];
    status = pending;
    mode = mode_default;
    rtt = 0;
    mtu = reticulum_mtu;
    mdu = 0;
    establishment_cost = 0;
    last_inbound = 0;
    last_outbound = 0;
    last_proof = 0;
    last_data = 0;
    rx = 0;
    rxbytes = 0;
    activated_at = 0;
    owner = owner;
    destination_key = destination_key;
    initiator = initiator;
    attached_interface = none;
    remote_identity = none;
    establishment_timeout = 0;
    request_data = [];
    request_time = 0;
    teardown_reason = teardown_none;
    token = none;
    prv = some prv;
    sig_prv = elim owner [ none ↦ sig_prv | some key ↦ key ];
    pub_bytes = h.x25519_public prv;
    sig_pub_bytes = h.ed25519_public (elim owner [ none ↦ sig_prv | some key ↦ key ]);
    peer_pub_bytes = [];
    peer_sig_pub_bytes = [];
    shared_key = [];
    derived_key = [];
  }

  abbrev pub set_link_id : Packet → Link → Link
  set_link_id p l = record l {
    link_id = link_id_from_lr_packet h p;
    hash = link_id_from_lr_packet h p;
  }

  -- The constructor of the initiator: `next_hop_mtu` is 0 where it is not known or not to be
  -- discovered, and `packed` is what `pack` makes of the packet with the request's data. `none` is
  -- the exception.
  unfoldable pub open_link :
      (now next_hop_mtu hops first_hop_timeout : ℕ) (destination_key prv sig_prv : Bytes)
      → (packed : Bytes → Packet) → Option (Link × List Effect)
  open_link now next_hop_mtu hops first_hop_timeout destination_key prv sig_prv packed =
      let l = new_link true none destination_key prv sig_prv in
      let mtu = if next_hop_mtu == 0 then reticulum_mtu else next_hop_mtu in
      elim (signalling_bytes mtu l.mode) [
        | none ↦ none
        | some s ↦
            let request_data = l.pub_bytes ++ l.sig_pub_bytes ++ s in
            let p = packed request_data in
            some (
              had_outbound now false (
                  set_link_id p (record l {
                    establishment_timeout =
                        first_hop_timeout + establishment_timeout_per_hop * max 1 hops;
                    request_data = request_data;
                    establishment_cost = length p.raw % 2 ^ 16;
                    request_time = now;
                  })),
              registers ∷ sends linkrequest context_none request_data ∷ [],
            )
      ]

  -- `handshake` with the private key at hand.
  unfoldable pub derive : Bytes → Link → Try
  derive prv l =
      let shaken = record l {
        status = handshaking;
        shared_key = h.exchange prv l.peer_pub_bytes;
      } in
      if not (h.is_valid_key l.peer_pub_bytes)
      then threw (record l { status = handshaking }) []
      else elim (derived_key_length l.mode) [
        | none ↦ threw shaken []
        | some size ↦ elim (hkdf h.extract size shaken.shared_key l.link_id []) [
          | none ↦ threw shaken []
          | some key ↦ done (record shaken { derived_key = key }) []
        ]
      ]

  -- In any other state it only logs.
  unfoldable pub handshake : Link → Try
  handshake l = elim l.prv [
    | none ↦ done l []
    | some prv ↦ if is_pending l.status then derive prv l else done l []
  ]

  -- Below 84 bytes the number that is cast is negative.
  unfoldable pub update_mdu : Link → Link
  update_mdu l = record l {
    mdu =
        if ltb l.mtu (1 + 19 + 48 + 16)
        then h.below_zero
        else ((l.mtu - 1 - 19 - 48) / 16 * 16 - 1) % 2 ^ 16;
  }

  -- `prove` with the bytes that it signals, for the owner; an owner that is not
  -- there is an assertion, and `pack` throws where the MTU of the link has no room for the packet.
  unfoldable pub prove_as : (now : ℕ) (l : Link) (s : Bytes) (owner : Option Bytes) → Try
  prove_as now l s none = threw l []
  prove_as now l s (some key) =
      let signature = h.sign key (signed_part l.link_id l.pub_bytes l.sig_pub_bytes s) in
      let raw_size = packed_size (length (signature ++ (l.pub_bytes ++ s))) in
      if ltb l.mtu raw_size
      then threw (record l { last_outbound = now }) []
      else done
          (had_outbound now false
            (record l { establishment_cost = (l.establishment_cost + raw_size) % 2 ^ 16 }))
          (sends proof lrproof (signature ++ (l.pub_bytes ++ s)) ∷ [])

  unfoldable pub prove : (now : ℕ) → Link → Try
  prove now l = elim (signalling_bytes l.mtu l.mode) [
    | none ↦ threw l []
    | some s ↦ prove_as now l s l.owner
  ]

  abbrev pub then_prove : (now : ℕ) (interface : Option ℕ) → Try → Try
  then_prove now interface (threw l es) = threw l es
  then_prove now interface (done l es) = prove now (record l { attached_interface = interface })

  -- The link before its handshake.
  unfoldable pub requested :
      (owner : Option Bytes) (destination_key prv sig_prv data_bytes : Bytes) → Packet → Link
  requested owner destination_key prv sig_prv data_bytes p =
      let l = set_link_id p (
        load_peer (left data_bytes half_ecpubsize)
          (mid_len data_bytes half_ecpubsize half_ecpubsize)
          (new_link false owner [] prv sig_prv)) in
      let m = mtu_from_lr_packet p in
      let mtu =
        if length data_bytes == ecpubsize + link_mtu_size
        then if m == 0 then reticulum_mtu else m
        else l.mtu in
      record (update_mdu (record l { mtu = mtu; mode = mode_from_lr_packet p })) {
        destination_key = destination_key;
        establishment_timeout = establishment_timeout_per_hop * max 1 p.hops + keepalive_time;
        establishment_cost = length p.raw % 2 ^ 16;
      }

  -- `validate_request`; `none` is the link that is not there.
  unfoldable pub validate_request :
      (now : ℕ) (owner : Option Bytes) (destination_key prv sig_prv : Bytes)
      → (interface : Option ℕ) (data_bytes : Bytes) (p : Packet) → Option (Link × List Effect)
  validate_request now owner destination_key prv sig_prv interface data_bytes p =
      if length data_bytes == ecpubsize || length data_bytes == ecpubsize + link_mtu_size
      then accepted now (
          then_prove now interface
            (handshake (requested owner destination_key prv sig_prv data_bytes p)))
      else none
