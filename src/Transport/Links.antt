-- ===== src/Transport/Links.antt =====
-- src/microReticulum/Transport.h and Transport.cpp: the link table, from the request that makes an
-- entry to the proof and the packets that pass along it. An interface is a number.
pub mod Vouched
pub mod Passing
use micro_reticulum.Prelude.{
  ℕ, ◌+◌, ◌*◌, ◌-◌, ◌≡◌, max, min, List, [], ◌∷◌, ◌++◌, Option, none, some, Bool, true, false, not,
  ◌&&◌, ◌||◌, if◌then◌else◌, ltb, ◌==◌, length,
}
use micro_reticulum.Bytes.{Bytes, left, mid, mid_len}
use micro_reticulum.Packet.Types.{Packet}
use micro_reticulum.Link.{
  half_ecpubsize, sig_bytes, link_mtu_size, establishment_timeout_per_hop, Host,
}
use micro_reticulum.Link.Signalling.{signalling_bytes, mtu_from_lp_packet, mode_from_lp_packet}
use micro_reticulum.Link.Handshake.{signed_part}
use micro_reticulum.Transport.Forward.{link_raw}

-- `Transport::LinkEntry`
pub record LinkEntry : Type 0 where
  pub timestamp : ℕ
  pub next_hop : Bytes
  pub outbound_interface : ℕ
  pub remaining_hops : ℕ
  pub receiving_interface : ℕ
  pub hops : ℕ
  pub destination_hash : Bytes
  pub validated : Bool
  pub proof_timeout : ℕ

-- What is transmitted, and where.
abbrev pub Sent : Type 0
Sent = Option (ℕ × Bytes)

-- The entry for a link request; `extra` is `extra_link_proof_timeout` of the interface it came from.
unfoldable pub new_link_entry :
    (now extra remaining_hops outbound interface : ℕ) (next_hop : Bytes) → Packet → LinkEntry
new_link_entry now extra remaining_hops outbound interface next_hop q = record {
  timestamp = now;
  next_hop = next_hop;
  outbound_interface = outbound;
  remaining_hops = remaining_hops;
  receiving_interface = interface;
  hops = q.hops;
  destination_hash = q.destination_hash;
  validated = false;
  proof_timeout = extra + now + establishment_timeout_per_hop * max 1 remaining_hops;
}

-- The bytes of a link request that signals an MTU, for the next hop's MTU and that of the interface
-- it came from, 0 where there is none. `none` is the exception that drops the request.
unfoldable pub clamped :
    (path_mtu mode next_mtu previous_mtu : ℕ) (configures : Bool) (new_raw : Bytes) → Option Bytes
clamped path_mtu mode next_mtu previous_mtu configures new_raw =
    let bare = left new_raw (length new_raw - link_mtu_size) in
    let least = min next_mtu (if ltb 0 previous_mtu then previous_mtu else next_mtu) in
    if path_mtu == 0
    then some new_raw
    else if next_mtu == 0
    then some bare
    else if not configures
    then some bare
    else if ltb next_mtu path_mtu || (not (previous_mtu == 0) && ltb previous_mtu path_mtu)
    then elim (signalling_bytes least mode) [ none ↦ none | some s ↦ some (bare ++ s) ]
    else some new_raw

-- The interface on which a packet that belongs to the link goes on.
unfoldable pub link_outbound : (interface hops : ℕ) → LinkEntry → Option ℕ
link_outbound interface hops e =
    if e.outbound_interface == e.receiving_interface
    then if hops == e.remaining_hops || hops == e.hops then some e.outbound_interface else none
    else if interface == e.outbound_interface
    then if hops == e.remaining_hops then some e.receiving_interface else none
    else if interface == e.receiving_interface
    then if hops == e.hops then some e.outbound_interface else none
    else none

unfoldable pub transport_link : (now interface : ℕ) → Packet → LinkEntry → LinkEntry × Sent
transport_link now interface q e = elim (link_outbound interface q.hops e) [
  | none ↦ (e, none)
  | some out ↦ (record e { timestamp = now }, some (out, link_raw q.raw q.hops))
]

-- 15 minutes behind the last packet for a link that was validated.
unfoldable pub is_stale : (now : ℕ) → LinkEntry → Bool
is_stale now e = if e.validated then ltb (e.timestamp + 900 * 1000) now else ltb e.proof_timeout now

abbrev pub signalled_by : Packet → Option Bytes
signalled_by q =
    if length q.payload == sig_bytes + half_ecpubsize + link_mtu_size
    then signalling_bytes (mtu_from_lp_packet q) (mode_from_lp_packet q)
    else some []

module _ (h : Host) where
  -- A link proof with the recalled public key of the destination, and with the signalled bytes.
  unfoldable pub vouch : Packet → (key signalled : Option Bytes) → LinkEntry → LinkEntry × Sent
  vouch q none signalled e = (e, none)
  vouch q (some key) none e = (e, none)
  vouch q (some key) (some s) e =
      let peer_pub_bytes = mid_len q.payload sig_bytes half_ecpubsize in
      let peer_sig_pub_bytes = mid_len key half_ecpubsize half_ecpubsize in
      let message = signed_part q.destination_hash peer_pub_bytes peer_sig_pub_bytes s in
      if h.verify (mid key half_ecpubsize) (left q.payload sig_bytes) message
      then (record e { validated = true }, some (e.receiving_interface, link_raw q.raw q.hops))
      else (e, none)

  -- `recall` gives the public key that the node knows for a destination.
  unfoldable pub transport_proof :
      (recall : Bytes → Option Bytes) (interface : ℕ) → Packet → LinkEntry → LinkEntry × Sent
  transport_proof recall interface q e =
      let size = length q.payload in
      if interface == e.outbound_interface
      then if size == sig_bytes + half_ecpubsize
          || size == sig_bytes + half_ecpubsize + link_mtu_size
        then vouch q (recall e.destination_hash) (signalled_by q) e
        else (e, none)
      else (e, none)
