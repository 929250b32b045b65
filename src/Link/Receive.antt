-- ===== src/Link/Receive.antt =====
-- src/microReticulum/Link.cpp, `receive`. What concerns requests and resources is handed over.
pub mod Delivery
use micro_reticulum.Prelude.{
  ℕ, suc, ◌+◌, ◌%◌, ◌^◌, List, [], ◌∷◌, Option, none, some, Bool, true, false, ◌&&◌, ◌||◌, ltb, not,
  if◌then◌else◌, ◌==◌, length,
}
use micro_reticulum.Bytes.{Bytes, same}
use micro_reticulum.Packet.Context.{
  context_none, resource, resource_adv, resource_req, resource_hmu, resource_prf, resource_icl,
  request, response, keepalive, linkidentify, linkclose, lrrtt,
}
use micro_reticulum.Packet.Types.{PacketType, Packet, data_packet, announce, linkrequest, proof}
use micro_reticulum.Cryptography.Token.{Primitives}
use micro_reticulum.Link.{
  Status, pending, handshaking, active, stale, closed, is_closed, Host, Link, Effect, packed_size,
  sends, calls_packet, proves, hands_over,
}
use micro_reticulum.Link.Handshake.{had_outbound}
use micro_reticulum.Link.Establishment.{made_token}
use micro_reticulum.Link.Session.{
  is_nil, decrypted, keep_token, teardown_packet, rtt_packet, identify_packet,
}

abbrev pub same_interface : Option ℕ → Option ℕ → Bool
same_interface none none = true
same_interface none (some b) = false
same_interface (some a) none = false
same_interface (some a) (some b) = a == b

-- The contexts whose cases decrypt the packet.
unfoldable pub is_read : ℕ → Bool
is_read c =
    c == context_none
    || c == linkidentify
    || c == request
    || c == response
    || c == lrrtt
    || c == linkclose
    || c == resource_adv
    || c == resource_req
    || c == resource_hmu
    || c == resource_icl

-- The echo of the initiator's own keepalive.
abbrev pub is_echo : Packet → Link → Bool
is_echo q l = l.initiator && q.context == keepalive && same q.payload (0xff ∷ [])

abbrev pub revived : Status → Status
revived stale = active
revived s = s

-- What every packet of the link changes.
unfoldable pub note_packet : (now : ℕ) → Packet → Link → Link
note_packet now q l = record l {
  last_inbound = now;
  last_data = if q.context == keepalive then l.last_data else now;
  rx = suc l.rx % 2 ^ 16;
  rxbytes = (l.rxbytes + length q.payload) % 2 ^ 16;
  status = revived l.status;
}

-- A data packet that is not decrypted. The exception of an answer for which the MTU has no room ends
-- the call.
unfoldable pub receive_raw : (now : ℕ) → Packet → Link → Link × List Effect
receive_raw now q l =
    if q.context == keepalive
    then if not l.initiator && same q.payload (0xff ∷ [])
      then if ltb l.mtu (packed_size 1)
        then (record l { last_outbound = now }, [])
        else (had_outbound now true l, sends data_packet keepalive (0xfe ∷ []) ∷ [])
      else (l, [])
    else if q.context == resource
    then (l, hands_over resource q.payload ∷ [])
    else (l, [])

abbrev pub receive_proof : Packet → Link → Link × List Effect
receive_proof q l =
    if q.context == resource_prf then (l, hands_over resource_prf q.payload ∷ []) else (l, [])

module _ (h : Host) where
  -- A data packet by its context and its plaintext; `proved` says that the proof strategy of the
  -- destination, or the application where that asks it, wants a proof.
  unfoldable pub receive_plaintext :
      (now : ℕ) (proved : Bool) (context : ℕ) (plaintext : Bytes) → Link → Link × List Effect
  receive_plaintext now proved context plaintext l =
      if context == linkidentify
      then identify_packet h plaintext l
      else if context == lrrtt
      then rtt_packet h now plaintext l
      else if context == linkclose
      then teardown_packet plaintext l
      else if is_nil plaintext
      then (l, [])
      else if context == context_none
      then (l, calls_packet plaintext ∷ (if proved then proves ∷ [] else []))
      else (l, hands_over context plaintext ∷ [])

  module _ (p : Primitives) where
    unfoldable pub receive_data : (now : ℕ) (proved : Bool) → Packet → Link → Link × List Effect
    receive_data now proved q l =
        let t = made_token l.token l.derived_key in
        if is_read q.context && not (l.initiator && q.context == lrrtt)
        then receive_plaintext now proved q.context (decrypted p t q.payload) (keep_token t l)
        else receive_raw now q l

    unfoldable pub receive_typed :
        (now : ℕ) (proved : Bool) → PacketType → Packet → Link → Link × List Effect
    receive_typed now proved data_packet q l = receive_data now proved q l
    receive_typed now proved proof q l = receive_proof q l
    receive_typed now proved announce q l = (l, [])
    receive_typed now proved linkrequest q l = (l, [])

    unfoldable pub receive :
        (now : ℕ) (proved : Bool) (interface : Option ℕ) → Packet → Link → Link × List Effect
    receive now proved interface q l =
        if is_closed l.status || is_echo q l
        then (l, [])
        else if same_interface interface l.attached_interface
        then receive_typed now proved q.packet_type q (note_packet now q l)
        else (l, [])
