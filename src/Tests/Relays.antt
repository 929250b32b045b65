-- ===== src/Tests/Relays.antt =====
-- src/microReticulum/Transport.cpp: an entry of the link table, at the keys of Tests/Links.
use micro_reticulum.Prelude.{
  ◌≡◌, refl, ap, ◌⊎◌, [], ◌∷◌, ◌++◌, Option, some, true, replicate, arith,
}
use micro_reticulum.Bytes.{Bytes, left}
use micro_reticulum.Packet.Context.{lrproof}
use micro_reticulum.Packet.Types.{Packet, from_raw, proof}
use micro_reticulum.Link.Signalling.{signalling_bytes, signalling_value}
use micro_reticulum.Link.Handshake.Answer.{answer}
use micro_reticulum.Transport.Forward.{link_raw}
use micro_reticulum.Transport.Links.{
  LinkEntry, Sent, new_link_entry, clamped, link_outbound, transport_link, transport_proof,
}
use micro_reticulum.Transport.Links.Passing.{transport_proof-answer}
use micro_reticulum.Transport.Links.Vouched.{
  hears_proof, hears_packet, run, step, SomeVouched, run-SomeVouched,
}
use micro_reticulum.Tests.Links.{byte_host}

abbrev link_id : Bytes
link_id = replicate 16 0x11

-- From interface 1 to interface 2, two hops behind and three ahead.
abbrev relayed : LinkEntry
relayed =
    new_link_entry 1000 0 3 2 1 (replicate 16 0x22)
      (record (from_raw []) { hops = 2; destination_hash = replicate 16 0x33 })

abbrev owner_key : Bytes
owner_key = replicate 32 4

abbrev recalls : Bytes → Option Bytes
recalls hash = some (replicate 32 8 ++ byte_host.ed25519_public owner_key)

abbrev proof_packet : Packet
proof_packet = record (from_raw []) {
  packet_type = proof;
  context = lrproof;
  hops = 3;
  destination_hash = link_id;
  payload = answer byte_host owner_key (replicate 32 5) link_id 500;
}

transport_proof-answer_example :
    transport_proof byte_host recalls 2 proof_packet relayed
    ≡ (record relayed { validated = true }, some (1, link_raw [] 3))
unfolding new_link_entry
transport_proof-answer_example =
    transport_proof-answer byte_host recalls 2 proof_packet relayed owner_key (replicate 32 5)
      (replicate 32 8) 500 (omega arith) refl refl refl refl

relayed_validated :
    (run byte_host recalls
      (hears_packet 1500 1 proof_packet ∷ hears_proof 2 proof_packet ∷ [])
      relayed).validated
    ≡ true
unfolding run step new_link_entry link_outbound transport_link
relayed_validated =
    ap (λ (r : LinkEntry × Sent). r.0.validated)
      (transport_proof-answer byte_host recalls 2 proof_packet relayed owner_key (replicate 32 5)
        (replicate 32 8) 500 (omega arith) refl refl refl refl)

run-SomeVouched_example :
    (relayed.validated ≡ true)
    ⊎ SomeVouched byte_host recalls relayed.destination_hash
        (hears_packet 1500 1 proof_packet ∷ hears_proof 2 proof_packet ∷ [])
run-SomeVouched_example =
    run-SomeVouched byte_host recalls
      (hears_packet 1500 1 proof_packet ∷ hears_proof 2 proof_packet ∷ []) relayed relayed_validated

-- A request for 1000 bytes goes on with the 500 of the next hop, or without its signalling where the
-- next hop has no MTU.
lowered :
    (clamped 1000 1 500 0 true (9 ∷ 32 ∷ 3 ∷ 232 ∷ []) ≡ some (9 ∷ 32 ∷ 1 ∷ 244 ∷ []))
    × (clamped 1000 1 0 0 true (9 ∷ 32 ∷ 3 ∷ 232 ∷ []) ≡ some (9 ∷ []))
unfolding clamped signalling_bytes signalling_value left
lowered = (refl, refl)
