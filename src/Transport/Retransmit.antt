-- ===== src/Transport/Retransmit.antt =====
-- src/microReticulum/Transport.cpp: an announce that waits in the announce table. `jobs` visits it
-- and sends it on, and `inbound` hears others do so. Times are in half seconds.
pub mod Lifetime
use micro_reticulum.Prelude.{
  ℕ, suc, ◌+◌, ◌-◌, ◌*◌, ◌%◌, ◌^◌, ◌≤◌, ◌<◌, ◌≡◌, ◌↔◌, refl, sym, subst, inl, inr, List, [], ◌∷◌,
  Option, none, some, Bool, true, false, ◌&&◌, if◌then◌else◌, ltb, leb, ◌==◌, length, Bool-cases,
  Option-cases, arith,
}
use micro_reticulum.Bytes.{Bytes}
use micro_reticulum.Packet.Context.{context_none, path_response}
use micro_reticulum.Packet.Types.{
  Packet, from_raw, header_2, transport, announce, single, Destination,
}

-- Without the packet itself, of which only the data, the address and the context flag are used, and
-- the interface that it is attached to.
pub record AnnounceEntry : Type 0 where
  pub timestamp : ℕ
  pub retransmit_timeout : ℕ
  pub retries : ℕ
  pub received_from : Bytes
  pub hops : ℕ
  pub packet : Packet
  pub local_rebroadcasts : ℕ
  pub block_rebroadcasts : Bool

abbrev pub pathfinder_r : ℕ
pathfinder_r = 1

abbrev pub pathfinder_g : ℕ
pathfinder_g = 5 * 2

abbrev pub pathfinder_rw : ℕ
pathfinder_rw = 1

abbrev pub local_rebroadcasts_max : ℕ
local_rebroadcasts_max = 2

-- The entry of an announce that `inbound` has added, at the end of its random delay. That of a
-- local client waits for nothing and is sent once.
unfoldable pub new_announce_entry : ℕ → ℕ → Bool → Bytes → ℕ → Packet → AnnounceEntry
new_announce_entry now delay from_local_client received_from announce_hops p = record {
  timestamp = now;
  retransmit_timeout = if from_local_client then now else now + delay;
  retries = if from_local_client then pathfinder_r else 0;
  received_from = received_from;
  hops = announce_hops;
  packet = p;
  local_rebroadcasts = 0;
  block_rebroadcasts = false;
}

-- The packet that is sent on, for the node with this identity.
unfoldable pub rebroadcast : Bytes → AnnounceEntry → Packet
rebroadcast identity_hash e = record (from_raw []) {
  destination = some (record { hash = e.packet.destination_hash; kind = single });
  payload = e.packet.payload;
  packet_type = announce;
  context = if e.block_rebroadcasts then path_response else context_none;
  transport_type = transport;
  header_type = header_2;
  transport_id = identity_hash;
  context_flag = e.packet.context_flag;
  hops = e.hops;
}

-- What a visit comes to.
pub data Visit : Type 0 where
  completed : Visit
  waits : Visit
  sends : Packet → AnnounceEntry → Visit

-- The body of the loop in `jobs`, where `recalled` says that the announced identity is known.
unfoldable pub visit : Bytes → ℕ → Bool → AnnounceEntry → Visit
unfolding rebroadcast
visit identity_hash now recalled e =
    let sent = record e {
      retransmit_timeout = now + pathfinder_g + pathfinder_rw;
      retries = suc e.retries % 2 ^ 8;
    } in
    if ltb 0 e.retries && leb local_rebroadcasts_max e.retries
    then completed
    else if ltb pathfinder_r e.retries
    then completed
    else if ltb e.retransmit_timeout now
    then if recalled then sends (rebroadcast identity_hash e) sent else completed
    else waits

-- `inbound` hears the announce from a node that passed it on, with these hops; `none` is an erased
-- entry. The time is compared with that of the entry's insertion.
unfoldable pub hear : ℕ → ℕ → AnnounceEntry → Option AnnounceEntry
hear now hops e =
    let heard = record e { local_rebroadcasts = suc e.local_rebroadcasts % 2 ^ 8 } in
    if hops == e.hops + 1
    then if leb local_rebroadcasts_max heard.local_rebroadcasts then none else some heard
    else if hops == e.hops + 2 && ltb 0 e.retries && ltb now e.timestamp
    then none
    else some e

-- What happens to an entry.
pub data Event : Type 0 where
  visits : ℕ → Bool → Event
  hears : ℕ → ℕ → Event

abbrev pub after_visit : AnnounceEntry → Visit → Option AnnounceEntry × ℕ
after_visit e completed = (none, 0)
after_visit e waits = (some e, 0)
after_visit e (sends p t) = (some t, 1)

-- The entry after an event, and how many packets were sent.
unfoldable pub step : Bytes → AnnounceEntry → Event → Option AnnounceEntry × ℕ
unfolding visit hear
step identity_hash e (visits now recalled) = after_visit e (visit identity_hash now recalled e)
step identity_hash e (hears now hops) = (hear now hops e, 0)

unfoldable pub run : Bytes → Option AnnounceEntry → List Event → Option AnnounceEntry × ℕ
unfolding step
run identity_hash none es = (none, 0)
run identity_hash (some e) [] = (some e, 0)
run identity_hash (some e) (event ∷ es) =
    let (t, n) = step identity_hash e event in let (u, m) = run identity_hash t es in (u, n + m)
