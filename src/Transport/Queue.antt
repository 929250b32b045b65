-- ===== src/Transport/Queue.antt =====
-- src/microReticulum/Transport.cpp, `outbound`: the announces of other nodes on one interface, and
-- the queue of src/microReticulum/Interface.h.
pub mod Stalled
use micro_reticulum.Prelude.{
  ℕ, ◌+◌, ◌*◌, ◌/◌, ◌%◌, ◌^◌, List, [], ◌∷◌, Option, none, some, Bool, true, false, ◌&&◌,
  if◌then◌else◌, ltb, length,
}
use micro_reticulum.Bytes.{Bytes, same}
use micro_reticulum.Transport.Blobs.{announce_emitted}

-- `RNS::AnnounceEntry`
pub record Queued : Type 0 where
  pub destination : Bytes
  pub time : ℕ
  pub hops : ℕ
  pub emitted : ℕ
  pub raw : Bytes

-- What `outbound` reads of the interface; `per_cap` divides by the announce cap, a floating-point
-- number, and `has_cap` is whether that is above 0.
pub record Outlet : Type 0 where
  pub bitrate : ℕ
  pub has_cap : Bool
  pub per_cap : ℕ → ℕ
  pub announce_allowed_at : ℕ
  pub announce_queue : List Queued

-- An announce that is to be sent at a time. One with an attached interface, as the answer to a path
-- request has, says whether this is the one.
pub record Relayed : Type 0 where
  pub attached : Option Bool
  pub outbound_time : ℕ
  pub destination_hash : Bytes
  pub hops : ℕ
  pub content : Bytes
  pub raw : Bytes

abbrev pub is_empty : List Queued → Bool
is_empty [] = true
is_empty (x ∷ xs) = false

abbrev pub queued_as : Relayed → Queued
queued_as a = record {
  destination = a.destination_hash;
  time = a.outbound_time;
  hops = a.hops;
  emitted = announce_emitted a.content;
  raw = a.raw;
}

-- An entry for the same destination is replaced by a newer announce, and none is added.
unfoldable pub enqueue : Relayed → List Queued → List Queued
enqueue a [] = queued_as a ∷ []
enqueue a (x ∷ xs) =
    let rest = enqueue a xs in
    if same x.destination a.destination_hash
    then (if ltb x.emitted (announce_emitted a.content)
        then record (queued_as a) { destination = x.destination }
        else x)
      ∷ xs
    else x ∷ rest

abbrev pub wait_time : Relayed → Outlet → ℕ
wait_time a o =
    if ltb 0 o.bitrate && o.has_cap
    then o.per_cap (length a.raw * 8 / o.bitrate % 2 ^ 16) % 2 ^ 16
    else 0

-- The interface afterwards, and `should_transmit`, where its mode does not restrict announces and
-- nothing else has refused the packet; `limit` is the size of the queue that the build
-- sets.
unfoldable pub offer : (limit : ℕ) → Relayed → Outlet → Outlet × Bool
offer limit a o = elim a.attached [
  | some here ↦ (o, here)
  | none ↦
      if ltb 0 a.hops
      then if is_empty o.announce_queue && ltb o.announce_allowed_at a.outbound_time
        then (record o { announce_allowed_at = a.outbound_time + wait_time a o }, true)
        else if ltb (length o.announce_queue) limit
        then (record o { announce_queue = enqueue a o.announce_queue }, false)
        else (o, false)
      else (o, true)
]
