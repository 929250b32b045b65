-- ===== src/Tests/Routing.antt =====
-- src/microReticulum/Transport.cpp at concrete packets, announces and times.
use micro_reticulum.Prelude.{
  replicate, ℕ, ◌<◌, ◌≡◌, refl, inl, List, [], ◌∷◌, none, some, true, false, arith,
}
use micro_reticulum.Bytes.{Bytes}
use micro_reticulum.Bytes.Compare.{same_iff}
use micro_reticulum.Packet.Types.{Packet, from_raw}
use micro_reticulum.Transport.Filter.{
  HashList, Node, remember_packet_hash, accept, IsOnce, accept_twice,
}
use micro_reticulum.Transport.Blobs.{
  has_blob, timebase_from_random_blob, timebase_from_random_blobs,
}
use micro_reticulum.Transport.Announce.{
  PathEntry, Announce, Mode, roaming, should_add, should_add_newer,
}
use micro_reticulum.Transport.Rate.{RateEntry, Limits, rate_run, rate_run-Spaced, rate_run-Fast}

-- A list of hashes that forgets nothing.
seen-put : (s : List Bytes) (k : Bytes) → has_blob k (k ∷ s) ≡ true
unfolding has_blob
seen-put s k = rw ((same_iff k k).1 refl)

abbrev memory : HashList
memory = record {
  State = List Bytes;
  exists = λ s k. has_blob k s;
  put = λ s k. k ∷ s;
  exists-put = seen-put;
}

abbrev node : Node
node = record {
  filter_packet = λ p. true;
  shared_instance = false;
  identity_hash = 9 ∷ [];
  in_link_table = λ b. false;
}

-- A data packet for a single destination.
abbrev parcel : Packet
parcel = record (from_raw []) { packet_hash = 5 ∷ 6 ∷ [] }

parcel-IsOnce : IsOnce memory node parcel
parcel-IsOnce = record {
  filtered = refl;
  not_exempt = refl;
  kind = inl refl;
  not_single_announce = λ e. cc;
}

parcel_remembered : remember_packet_hash memory node parcel ≡ true
unfolding remember_packet_hash
parcel_remembered = refl

parcel_accepted : accept memory node [] parcel ≡ ((5 ∷ 6 ∷ []) ∷ [], true)
unfolding accept has_blob
parcel_accepted = refl

accept_twice_example : accept memory node ((5 ∷ 6 ∷ []) ∷ []) parcel ≡ ((5 ∷ 6 ∷ []) ∷ [], false)
accept_twice_example =
    accept_twice memory node [] ((5 ∷ 6 ∷ []) ∷ []) parcel parcel-IsOnce parcel_remembered
      parcel_accepted

-- Blobs that carry the times 7 and 300 of emission.
abbrev older : Bytes
older = 1 ∷ 1 ∷ 1 ∷ 1 ∷ 1 ∷ 0 ∷ 0 ∷ 0 ∷ 0 ∷ 7 ∷ []

abbrev newer : Bytes
newer = 2 ∷ 2 ∷ 2 ∷ 2 ∷ 2 ∷ 0 ∷ 0 ∷ 0 ∷ 1 ∷ 44 ∷ []

timebase-newer : timebase_from_random_blobs (newer ∷ older ∷ []) ≡ 300
unfolding timebase_from_random_blobs
timebase-newer = refl

abbrev path : PathEntry
path = record {
  timestamp = 10;
  received_from = 3 ∷ [];
  hops = 2;
  expires = 5000;
  random_blobs = older ∷ [];
}

abbrev heard : Announce
heard = record { hops = 1; received_from = 4 ∷ []; random_blob = newer; emitted = 300 }

abbrev table : List Bytes
table = (8 ∷ []) ∷ []

abbrev between : List (Mode × ℕ × Announce)
between = (roaming, 52, record heard { random_blob = replicate 10 9 }) ∷ []

heard_added : should_add table none 50 false (some path) heard ≡ true
unfolding should_add has_blob timebase_from_random_blobs
heard_added = refl

path_has_older : has_blob older path.random_blobs ≡ true
unfolding has_blob
path_has_older = refl

should_add_newer_example :
    (timebase_from_random_blob older < 300) × (has_blob newer path.random_blobs ≡ false)
should_add_newer_example =
    should_add_newer table none 50 path heard older heard_added (omega arith) path_has_older

abbrev limits : Limits
limits = record { target = 100; grace = 1; penalty = 50 }

abbrev first : RateEntry
first = record { last = 1000; rate_violations = 0; blocked_until = 0; timestamps = 1000 ∷ [] }

rate_run-Spaced_example : (rate_run limits first (1100 ∷ 1250 ∷ [])).1 ≡ false
rate_run-Spaced_example =
    rate_run-Spaced limits first (1100 ∷ 1250 ∷ []) (omega arith) refl (omega arith) (omega arith)

rate_run-Fast_example : (rate_run limits first (1010 ∷ 1020 ∷ [])).1 ≡ true
rate_run-Fast_example =
    rate_run-Fast limits first (1010 ∷ 1020 ∷ []) (omega arith) refl (omega arith) (omega arith)
