-- ===== src/Tests/Announces.antt =====
-- src/microReticulum/Transport.cpp, the announce table: an announce with three hops that came in at
-- 100.
use micro_reticulum.Prelude.{◌≡◌, refl, List, [], ◌∷◌, none, some, true, false, arith}
use micro_reticulum.Packet.Types.{from_raw}
use micro_reticulum.Transport.Retransmit.{
  AnnounceEntry, new_announce_entry, Event, visits, hears, run,
}
use micro_reticulum.Transport.Retransmit.Lifetime.{run-Due}

abbrev waiting : AnnounceEntry
waiting = record {
  timestamp = 100;
  retransmit_timeout = 101;
  retries = 0;
  received_from = 8 ∷ [];
  hops = 3;
  packet = from_raw [];
  local_rebroadcasts = 1;
  block_rebroadcasts = false;
}

waiting_new :
    record (new_announce_entry 100 1 false (8 ∷ []) 3 (from_raw [])) { local_rebroadcasts = 1 }
    ≡ waiting
unfolding new_announce_entry
waiting_new = refl

-- Heard once with two hops more, which changes nothing.
abbrev life : List Event
life = visits 102 true ∷ hears 103 5 ∷ visits 110 true ∷ visits 114 true ∷ visits 130 true ∷ []

life_sends : (run (9 ∷ []) (some waiting) life).1 ≡ 2
unfolding run
life_sends = refl

abbrev due_life : List Event
due_life = visits 102 true ∷ hears 103 5 ∷ visits 114 true ∷ visits 130 true ∷ []

run-Due_example : (run (9 ∷ []) (some waiting) due_life).0 ≡ none
run-Due_example =
    run-Due (9 ∷ []) waiting due_life (omega arith, (omega arith, (omega arith, tt))) (omega arith)
