-- ===== src/Tests/Queues.antt =====
-- src/microReticulum/Transport.cpp: announces on an interface that was just used for one.
use micro_reticulum.Prelude.{ℕ, ◌*◌, ◌≡◌, refl, [], ◌∷◌, none, true, false, replicate}
use micro_reticulum.Transport.Queue.{Outlet, Relayed, is_empty, offer, enqueue}
use micro_reticulum.Transport.Queue.Stalled.{run, none_left, one_more, run-stalled}

abbrev heard_at : ℕ → Relayed
heard_at time = record {
  attached = none;
  outbound_time = time;
  destination_hash = replicate 16 0x44;
  hops = 3;
  content = [];
  raw = replicate 200 0;
}

abbrev outlet : Outlet
outlet = record {
  bitrate = 1000;
  has_cap = true;
  per_cap = λ n. n * 50;
  announce_allowed_at = 500;
  announce_queue = [];
}

-- The first is sent, the second is queued, and the interface waits 50 ticks.
abbrev stalled : Outlet
stalled = (run 32 (heard_at 1000 ∷ heard_at 1001 ∷ []) outlet).0

first_sent : (run 32 (heard_at 1000 ∷ heard_at 1001 ∷ []) outlet).1 ≡ heard_at 1000 ∷ []
unfolding run offer
first_sent = refl

has_queue : is_empty stalled.announce_queue ≡ false
unfolding run offer enqueue
has_queue = refl

-- Long after the wait.
run-stalled_example :
    ((run 32 (heard_at 9000 ∷ heard_at 99000 ∷ []) stalled).1 ≡ [])
    × (is_empty (run 32 (heard_at 9000 ∷ heard_at 99000 ∷ []) stalled).0.announce_queue ≡ false)
run-stalled_example =
    run-stalled 32 (heard_at 9000 ∷ heard_at 99000 ∷ []) stalled has_queue
      (one_more refl refl (one_more refl refl none_left))
