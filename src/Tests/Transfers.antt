-- ===== src/Tests/Transfers.antt =====
-- src/microReticulum/Resource.cpp with a hash that repeats the first byte, and a link that encrypts
-- to the same bytes.
use micro_reticulum.Prelude.{
  ℕ, ◌-◌, ◌≡◌, refl, List, [], ◌∷◌, ◌++◌, none, some, true, false, get_or, replicate,
  length-replicate, arith,
}
use micro_reticulum.Bytes.{Bytes, left, mid, mid_len, same}
use micro_reticulum.Resource.{
  went, refused, thrown, Sending, transferring, advertised, awaiting_proof, failed, entry,
}
use micro_reticulum.Resource.Windows.{
  Window, Round, first_window, completes, transfers, widen, note_fast, note_slow, step, run,
}
use micro_reticulum.Resource.Windows.Bounds.{IsBounded, run-IsBounded}
use micro_reticulum.Resource.Incoming.{
  Incoming, leading, file_at, file_from, file_part, search, request_next,
}
use micro_reticulum.Resource.Incoming.Parts.{filled, Counted}
use micro_reticulum.Resource.Incoming.Requests.{Asks, request_next-Asks}
use micro_reticulum.Resource.Assembly.{assemble, receive_part}
use micro_reticulum.Resource.Assembly.Completion.{IsSound, receive_part-IsSound}
use micro_reticulum.Resource.Outgoing.{
  Outgoing, outgoing, prepared, slices, request_parts, send_parts, send_slot, split_hashes,
  is_among,
}
use micro_reticulum.Resource.Outgoing.Roundtrip.{HasAll, Restored, assemble-prepared}
use micro_reticulum.Resource.Outgoing.Sent.{
  count_sent, IsTracked, request_parts-IsTracked, ticks, ticks-failed,
}

abbrev rounds : List Round
rounds = completes ∷ transfers 10 1000 ∷ completes ∷ []

run-IsBounded_example : IsBounded (run rounds first_window)
run-IsBounded_example = run-IsBounded rounds

-- The window grows up to its limit, and the least window follows it.
grown :
    let w =
      run
        (completes ∷ completes ∷ completes ∷ completes ∷ completes ∷ completes ∷ [])
        first_window in
    w.window_max - w.window_min ≡ 3
unfolding run step widen
grown = refl

-- A round at less than 250 bytes a second, twice, caps a window that is wider.
capped :
    let w =
      run
        (transfers 10 1000 ∷ completes ∷ completes ∷ completes ∷ transfers 10 1000 ∷ [])
        first_window in
    (w.window ≡ 7) × (w.window_max ≡ 4)
unfolding run step widen note_fast note_slow
capped = (refl, refl)

abbrev repeated : Bytes → Bytes
repeated b = replicate 32 (get_or b 0 0)

abbrev random : Bytes
random = 1 ∷ 1 ∷ 1 ∷ 1 ∷ []

-- Three parts of four bytes, of which the first and the last are missing.
abbrev partial : Incoming
partial = record {
  status = transferring;
  is_encrypted = true;
  is_compressed = false;
  hash = replicate 32 5;
  random_hash = random;
  content = [];
  parts = none ∷ some (5 ∷ 6 ∷ 7 ∷ 8 ∷ []) ∷ none ∷ [];
  hashmap = replicate 4 1 ++ replicate 4 5 ++ replicate 4 9;
  hashmap_height = 3;
  total_parts = 3;
  received_count = 1;
  outstanding_parts = 2;
  completed = 0;
  window = first_window;
  retries_left = 8;
  waiting_for_hmu = false;
  assembly_lock = false;
  is_last_segment = true;
  has_concluded = true;
  last_activity = 100;
  req_sent = 90;
  req_sent_bytes = 60;
  req_resp = 95;
  rtt_rxd_bytes = 4;
  rtt_rxd_bytes_at_part_req = 0;
}

partial-Counted : Counted partial
unfolding filled leading
partial-Counted = record { counts = refl; leads = refl; sizes = refl }

request_next-Asks_example :
    Asks partial
      (request_next 120 70 went partial).0
      (request_next 120 70 went partial).1
      (search partial.hashmap partial.parts 4 0).0
request_next-Asks_example =
    request_next-Asks 120 70 partial partial-Counted (omega arith) (omega arith) refl refl

receive_part-IsSound_example :
    IsSound repeated (receive_part repeated (λ b. b) 120 40 70 went (9 ∷ 10 ∷ []) partial).0
receive_part-IsSound_example =
    receive_part-IsSound repeated (λ b. b) 120 40 70 went (9 ∷ 10 ∷ []) partial partial-Counted

-- A part that was asked for, the last of a window of one behind a first part, is dropped when it
-- comes before the one that precedes it.
abbrev narrow_window : Window
narrow_window = record first_window { window = 2 }

abbrev behind_one : Incoming
behind_one = record partial {
  parts = some (1 ∷ 2 ∷ 3 ∷ 4 ∷ []) ∷ none ∷ none ∷ [];
  completed = 1;
  window = narrow_window;
}

asked_for : (search behind_one.hashmap behind_one.parts 2 1).0 ≡ replicate 4 5 ∷ replicate 4 9 ∷ []
unfolding search entry mid_len same
asked_for = refl

dropped : (file_part (replicate 4 9) (9 ∷ 10 ∷ []) behind_one).parts ≡ behind_one.parts
unfolding file_part file_from file_at entry mid_len same
dropped = refl

abbrev payload : Bytes
payload = 5 ∷ 6 ∷ 7 ∷ []

abbrev sender : Outgoing
sender = record {
  status = advertised;
  hash = replicate 32 5;
  random_hash = random;
  expected_proof = replicate 32 5;
  parts =
      record { bytes = random; is_sent = true } ∷ record { bytes = payload; is_sent = false } ∷ [];
  hashmap = replicate 4 1 ++ replicate 4 5;
  sent_parts = 1;
  receiver_min_consecutive_height = 0;
  retries_left = 2;
  has_concluded = true;
  rtt = 0;
  last_activity = 100;
  adv_sent = 100;
  last_part_sent = 0;
}

abbrev started : Outgoing
started = outgoing repeated 4 random (λ b. b) true payload

started_made : prepared repeated 4 random (λ b. b) true payload ≡ some started
unfolding prepared
started_made = refl

abbrev whole : Incoming
whole = record partial { parts = some random ∷ some payload ∷ []; total_parts = 2 }

whole_all : HasAll repeated started whole
unfolding outgoing slices mid_len left
whole_all = record {
  same_parts = refl;
  same_hash = refl;
  same_random = refl;
  encrypted = refl;
  uncompressed = refl;
  not_failed = refl;
}

same_proof : sender.expected_proof ≡ started.expected_proof
unfolding outgoing
same_proof = refl

assemble-prepared_example :
    Restored repeated payload started sender (assemble repeated (λ b. b) whole)
assemble-prepared_example =
    assemble-prepared repeated 4 random (λ b. b) (λ b. b) true payload whole started sender
      (omega arith) (omega arith) refl refl (λ b. length-replicate 32 (get_or b 0 0)) started_made
      whole_all same_proof refl

sender-IsTracked : IsTracked sender
unfolding count_sent
sender-IsTracked = record { tracked = refl; awaits = λ e. absurd (cc e) }

abbrev asking : Bytes
asking = 0 ∷ (replicate 32 5 ++ replicate 4 5)

abbrev all_went : ℕ → Sending
all_went j = went

-- A part that no interface takes, asked for again: the counter is that of all parts, but one of
-- them has not been sent.
none_took :
    let lost = (request_parts 150 true (λ j. refused) went asking sender).0 in
    (lost.status ≡ awaiting_proof) × (count_sent lost.parts ≡ 1)
unfolding request_parts send_parts send_slot split_hashes is_among count_sent entry mid mid_len same
none_took = (refl, refl)

request_parts-IsTracked_example : IsTracked (request_parts 150 true all_went went asking sender).0
request_parts-IsTracked_example =
    request_parts-IsTracked 150 true all_went went asking sender (λ j. refl) sender-IsTracked

ticks-failed_example :
    (ticks ((200, true, went) ∷ (300, true, refused) ∷ (400, false, thrown) ∷ []) sender).status
    ≡ failed
ticks-failed_example =
    ticks-failed ((200, true, went) ∷ (300, true, refused) ∷ (400, false, thrown) ∷ []) sender refl
      (omega arith)
