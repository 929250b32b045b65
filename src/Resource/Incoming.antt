-- ===== src/Resource/Incoming.antt =====
-- src/microReticulum/Resource.cpp, the receiving end: the hashmap, the parts that are filed, and
-- the requests for more.
pub mod Parts
pub mod Requests
use micro_reticulum.Prelude.{
  ℕ, zero, suc, ◌+◌, ◌-◌, ◌*◌, ◌/◌, min, List, [], ◌∷◌, ◌++◌, Option, none, some, Bool, true, false,
  ◌&&◌, ◌||◌, not, if◌then◌else◌, ltb, leb, ◌==◌, length, get_elem?, set, take, drop, replicate,
}
use micro_reticulum.Bytes.{Bytes, left, mid, mid_len, same}
use micro_reticulum.Packet.Context.{resource_req, resource_rcl}
use micro_reticulum.Packet.Types.{data_packet}
use micro_reticulum.Resource.{
  Status, transferring, failed, is_failed, maphash_len, max_retries, hashmap_max_len,
  hashmap_is_exhausted, hashmap_is_not_exhausted, zero_hash, Effect, Sending, is_thrown, if_went,
  sends, erases, tears_down, tells_link, calls_concluded, is_corrupt, is_over, entry, get_map_hash,
}
use micro_reticulum.Resource.Windows.{Window, widen, note_fast, note_slow}

-- A slot is empty or has the bytes of a part. `completed` is `_consecutive_completed_height + 1`,
-- the number of parts up to the first that is missing. Times are in milliseconds; the smoothed
-- round trip time, from which only timeouts are computed, is left out.
pub record Incoming : Type 0 where
  pub status : Status
  pub is_encrypted : Bool
  pub is_compressed : Bool
  pub hash : Bytes
  pub random_hash : Bytes
  pub content : Bytes
  pub parts : List (Option Bytes)
  pub hashmap : Bytes
  pub hashmap_height : ℕ
  pub total_parts : ℕ
  pub received_count : ℕ
  pub outstanding_parts : ℕ
  pub completed : ℕ
  pub window : Window
  pub retries_left : ℕ
  pub waiting_for_hmu : Bool
  pub assembly_lock : Bool
  pub is_last_segment : Bool
  pub has_concluded : Bool
  pub last_activity : ℕ
  pub req_sent : ℕ
  pub req_sent_bytes : ℕ
  pub req_resp : ℕ
  pub rtt_rxd_bytes : ℕ
  pub rtt_rxd_bytes_at_part_req : ℕ

abbrev pub is_filled : Option Bytes → Bool
is_filled none = false
is_filled (some b) = true

abbrev pub slot_filled : List (Option Bytes) → ℕ → Bool
slot_filled parts j = elim (get_elem? parts j) [ none ↦ false | some s ↦ is_filled s ]

-- The `while` loop over filled slots.
unfoldable pub leading : List (Option Bytes) → ℕ
leading [] = 0
leading (s ∷ ss) = if is_filled s then suc (leading ss) else 0

-- The highest consecutive part, once one has been filed at a position.
unfoldable pub advance : List (Option Bytes) → (j completed : ℕ) → ℕ
advance parts j completed =
    let next = if j == completed then suc j else completed in next + leading (drop next parts)

-- One position of the search for the slot of a part.
unfoldable pub file_at : (part_hash part : Bytes) (j : ℕ) → Incoming → Incoming
file_at part_hash part j r =
    let parts = set r.parts j (some part) in
    if same (entry r.hashmap j) part_hash && not (slot_filled r.parts j)
    then record r {
      parts = parts;
      rtt_rxd_bytes = r.rtt_rxd_bytes + length part;
      received_count = suc r.received_count;
      outstanding_parts = r.outstanding_parts - 1;
      completed = advance parts j r.completed;
    }
    else r

-- So many positions from this one on.
unfoldable pub file_from : (part_hash part : Bytes) (n j : ℕ) → Incoming → Incoming
file_from part_hash part zero j r = r
file_from part_hash part (suc n) j r =
    file_from part_hash part n (suc j) (file_at part_hash part j r)

-- The positions are those of the window behind the last consecutive part, that part included.
unfoldable pub file_part : (part_hash part : Bytes) → Incoming → Incoming
file_part part_hash part r =
    let first = r.completed - 1 in
    file_from part_hash part (min (first + r.window.window) r.total_parts - first) first r

-- The hashes that are requested, from a position on, and whether the hashmap ends before that many
-- positions are seen.
unfoldable pub search :
    (hashmap : Bytes) (parts : List (Option Bytes)) (n j : ℕ) → List Bytes × Bool
search hashmap parts zero j = ([], false)
search hashmap parts (suc n) j =
    let (hs, exhausted) = search hashmap parts n (suc j) in
    if leb (length parts) j
    then ([], false)
    else if slot_filled parts j
    then (hs, exhausted)
    else if same (entry hashmap j) zero_hash
    then ([], true)
    else (entry hashmap j ∷ hs, exhausted)

abbrev pub joined : List Bytes → Bytes
joined [] = []
joined (b ∷ bs) = b ++ joined bs

-- `cancel`. One that is corrupt is rejected and takes its link with it.
unfoldable pub cancel : Incoming → Incoming × List Effect
cancel r =
    if is_corrupt r.status
    then (r, erases ∷ sends data_packet resource_rcl r.hash ∷ tears_down ∷ [])
    else if is_over r.status
    then (r, [])
    else (
      record r { status = failed },
      erases ∷ (if r.has_concluded then tells_link ∷ calls_concluded ∷ [] else []),
    )

-- `raw_size` is the size of the packet that is sent, and `outcome` what becomes of it: an exception
-- cancels the transfer.
unfoldable pub request_next :
    (now raw_size : ℕ) (outcome : Sending) → Incoming → Incoming × List Effect
request_next now raw_size outcome r =
    let (hashes, exhausted) = search r.hashmap r.parts r.window.window r.completed in
    let last_map_hash =
      if ltb 0 r.hashmap_height then entry r.hashmap (r.hashmap_height - 1) else zero_hash in
    let hmu_part =
      if exhausted then hashmap_is_exhausted ∷ last_map_hash else hashmap_is_not_exhausted ∷ [] in
    let asking = record r { outstanding_parts = length hashes; waiting_for_hmu = exhausted } in
    if is_failed r.status || r.waiting_for_hmu
    then (r, [])
    else if is_thrown outcome
    then cancel asking
    else (
      record asking {
        last_activity = now;
        req_sent = now;
        req_sent_bytes = raw_size;
        rtt_rxd_bytes_at_part_req = r.rtt_rxd_bytes;
        req_resp = 0;
      },
      if_went outcome (sends data_packet resource_req (hmu_part ++ (r.hash ++ joined hashes)) ∷ []),
    )

-- The entries of a slice of the hashmap, written from a slot on.
unfoldable pub write_entries : (n i slot : ℕ) (slice : Bytes) → Incoming → Incoming
write_entries zero i slot slice r = r
write_entries (suc n) i slot slice r =
    let written = record r {
      hashmap_height =
          if same (entry r.hashmap slot) zero_hash then suc r.hashmap_height else r.hashmap_height;
      hashmap =
          left r.hashmap (slot * maphash_len)
          ++ entry slice i
          ++ mid r.hashmap (suc slot * maphash_len);
    } in
    let rest = write_entries n (suc i) (suc slot) slice written in
    if leb r.total_parts slot then r else rest

unfoldable pub hashmap_update :
    (now raw_size : ℕ) (outcome : Sending) (segment : ℕ) (slice : Bytes)
    → Incoming
    → Incoming × List Effect
hashmap_update now raw_size outcome segment slice r =
    let begun = record r { status = transferring } in
    let hashes = length slice / maphash_len in
    let written = write_entries hashes 0 (segment * hashmap_max_len) slice begun in
    if is_failed r.status
    then (r, [])
    else request_next now raw_size outcome (record written { waiting_for_hmu = false })

-- A packet has come: the activity, and the rate of the first answer to a request.
unfoldable pub note_part : (now raw_size : ℕ) → Incoming → Incoming
note_part now raw_size r =
    let seen = record r { last_activity = now; retries_left = max_retries } in
    let rated = record seen {
      req_resp = now;
      window =
          if ltb r.req_sent now
          then note_fast (raw_size + r.req_sent_bytes) (now - r.req_sent) r.window
          else r.window;
    } in
    if r.req_resp == 0 then rated else seen

-- All that was requested has come: a wider window, the rate of the round, and the next request.
unfoldable pub next_round :
    (now raw_size : ℕ) (outcome : Sending) → Incoming → Incoming × List Effect
next_round now raw_size outcome r =
    let wide = widen r.window in
    let size = r.rtt_rxd_bytes - r.rtt_rxd_bytes_at_part_req in
    let elapsed = now - r.req_sent in
    let rated = record r {
      window = note_slow size elapsed (note_fast size elapsed wide);
      rtt_rxd_bytes_at_part_req = r.rtt_rxd_bytes;
    } in
    request_next now raw_size outcome
      (if ltb 0 r.req_sent && ltb r.req_sent now then rated else record r { window = wide })
