-- ===== src/Resource/Outgoing.antt =====
-- src/microReticulum/Resource.cpp, the sending end: from the payload to its parts, the requests for
-- them, and the proof.
pub mod Roundtrip
pub mod Sent
use micro_reticulum.Prelude.{
  ℕ, zero, suc, ◌+◌, ◌-◌, ◌*◌, ◌/◌, ◌%◌, min, List, [], ◌∷◌, ◌++◌, map, Option, none, some, Bool,
  true, false, ◌&&◌, ◌||◌, not, if◌then◌else◌, ltb, leb, ◌==◌, length, get_or, get_elem?, set,
}
use micro_reticulum.Bytes.{Bytes, left, mid, mid_len, same}
use micro_reticulum.Packet.Context.{resource, resource_icl}
use micro_reticulum.Packet.Types.{packet_mdu, data_packet}
use micro_reticulum.Resource.{
  Status, no_status, queued, advertised, transferring, awaiting_proof, complete, failed, is_failed,
  is_over, is_transferring, maphash_len, hash_bytes, max_retries, max_adv_retries, hashmap_max_len,
  hashmap_is_exhausted, Effect, Sending, is_went, is_thrown, if_went, sends, registers, erases,
  advertises, updates_hashmap, tells_link, calls_concluded, entry, get_map_hash,
}
use micro_reticulum.Resource.Incoming.{joined}

pub record Part : Type 0 where
  pub bytes : Bytes
  pub is_sent : Bool

-- A resource of one segment without metadata, as the constructor makes it. A round trip time of 0
-- is not known yet.
pub record Outgoing : Type 0 where
  pub status : Status
  pub hash : Bytes
  pub random_hash : Bytes
  pub expected_proof : Bytes
  pub parts : List Part
  pub hashmap : Bytes
  pub sent_parts : ℕ
  pub receiver_min_consecutive_height : ℕ
  pub retries_left : ℕ
  pub has_concluded : Bool
  pub rtt : ℕ
  pub last_activity : ℕ
  pub adv_sent : ℕ
  pub last_part_sent : ℕ

-- `COLLISION_GUARD_SIZE` and `WINDOW_MAX`
abbrev pub collision_guard_size : ℕ
collision_guard_size = 2 * 75 + 74

abbrev pub window_max : ℕ
window_max = 75

-- So many chunks of this size from an index on; the last one is what remains.
unfoldable pub slices : (sdu : ℕ) (b : Bytes) (n i : ℕ) → List Bytes
slices sdu b zero i = []
slices sdu b (suc n) i =
    let offset = i * sdu in
    let chunk_size = if ltb (length b) (offset + sdu) then length b - offset else sdu in
    mid_len b offset chunk_size ∷ slices sdu b n (suc i)

abbrev pub cut : Bytes → Bytes
cut b = left b packet_mdu

abbrev pub unsent : Bytes → Part
unsent b = record { bytes = b; is_sent = false }

module _ (full_hash : Bytes → Bytes) where
  -- What `start` makes, with the random bytes and the encryption of the link. The constructor of a
  -- packet cuts a chunk.
  unfoldable pub outgoing :
      (sdu : ℕ) (random_hash : Bytes) (encrypt : Bytes → Bytes) (has_concluded : Bool)
      (content : Bytes)
      → Outgoing
  outgoing sdu random_hash encrypt has_concluded content =
      let hash = full_hash (content ++ random_hash) in
      let encrypted = encrypt (random_hash ++ content) in
      let chunks = slices sdu encrypted ((length encrypted + sdu - 1) / sdu) 0 in
      record {
        status = no_status;
        hash = hash;
        random_hash = random_hash;
        expected_proof = full_hash (content ++ hash);
        parts = map unsent (map cut chunks);
        hashmap = joined (map (get_map_hash full_hash random_hash) chunks);
        sent_parts = 0;
        receiver_min_consecutive_height = 0;
        retries_left = max_retries;
        has_concluded = has_concluded;
        rtt = 0;
        last_activity = 0;
        adv_sent = 0;
        last_part_sent = 0;
      }

  -- `start` up to the advertisement. It does nothing for an empty payload.
  unfoldable pub prepared :
      (sdu : ℕ) (random_hash : Bytes) (encrypt : Bytes → Bytes) (has_concluded : Bool)
      (content : Bytes)
      → Option Outgoing
  prepared sdu random_hash encrypt has_concluded [] = none
  prepared sdu random_hash encrypt has_concluded (x ∷ xs) =
      some (outgoing sdu random_hash encrypt has_concluded (x ∷ xs))

-- `cancel`, on a link that is active or not.
unfoldable pub cancel_outgoing : (link_active : Bool) → Outgoing → Outgoing × List Effect
cancel_outgoing link_active o = if is_over o.status then (o, []) else (
  record o { status = failed },
  (if link_active then sends data_packet resource_icl o.hash ∷ [] else [])
      ++ erases ∷ (if o.has_concluded then tells_link ∷ calls_concluded ∷ [] else []),
)

-- `advertise_job`, on a link that has no other outgoing resource or has one, with what becomes of
-- the packet.
unfoldable pub advertise :
    (now : ℕ) (link_ready link_active : Bool) (outcome : Sending)
    → Outgoing
    → Outgoing × List Effect
advertise now link_ready link_active outcome o =
    if not link_ready
    then (record o { status = queued }, [])
    else if is_thrown outcome
    then cancel_outgoing link_active o
    else (
      record o {
        last_activity = now;
        adv_sent = now;
        rtt = 0;
        status = advertised;
        retries_left = max_adv_retries;
      },
      if_went outcome (advertises ∷ []) ++ registers ∷ [],
    )

-- `rejected`
unfoldable pub rejected : Outgoing → Outgoing × List Effect
rejected o = if is_over o.status then (o, []) else (
  record o { status = no_status },
  erases ∷ (if o.has_concluded then tells_link ∷ calls_concluded ∷ [] else []),
)

-- The requested hashes, so many from an index on.
unfoldable pub split_hashes : Bytes → (n i : ℕ) → List Bytes
split_hashes b zero i = []
split_hashes b (suc n) i = entry b i ∷ split_hashes b n (suc i)

unfoldable pub is_among : Bytes → List Bytes → Bool
is_among b [] = false
is_among b (c ∷ cs) = same c b || is_among b cs

-- One part that is sent for the first time or again, if it is there, and whether that goes on: an
-- exception cancels the transfer. A part that no interface took is not sent, but it is counted.
unfoldable pub send_slot :
    (now i : ℕ) (link_active : Bool) (outcome : Sending)
    → Outgoing
    → Option Part
    → Outgoing × List Effect × Bool
send_slot now i link_active outcome o none = (o, [], true)
send_slot now i link_active outcome o (some p) =
    let (gone, es) = cancel_outgoing link_active o in
    if is_thrown outcome then (gone, es, false) else (
      record o {
        parts = set o.parts i (record p { is_sent = is_went outcome });
        sent_parts = if p.is_sent then o.sent_parts else suc o.sent_parts;
        last_activity = now;
        last_part_sent = now;
      },
      if_went outcome (sends data_packet resource p.bytes ∷ []),
      true,
    )

abbrev pub send_part :
    (now i : ℕ) (link_active : Bool) (outcome : Sending) → Outgoing → Outgoing × List Effect × Bool
send_part now i link_active outcome o = send_slot now i link_active outcome o (get_elem? o.parts i)

-- So many positions from this one on, of which those are sent whose hash is requested, up to an
-- exception; `outcomes` says what becomes of the part at a position.
unfoldable pub send_parts :
    (now : ℕ) (link_active : Bool) (outcomes : ℕ → Sending) (requested : List Bytes) (n i : ℕ)
    → Outgoing
    → Outgoing × List Effect × Bool
send_parts now link_active outcomes requested zero i o = (o, [], true)
send_parts now link_active outcomes requested (suc n) i o =
    let (sent, es, goes_on) =
      if is_among (entry o.hashmap i) requested
      then send_part now i link_active (outcomes i) o
      else (o, [], true) in
    let (rest, fs, all) = send_parts now link_active outcomes requested n (suc i) sent in
    if goes_on then (rest, es ++ fs, all) else (sent, es, false)

-- The position behind that of a hash, or behind so many positions.
unfoldable pub behind : (hashmap last_map_hash : Bytes) (n i : ℕ) → ℕ
behind hashmap last_map_hash zero i = i
behind hashmap last_map_hash (suc n) i =
    let rest = behind hashmap last_map_hash n (suc i) in
    if same (entry hashmap i) last_map_hash then suc i else rest

-- The next slice of the hashmap, for a receiver whose last known hash is this one. One that does
-- not end a slice cancels the transfer, and so does an exception of the packet.
unfoldable pub send_hashmap :
    (now : ℕ) (link_active : Bool) (outcome : Sending) (last_map_hash : Bytes) (n : ℕ)
    → Outgoing
    → Outgoing × List Effect × Bool
send_hashmap now link_active outcome last_map_hash n o =
    let part_index = behind o.hashmap last_map_hash n o.receiver_min_consecutive_height in
    let seen = record o { receiver_min_consecutive_height = part_index - 1 - window_max } in
    let segment = part_index / hashmap_max_len in
    let start = segment * hashmap_max_len in
    let end = min (suc segment * hashmap_max_len) (length o.parts) in
    let (gone, es) = cancel_outgoing link_active seen in
    if part_index % hashmap_max_len == 0 && not (is_thrown outcome)
    then (
      record seen { last_activity = now },
      if_went outcome (
          updates_hashmap segment
            (mid_len o.hashmap (start * maphash_len) ((end - start) * maphash_len))
          ∷ []),
      true,
    )
    else (gone, es, false)

-- All parts have been sent: only their proof is missing.
abbrev pub then_await : Outgoing → Outgoing
then_await o =
    if o.sent_parts == length o.parts
    then record o { status = awaiting_proof; retries_left = 3 }
    else o

-- `request`, with what becomes of the parts and of the slice of the hashmap.
unfoldable pub request_parts :
    (now : ℕ) (link_active : Bool) (outcomes : ℕ → Sending) (outcome : Sending)
    (request_data : Bytes)
    → Outgoing
    → Outgoing × List Effect
request_parts now link_active outcomes outcome request_data o =
    let begun = record o {
      rtt = if o.rtt == 0 then now - o.adv_sent else o.rtt;
      status = transferring;
      retries_left = max_retries;
    } in
    let wants_more = get_or request_data 0 0 == hashmap_is_exhausted in
    let pad = if wants_more then 1 + maphash_len else 1 in
    let hashes = mid request_data (pad + hash_bytes) in
    let requested = split_hashes hashes (length hashes / maphash_len) 0 in
    let start = o.receiver_min_consecutive_height in
    let n = min (start + collision_guard_size) (length o.parts) - start in
    let (sent, es, all) = send_parts now link_active outcomes requested n start begun in
    let (told, fs, goes_on) =
      send_hashmap now link_active outcome (mid_len request_data 1 maphash_len) n sent in
    if is_failed o.status || length request_data == 0
    then (o, [])
    else if ltb (length request_data) (pad + hash_bytes)
    then (begun, [])
    else if not all
    then (sent, es)
    else if wants_more
    then ((if goes_on then then_await told else told), es ++ fs)
    else (then_await sent, es)

unfoldable pub validate_proof : (proof_data : Bytes) → Outgoing → Outgoing × List Effect
validate_proof proof_data o =
    if is_failed o.status
    then (o, [])
    else if length proof_data == hash_bytes * 2 && same (mid proof_data hash_bytes) o.expected_proof
    then (
      record o { status = complete },
      tells_link ∷ (if o.has_concluded then calls_concluded ∷ [] else []),
    )
    else (o, [])

-- A tick of the watchdog that finds the time of its state over, with what becomes of an
-- advertisement that is sent again.
unfoldable pub tick_in :
    (now : ℕ) (link_active : Bool) (outcome : Sending) → Outgoing → Status → Outgoing × List Effect
tick_in now link_active outcome o advertised =
    if o.retries_left == 0
    then cancel_outgoing link_active o
    else if is_thrown outcome
    then cancel_outgoing link_active (record o { retries_left = o.retries_left - 1 })
    else (
      record o { retries_left = o.retries_left - 1; last_activity = now; adv_sent = now },
      if_went outcome (advertises ∷ []),
    )
tick_in now link_active outcome o transferring = cancel_outgoing link_active o
tick_in now link_active outcome o awaiting_proof =
    if o.retries_left == 0
    then cancel_outgoing link_active o
    else (record o { retries_left = o.retries_left - 1; last_part_sent = now }, [])
tick_in now link_active outcome o _ = (o, [])

abbrev pub tick :
    (now : ℕ) (link_active : Bool) (outcome : Sending) → Outgoing → Outgoing × List Effect
tick now link_active outcome o = tick_in now link_active outcome o o.status
