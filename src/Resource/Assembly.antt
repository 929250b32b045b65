-- ===== src/Resource/Assembly.antt =====
-- src/microReticulum/Resource.cpp, the receiving end: from an advertisement to the assembled bytes,
-- and what ends the transfer.
pub mod Completion
use micro_reticulum.Prelude.{
  ℕ, suc, ◌+◌, ◌-◌, ◌*◌, ◌/◌, List, [], ◌∷◌, ◌++◌, Option, none, some, Bool, true, false, ◌&&◌,
  ◌||◌, not, if◌then◌else◌, ltb, ◌==◌, length, replicate,
}
use micro_reticulum.Bytes.{Bytes, mid, same}
use micro_reticulum.Packet.Context.{resource_prf, resource_rcl}
use micro_reticulum.Packet.Types.{data_packet, proof}
use micro_reticulum.Resource.{
  Status, transferring, assembling, complete, failed, corrupt, is_failed, is_corrupt, is_over,
  is_settled, is_transferring, maphash_len, random_hash_size, max_retries, Effect, Sending, sends,
  registers, erases, tears_down, tells_link, calls_concluded, calls_started, get_map_hash,
}
use micro_reticulum.Resource.Windows.{first_window, narrow}
use micro_reticulum.Resource.Incoming.{
  Incoming, cancel, request_next, hashmap_update, file_part, note_part, next_round,
}

-- What `accept` reads of an advertisement.
pub record Advertisement : Type 0 where
  pub adv_size : ℕ
  pub adv_hash : Bytes
  pub adv_random_hash : Bytes
  pub adv_hashmap : Bytes
  pub adv_segment : ℕ
  pub adv_segments : ℕ
  pub adv_encrypted : Bool
  pub adv_compressed : Bool

-- The resource that an advertisement makes, over a link with this size for parts.
unfoldable pub incoming : (now sdu : ℕ) (has_concluded : Bool) → Advertisement → Incoming
incoming now sdu has_concluded a =
    let total_parts = (a.adv_size + sdu - 1) / sdu in
    record {
      status = transferring;
      is_encrypted = a.adv_encrypted;
      is_compressed = a.adv_compressed;
      hash = a.adv_hash;
      random_hash = a.adv_random_hash;
      content = [];
      parts = replicate total_parts none;
      hashmap = replicate (total_parts * maphash_len) 0;
      hashmap_height = 0;
      total_parts = total_parts;
      received_count = 0;
      outstanding_parts = 0;
      completed = 0;
      window = first_window;
      retries_left = max_retries;
      waiting_for_hmu = false;
      assembly_lock = false;
      is_last_segment = a.adv_segment == a.adv_segments;
      has_concluded = has_concluded;
      last_activity = now;
      req_sent = 0;
      req_sent_bytes = 0;
      req_resp = 0;
      rtt_rxd_bytes = 0;
      rtt_rxd_bytes_at_part_req = 0;
    }

-- `accept`; `known` says that the link already receives a resource with this hash. An advertisement
-- without a hash could not be decoded.
unfoldable pub accept :
    (now sdu raw_size : ℕ) (outcome : Sending) (has_concluded known : Bool)
    → Advertisement
    → Option (Incoming × List Effect)
accept now sdu raw_size outcome has_concluded known a =
    let (r, es) =
      hashmap_update now raw_size outcome 0 a.adv_hashmap (incoming now sdu has_concluded a) in
    if length a.adv_hash == 0 || known then none else some (r, registers ∷ calls_started ∷ es)

-- A tick that finds the time for an answer over, in a transfer that is on.
unfoldable pub retry : (now raw_size : ℕ) (outcome : Sending) → Incoming → Incoming × List Effect
retry now raw_size outcome r =
    let again = record r {
      window = narrow r.window;
      retries_left = r.retries_left - 1;
      waiting_for_hmu = false;
    } in
    if is_settled r.status || not (is_transferring r.status)
    then (r, [])
    else if ltb 0 r.retries_left
    then request_next now raw_size outcome again
    else cancel r

-- The filled slots, one after the other.
unfoldable pub stream : List (Option Bytes) → Bytes
stream [] = []
stream (none ∷ ss) = stream ss
stream (some b ∷ ss) = b ++ stream ss

-- Behind the assembly the link hears of it, and with the last segment the application.
abbrev pub concluded : Incoming → List Effect
concluded r =
    tells_link ∷ (if r.is_last_segment && r.has_concluded then calls_concluded ∷ [] else [])

module _ (full_hash : Bytes → Bytes) where
  -- The payload of the proof.
  abbrev pub proof_data : (hash content : Bytes) → Bytes
  proof_data hash content = hash ++ full_hash (content ++ hash)

  -- The bytes are there and decrypted: they are checked and proved.
  unfoldable pub check : (plaintext : Bytes) → Incoming → Incoming × List Effect
  check plaintext r =
      let content = mid plaintext random_hash_size in
      if same (full_hash (content ++ r.random_hash)) r.hash
      then (
        record r { status = complete; content = content },
        sends proof resource_prf (proof_data r.hash content) ∷ concluded r,
      )
      else (record r { status = corrupt }, concluded r)

  -- `assemble`, with the decryption of the link.
  unfoldable pub assemble : (decrypt : Bytes → Bytes) → Incoming → Incoming × List Effect
  assemble decrypt r =
      let all = stream r.parts in
      if is_failed r.status
      then (r, [])
      else if r.is_compressed
      then cancel (record r { status = corrupt })
      else check (if r.is_encrypted then decrypt all else all) r

  -- `receive_part`. The last part is assembled, and where all that was requested has come the next
  -- round begins; `raw_size` is the size of the packet that has come, `next_size` that of the
  -- request, and `outcome` what becomes of that.
  unfoldable pub receive_part :
      (decrypt : Bytes → Bytes) (now raw_size next_size : ℕ) (outcome : Sending) (part : Bytes)
      → Incoming
      → Incoming × List Effect
  receive_part decrypt now raw_size next_size outcome part r =
      let noted = note_part now raw_size r in
      let filed =
        file_part (get_map_hash full_hash r.random_hash part) part
          (record noted { status = transferring }) in
      if is_failed r.status
      then (noted, [])
      else if filed.received_count == filed.total_parts && not filed.assembly_lock
      then assemble decrypt (record filed { assembly_lock = true })
      else if filed.outstanding_parts == 0
      then next_round now next_size outcome filed
      else (filed, [])
