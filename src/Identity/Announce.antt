-- ===== src/Identity/Announce.antt =====
-- src/microReticulum/Identity.cpp, `remember`, `recall` and `validate_announce`, over the store of
-- src/microReticulum/Persistence/IdentityEntry.h.
pub mod Accepted
use micro_reticulum.Prelude.{
  ℕ, ◌+◌, ◌/◌, [], ◌∷◌, ◌++◌, Option, none, some, Bool, true, false, not, if◌then◌else◌, ltb, leb,
  ◌==◌, length,
}
use micro_reticulum.Bytes.{Bytes, left, mid, mid_len, same}
use micro_reticulum.Packet.Types.{PacketType, ContextFlag, flag_set, flag_unset, Packet, announce}
use micro_reticulum.Packet.Wire.{get_hashable_part}
use micro_reticulum.Identity.{
  key_bytes, signature_bytes, Keys, Identity, no_keys, truncated_hash, load_public_key, validate,
}

-- In bytes: a name hash, a random hash, a ratchet.
abbrev pub name_hash_bytes : ℕ
name_hash_bytes = 80 / 8

abbrev pub random_hash_bytes : ℕ
random_hash_bytes = 80 / 8

abbrev pub ratchet_bytes : ℕ
ratchet_bytes = 256 / 8

pub record IdentityEntry : Type 0 where
  pub timestamp : ℕ
  pub packet_hash : Bytes
  pub public_key : Bytes
  pub app_data : Bytes

-- The store of another library: `get`, and `put`, which may fail and leave the store as it is.
pub record KnownStore : Type 1 where
  pub State : Type 0
  pub get : State → Bytes → Option IdentityEntry
  pub put : State → Bytes → IdentityEntry → State

-- The parts of an announce.
pub record Announced : Type 0 where
  pub public_key : Bytes
  pub name_hash : Bytes
  pub random_hash : Bytes
  pub ratchet : Bytes
  pub signature : Bytes
  pub app_data : Bytes

abbrev pub is_announce : PacketType → Bool
is_announce announce = true
is_announce _ = false

abbrev pub before_signature : ℕ
before_signature = key_bytes + name_hash_bytes + random_hash_bytes

unfoldable pub read_announce : ContextFlag → Bytes → Announced
read_announce flag_set b = record {
  public_key = left b key_bytes;
  name_hash = mid_len b key_bytes name_hash_bytes;
  random_hash = mid_len b (key_bytes + name_hash_bytes) random_hash_bytes;
  ratchet = mid_len b before_signature ratchet_bytes;
  signature = mid_len b (before_signature + ratchet_bytes) signature_bytes;
  app_data =
      if ltb (before_signature + ratchet_bytes + signature_bytes) (length b)
      then mid b (before_signature + ratchet_bytes + signature_bytes)
      else [];
}
read_announce flag_unset b = record {
  public_key = left b key_bytes;
  name_hash = mid_len b key_bytes name_hash_bytes;
  random_hash = mid_len b (key_bytes + name_hash_bytes) random_hash_bytes;
  ratchet = [];
  signature = mid_len b before_signature signature_bytes;
  app_data =
      if ltb (before_signature + signature_bytes) (length b)
      then mid b (before_signature + signature_bytes)
      else [];
}

abbrev pub signed_data : (destination_hash : Bytes) → Announced → Bytes
signed_data destination_hash a =
    destination_hash
    ++ (a.public_key ++ (a.name_hash ++ (a.random_hash ++ (a.ratchet ++ a.app_data))))

-- Whether an entry was found that has a key.
abbrev pub known_key : Option IdentityEntry → Bytes
known_key none = []
known_key (some e) = e.public_key

module _ (k : Keys) (s : KnownStore) where
  -- `none` is the exception.
  unfoldable pub remember :
      (now : ℕ) (packet_hash destination_hash public_key app_data : Bytes)
      → s.State
      → Option s.State
  remember now packet_hash destination_hash public_key app_data st =
      if length public_key == key_bytes
      then some (
          s.put st destination_hash (record {
            timestamp = now;
            packet_hash = packet_hash;
            public_key = public_key;
            app_data = app_data;
          }))
      else none

  -- `recall` of an entry that is in the store.
  unfoldable pub recall : (destination_hash : Bytes) → s.State → Option Identity
  recall destination_hash st = elim (s.get st destination_hash) [
    | none ↦ none
    | some e ↦
        if not (length e.public_key == 0)
        then some (record (load_public_key k e.public_key no_keys) { app_data = e.app_data })
        else none
  ]

  -- The announce has a valid signature and the hash of its destination.
  abbrev pub note_known :
      (now : ℕ) (q : Packet) (a : Announced) (known app_data : Bytes) → s.State → s.State × Bool
  note_known now q a [] app_data st =
      elim (remember now (k.full_hash (get_hashable_part q.header_type q.raw)) q.destination_hash
        a.public_key app_data st) [ none ↦ (st, false) | some next ↦ (next, true) ]
  note_known now q a (x ∷ xs) app_data st = (st, same a.public_key (x ∷ xs))

  unfoldable pub validate_parts :
      (now : ℕ) (only_signature : Bool) (q : Packet) (a : Announced) → s.State → s.State × Bool
  validate_parts now only_signature q a st =
      let size = length q.payload in
      let app_data = if leb size (before_signature + signature_bytes) then [] else a.app_data in
      let i = load_public_key k a.public_key no_keys in
      elim (validate k a.signature (signed_data q.destination_hash a) i) [
        | none ↦ (st, false)
        | some valid ↦
            if not valid
            then (st, false)
            else if only_signature
            then (st, true)
            else if same q.destination_hash (truncated_hash k (a.name_hash ++ i.hash))
            then note_known now q a (known_key (s.get st q.destination_hash)) app_data st
            else (st, false)
      ]

  unfoldable pub validate_announce :
      (now : ℕ) (only_signature : Bool) → Packet → s.State → s.State × Bool
  validate_announce now only_signature q st =
      if is_announce q.packet_type
      then validate_parts now only_signature q (read_announce q.context_flag q.payload) st
      else (st, false)
