-- ===== src/Resource.antt =====
-- src/microReticulum/ResourceData.h and the constants of `Type::Resource` in
-- src/microReticulum/Type.h: the state of a transfer, once for each end, since a resource uses the
-- fields of its own end only.
pub mod Windows
pub mod Incoming
pub mod Assembly
pub mod Outgoing
use micro_reticulum.Prelude.{
  ℕ, ◌+◌, ◌-◌, ◌*◌, ◌≡◌, List, [], ◌∷◌, ◌++◌, Option, none, some, Bool, true, false, if◌then◌else◌,
  length,
}
use micro_reticulum.Bytes.{Bytes, mid_len, left}
use micro_reticulum.Packet.Types.{PacketType}

-- `REJECTED` has the code of the first.
pub data Status : Type 0 where
  no_status queued advertised transferring awaiting_proof assembling complete failed corrupt :
      Status

-- `_status >= COMPLETE`
abbrev pub is_over : Status → Bool
is_over complete = true
is_over failed = true
is_over corrupt = true
is_over _ = false

-- `_status >= ASSEMBLING`
abbrev pub is_settled : Status → Bool
is_settled assembling = true
is_settled s = is_over s

abbrev pub is_failed : Status → Bool
is_failed failed = true
is_failed _ = false

abbrev pub is_corrupt : Status → Bool
is_corrupt corrupt = true
is_corrupt _ = false

abbrev pub is_transferring : Status → Bool
is_transferring transferring = true
is_transferring _ = false

abbrev pub maphash_len : ℕ
maphash_len = 4

abbrev pub random_hash_size : ℕ
random_hash_size = 4

abbrev pub hash_bytes : ℕ
hash_bytes = 32

abbrev pub max_retries : ℕ
max_retries = 8

abbrev pub max_adv_retries : ℕ
max_adv_retries = 4

-- `floor((Link::MDU - OVERHEAD) / MAPHASH_LEN)`
abbrev pub hashmap_max_len : ℕ
hashmap_max_len = 74

abbrev pub hashmap_is_exhausted : ℕ
hashmap_is_exhausted = 0xff

abbrev pub hashmap_is_not_exhausted : ℕ
hashmap_is_not_exhausted = 0x00

abbrev pub zero_hash : Bytes
zero_hash = 0 ∷ 0 ∷ 0 ∷ 0 ∷ []

-- What a resource does to its link and to the application. An advertisement, and a slice of the
-- hashmap behind its segment and the resource's hash, are packed by another library.
pub data Effect : Type 0 where
  sends : PacketType → ℕ → Bytes → Effect
  registers erases tears_down advertises : Effect
  updates_hashmap : ℕ → Bytes → Effect
  tells_link calls_concluded calls_started calls_progress : Effect

-- What becomes of `send`: the packet went out, no interface took it, or there was an exception.
pub data Sending : Type 0 where
  went refused thrown : Sending

abbrev pub is_went : Sending → Bool
is_went went = true
is_went _ = false

abbrev pub is_thrown : Sending → Bool
is_thrown thrown = true
is_thrown _ = false

-- The effects of a packet that is transmitted only where it went out.
abbrev pub if_went : Sending → List Effect → List Effect
if_went went es = es
if_went _ es = []

-- The entry of a hashmap at a position.
unfoldable pub entry : Bytes → ℕ → Bytes
entry hashmap j = mid_len hashmap (j * maphash_len) maphash_len

-- `get_map_hash`, over `Identity::full_hash`, which is SHA-256.
unfoldable pub get_map_hash : (full_hash : Bytes → Bytes) (random_hash content : Bytes) → Bytes
get_map_hash full_hash random_hash content = left (full_hash (content ++ random_hash)) maphash_len
