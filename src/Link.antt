-- ===== src/Link.antt =====
-- src/microReticulum/LinkData.h and the constants of `Type::Link` in src/microReticulum/Type.h: the
-- state of a link, which the children's functions take and return.
pub mod Agreement
pub mod Receive
pub mod Requests
pub mod History
pub mod Session
pub mod Signalling
pub mod Handshake
pub mod Establishment
use micro_reticulum.Prelude.{
  ℕ, ◌+◌, ◌*◌, ◌/◌, ◌≡◌, List, [], ◌∷◌, Option, none, some, Bool, true, false, if◌then◌else◌, ◌==◌,
  length, ℤ,
}
use micro_reticulum.Bytes.{Bytes}
use micro_reticulum.Packet.Types.{PacketType}
use micro_reticulum.Cryptography.Token.{Token}

pub data Status : Type 0 where
  pending handshaking active stale closed : Status

pub data TeardownReason : Type 0 where
  teardown_none timeout initiator_closed destination_closed : TeardownReason

pub data ResourceStrategy : Type 0 where
  accept_none accept_app accept_all : ResourceStrategy

abbrev pub is_pending : Status → Bool
is_pending pending = true
is_pending _ = false

abbrev pub is_handshaking : Status → Bool
is_handshaking handshaking = true
is_handshaking _ = false

abbrev pub is_active : Status → Bool
is_active active = true
is_active _ = false

abbrev pub is_closed : Status → Bool
is_closed closed = true
is_closed _ = false

-- In bytes: the two public keys of a side, one of them, a signature, and the signalled MTU.
abbrev pub ecpubsize : ℕ
ecpubsize = 32 + 32

abbrev pub half_ecpubsize : ℕ
half_ecpubsize = 32

abbrev pub sig_bytes : ℕ
sig_bytes = 512 / 8

abbrev pub link_mtu_size : ℕ
link_mtu_size = 3

abbrev pub reticulum_mtu : ℕ
reticulum_mtu = 500

-- The header of a packet on a link: the flags, the hops, the id of the link and the context.
abbrev pub packed_size : ℕ → ℕ
packed_size payload_size = 2 + 16 + 1 + payload_size

-- What a token makes of a plaintext: the vector, whole blocks with the padding, and the signature.
abbrev pub sealed_size : ℕ → ℕ
sealed_size n = 16 + (n / 16 + 1) * 16 + 32

-- A mode is its code, since any three bits can be received.
abbrev pub mode_aes128_cbc : ℕ
mode_aes128_cbc = 0x00

abbrev pub mode_aes256_cbc : ℕ
mode_aes256_cbc = 0x01

abbrev pub mode_default : ℕ
mode_default = mode_aes256_cbc

-- `ENABLED_MODES.find(mode) != ENABLED_MODES.end()`
abbrev pub is_enabled : ℕ → Bool
is_enabled mode = mode == mode_aes256_cbc

-- In milliseconds, as all times are here.
abbrev pub establishment_timeout_per_hop : ℕ
establishment_timeout_per_hop = 6 * 1000

abbrev pub keepalive_time : ℕ
keepalive_time = 360 * 1000

-- What comes from other libraries: the curves, the extraction of HKDF from key and salt, SHA-256
-- cut to 16 bytes, MessagePack's form of a `double`, and what the conversion of a negative `double`
-- to `uint16_t` gives, which C++ leaves open, as that of a number of seconds too large for
-- `int16_t`. The exchange throws for a key that is not valid. Two key pairs exchange the same
-- secret, and a signature is verified with the public key of its signer.
pub record Host : Type 0 where
  pub x25519_public : Bytes → Bytes
  pub exchange : Bytes → Bytes → Bytes
  pub is_valid_key : Bytes → Bool
  pub ed25519_public : Bytes → Bytes
  pub sign : Bytes → Bytes → Bytes
  pub verify : Bytes → Bytes → Bytes → Bool
  pub extract : ℕ → Bytes → Option Bytes → Bytes
  pub truncated_hash : Bytes → Bytes
  pub pack_double : ℕ → Bytes
  pub unpack_double : Bytes → ℕ
  pub below_zero : ℕ
  pub past_int16 : ℤ
  pub exchange-comm : (a b : Bytes) → exchange a (x25519_public b) ≡ exchange b (x25519_public a)
  pub is_valid_key-x25519_public : (a : Bytes) → is_valid_key (x25519_public a) ≡ true
  pub length-pack_double : (n : ℕ) → length (pack_double n) ≡ 9
  pub length-exchange : (a b : Bytes) → length (exchange a b) ≡ 32
  pub length-extract : (n : ℕ) (key : Bytes) (salt : Option Bytes) → length (extract n key salt) ≡ n
  pub length-x25519_public : (a : Bytes) → length (x25519_public a) ≡ 32
  pub length-ed25519_public : (a : Bytes) → length (ed25519_public a) ≡ 32
  pub length-sign : (key message : Bytes) → length (sign key message) ≡ 64
  pub verify-sign :
      (key message : Bytes) → verify (ed25519_public key) (sign key message) message ≡ true

-- Without the callbacks, the counters that are only reported, and the sets of resources and of
-- requests, which have modules of their own. An identity is its public key, first the half for
-- encryption, and a destination is that of its identity. An interface is a number.
pub record Link : Type 0 where
  pub link_id : Bytes
  pub hash : Bytes
  pub status : Status
  pub mode : ℕ
  pub rtt : ℕ
  pub mtu : ℕ
  pub mdu : ℕ
  pub establishment_cost : ℕ
  pub last_inbound : ℕ
  pub last_outbound : ℕ
  pub last_proof : ℕ
  pub last_data : ℕ
  pub rx : ℕ
  pub rxbytes : ℕ
  pub activated_at : ℕ
  pub owner : Option Bytes
  pub destination_key : Bytes
  pub initiator : Bool
  pub attached_interface : Option ℕ
  pub remote_identity : Option Bytes
  pub establishment_timeout : ℕ
  pub request_data : Bytes
  pub request_time : ℕ
  pub teardown_reason : TeardownReason
  pub token : Option Token
  pub prv : Option Bytes
  pub sig_prv : Bytes
  pub pub_bytes : Bytes
  pub sig_pub_bytes : Bytes
  pub peer_pub_bytes : Bytes
  pub peer_sig_pub_bytes : Bytes
  pub shared_key : Bytes
  pub derived_key : Bytes

-- What a link does to the outside: it sends a packet with a payload that `pack` encrypts where the
-- context asks for it, and does not look at whether an interface takes it; it is entered in the
-- transport's lists, it calls the application, and it hands the bytes of a context over to its
-- requests and resources.
pub data Effect : Type 0 where
  sends : PacketType → ℕ → Bytes → Effect
  registers activates : Effect
  calls_established calls_closed : Effect
  calls_packet : Bytes → Effect
  calls_identified : Bytes → Effect
  proves : Effect
  hands_over : ℕ → Bytes → Effect

-- A method returns, or throws and leaves the object as it is by then.
pub data Try : Type 0 where
  done : Link → List Effect → Try
  threw : Link → List Effect → Try
