-- ===== src/Packet/Types.antt =====
-- src/microReticulum/Type.h, the enumerations of packets, and the object of Packet.h.
use micro_reticulum.Prelude.{ℕ, ◌+◌, ◌*◌, Option, none, Bool, false, [], if◌then◌else◌, ◌==◌}
use micro_reticulum.Bytes.{Bytes}
use micro_reticulum.Packet.Context

pub data PacketType : Type 0 where
  data_packet announce linkrequest proof : PacketType

pub data HeaderType : Type 0 where
  header_1 header_2 : HeaderType

pub data ContextFlag : Type 0 where
  flag_unset flag_set : ContextFlag

-- `Type::Transport::types`; the last is its `NONE`.
pub data TransportType : Type 0 where
  broadcast transport relay tunnel no_transport : TransportType

-- `Type::Destination::types`
pub data DestinationType : Type 0 where
  single group plain link : DestinationType

-- `Type::Packet::MDU`, at which the constructor of a packet cuts its data.
abbrev pub packet_mdu : ℕ
packet_mdu = 464

abbrev pub packet_code : PacketType → ℕ
packet_code data_packet = 0x00
packet_code announce = 0x01
packet_code linkrequest = 0x02
packet_code proof = 0x03

abbrev pub header_code : HeaderType → ℕ
header_code header_1 = 0x00
header_code header_2 = 0x01

abbrev pub context_flag_code : ContextFlag → ℕ
context_flag_code flag_unset = 0x00
context_flag_code flag_set = 0x01

abbrev pub transport_code : TransportType → ℕ
transport_code broadcast = 0x00
transport_code transport = 0x01
transport_code relay = 0x02
transport_code tunnel = 0x03
transport_code no_transport = 0xff

abbrev pub destination_code : DestinationType → ℕ
destination_code single = 0x00
destination_code group = 0x01
destination_code plain = 0x02
destination_code link = 0x03

-- `static_cast` of the bits of the flag byte.
abbrev pub to_packet_type : ℕ → PacketType
to_packet_type n =
    if n == 0
    then data_packet
    else if n == 1
    then announce
    else if n == 2
    then linkrequest
    else proof

abbrev pub to_header_type : ℕ → HeaderType
to_header_type n = if n == 0 then header_1 else header_2

abbrev pub to_context_flag : ℕ → ContextFlag
to_context_flag n = if n == 0 then flag_unset else flag_set

abbrev pub to_transport_type : ℕ → TransportType
to_transport_type n = if n == 0 then broadcast else transport

abbrev pub to_destination_type : ℕ → DestinationType
to_destination_type n =
    if n == 0 then single else if n == 1 then group else if n == 2 then plain else link

-- In bytes: the truncated hash, and the two sizes of header.
abbrev pub destination_length : ℕ
destination_length = 16

abbrev pub header_minsize : ℕ
header_minsize = 2 + 1 + destination_length * 1

abbrev pub header_maxsize : ℕ
header_maxsize = 2 + 1 + destination_length * 2

-- What a packet reads of its destination.
pub record Destination : Type 0 where
  pub hash : Bytes
  pub kind : DestinationType

-- `Packet::Object`. `destination_link` is the id of the link; `payload` is `_data`.
pub record Packet : Type 0 where
  pub destination : Option Destination
  pub destination_link : Option Bytes
  pub header_type : HeaderType
  pub transport_type : TransportType
  pub destination_type : DestinationType
  pub packet_type : PacketType
  pub context : ℕ
  pub context_flag : ContextFlag
  pub flags : ℕ
  pub hops : ℕ
  pub packed : Bool
  pub encrypted : Bool
  pub mtu : ℕ
  pub packet_hash : Bytes
  pub destination_hash : Bytes
  pub transport_id : Bytes
  pub raw : Bytes
  pub payload : Bytes
  pub ciphertext : Bytes

-- `Packet(const Bytes& raw)`: a packet as received, not yet unpacked.
abbrev pub from_raw : Bytes → Packet
from_raw raw = record {
  destination = none;
  destination_link = none;
  header_type = header_1;
  transport_type = broadcast;
  destination_type = single;
  packet_type = data_packet;
  context = Context.context_none;
  context_flag = flag_unset;
  flags = 0;
  hops = 0;
  packed = false;
  encrypted = false;
  mtu = 500;
  packet_hash = [];
  destination_hash = [];
  transport_id = [];
  raw = raw;
  payload = [];
  ciphertext = [];
}
