-- ===== src/Packet/Context.antt =====
-- src/microReticulum/Type.h, `Type::Packet::context_types`. A received context byte may have any
-- value, so a context is a number.
use micro_reticulum.Prelude.{ℕ}

abbrev pub context_none : ℕ
context_none = 0x00

abbrev pub resource : ℕ
resource = 0x01

abbrev pub resource_adv : ℕ
resource_adv = 0x02

abbrev pub resource_req : ℕ
resource_req = 0x03

abbrev pub resource_hmu : ℕ
resource_hmu = 0x04

abbrev pub resource_prf : ℕ
resource_prf = 0x05

abbrev pub resource_icl : ℕ
resource_icl = 0x06

abbrev pub resource_rcl : ℕ
resource_rcl = 0x07

abbrev pub cache_request : ℕ
cache_request = 0x08

abbrev pub request : ℕ
request = 0x09

abbrev pub response : ℕ
response = 0x0a

abbrev pub path_response : ℕ
path_response = 0x0b

abbrev pub channel : ℕ
channel = 0x0e

abbrev pub keepalive : ℕ
keepalive = 0xfa

abbrev pub linkidentify : ℕ
linkidentify = 0xfb

abbrev pub linkclose : ℕ
linkclose = 0xfc

abbrev pub lrrtt : ℕ
lrrtt = 0xfe

abbrev pub lrproof : ℕ
lrproof = 0xff
