-- ===== src/Tests/Links.antt =====
-- src/microReticulum/Link.cpp at keys of equal bytes, whose signature is the length of the message.
use micro_reticulum.Prelude.{
  ◌+◌, ◌≡◌, refl, ap, negsuc, true, [], ◌∷◌, ◌++◌, some, length, get_or, replicate,
  length-replicate, arith,
}
use micro_reticulum.Bytes.{Bytes, left, mid_len, same}
use micro_reticulum.Bytes.Compare.{same_iff}
use micro_reticulum.Packet.Context.{context_none}
use micro_reticulum.Packet.Types.{Packet, from_raw, header_1}
use micro_reticulum.Packet.Wire.{get_hashable_part}
use micro_reticulum.Packet.Hash.{get_hashable_part-header_1}
use micro_reticulum.Link.{Host}
use micro_reticulum.Link.Signalling.{signalling_value, signalling_bytes, link_id_from_lr_packet}
use micro_reticulum.Link.Handshake.Answer.{answer}
use micro_reticulum.Link.Agreement.{Opening, Answering, Agreed, open_link-Agreed}

abbrev pub byte_host : Host
byte_host = record {
  x25519_public = λ a. replicate 32 (get_or a 0 0);
  is_valid_key = λ a. true;
  exchange = λ a b. replicate 32 (get_or a 0 0 + get_or b 0 0);
  ed25519_public = λ a. replicate 32 (get_or a 0 0);
  sign = λ key m. replicate 64 (get_or key 0 0 + length m);
  verify = λ key s m. same s (replicate 64 (get_or key 0 0 + length m));
  extract = λ n key salt. replicate n (get_or key 0 0);
  truncated_hash = λ b. left b 16;
  pack_double = λ n. n ∷ replicate 8 0;
  unpack_double = λ b. get_or b 0 0;
  below_zero = 0xffff;
  past_int16 = negsuc 0;
  exchange-comm = λ a b. ap (replicate 32) (omega arith);
  is_valid_key-x25519_public = λ a. refl;
  length-pack_double = λ n. refl;
  length-exchange = λ a b. length-replicate 32 (get_or a 0 0 + get_or b 0 0);
  length-extract = λ n key salt. length-replicate n (get_or key 0 0);
  length-x25519_public = λ a. length-replicate 32 (get_or a 0 0);
  length-ed25519_public = λ a. length-replicate 32 (get_or a 0 0);
  length-sign = λ key m. length-replicate 64 (get_or key 0 0 + length m);
  verify-sign = λ key m. (same_iff (replicate 64 (get_or key 0 0 + length m)) _).1 refl;
}

abbrev asked_hash : Bytes
asked_hash = replicate 16 9

abbrev two_keys : Bytes
two_keys = replicate 32 3 ++ replicate 32 4

-- 1000 and 500 bytes in the default mode.
abbrev wide : Bytes
wide = 32 ∷ 3 ∷ 232 ∷ []

abbrev narrow : Bytes
narrow = 32 ∷ 1 ∷ 244 ∷ []

wide_made : signalling_bytes 1000 1 ≡ some wide
unfolding signalling_bytes signalling_value
wide_made = refl

abbrev request_packet : Bytes → Packet
request_packet b = record (from_raw (0x02 ∷ 0 ∷ (asked_hash ++ context_none ∷ b))) { payload = b }

abbrev request_front : Bytes
request_front = 2 ∷ (asked_hash ++ context_none ∷ [])

request_hashed :
    (b : Bytes) → get_hashable_part header_1 (request_packet b).raw ≡ request_front ++ b
request_hashed b = get_hashable_part-header_1 2 0 (asked_hash ++ context_none ∷ b)

-- The request loses half of its MTU on its way.
abbrev opening : Opening
opening = record {
  opened_at = 100;
  next_hop_mtu = 1000;
  hops = 2;
  first_hop_timeout = 6000;
  destination_key = replicate 32 8 ++ replicate 32 7;
  prv = replicate 32 3;
  sig_prv = replicate 32 4;
  packed = request_packet;
}

abbrev answering : Answering
answering = record {
  answered_at = 120;
  owner_key = replicate 32 7;
  own_destination_key = replicate 32 8 ++ replicate 32 7;
  own_prv = replicate 32 6;
  unused_sig_prv = [];
  interface = some 1;
}

narrow_made : signalling_bytes 500 1 ≡ some narrow
unfolding signalling_bytes signalling_value
narrow_made = refl

abbrev arrived : Packet
arrived = request_packet (two_keys ++ narrow)

abbrev proof_packet : Packet
proof_packet = record (from_raw []) {
  payload =
      answer byte_host (replicate 32 7) (replicate 32 6) (link_id_from_lr_packet byte_host arrived)
        500;
}

known : mid_len (replicate 32 8 ++ replicate 32 7) 32 32 ≡ byte_host.ed25519_public (replicate 32 7)
unfolding mid_len
known = refl

open_link-Agreed_example : Agreed byte_host opening answering wide arrived proof_packet 160 (some 1)
open_link-Agreed_example =
    open_link-Agreed byte_host opening answering arrived proof_packet request_front wide narrow 500
      160 (some 1) wide_made narrow_made (omega arith) (omega arith) known refl
      (request_hashed (two_keys ++ wide)) refl (request_hashed (two_keys ++ narrow)) refl
