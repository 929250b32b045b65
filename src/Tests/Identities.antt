-- ===== src/Tests/Identities.antt =====
-- src/microReticulum/Identity.cpp and Destination.cpp at keys of equal bytes, with the ciphers of
-- Tests/Secrets and a store that is a list.
use micro_reticulum.Prelude.{
  Bool, ◌+◌, ◌%◌, ◌^◌, ◌≡◌, refl, ap, inl, List, [], ◌∷◌, ◌++◌, Option, none, some, true, false,
  if◌then◌else◌, length, get_or, replicate, length-replicate, arith,
}
use mathlib.Core.Option
use micro_reticulum.Bytes.{Bytes, left, same}
use micro_reticulum.Bytes.Compare.{same_iff}
use micro_reticulum.Bytes.Hex.{to_hex}
use micro_reticulum.Packet.Types.{Packet, from_raw, announce, flag_unset, single}
use micro_reticulum.Identity.{Keys, Identity, truncated_hash, create_keys, encrypt_for, decrypt_by}
use micro_reticulum.Identity.Sealing.{known_as, decrypt_by-encrypt_for}
use micro_reticulum.Identity.Announce.{
  IdentityEntry, KnownStore, is_announce, read_announce, validate_announce,
}
use micro_reticulum.Identity.Announce.Accepted.{IsGenuine, validate_announce-IsGenuine}
use micro_reticulum.Destination.{
  Destination, incoming, expand_name, has_dot, name_hash_of, hash_of, named, new_destination,
  app_and_aspects, hash_from_name_and_identity,
}
use micro_reticulum.Destination.Announced.{Carries, Heard, validate_announce-Heard}
use micro_reticulum.Tests.Secrets.{turning}

-- The hash is the length and the first byte, added and filled up.
abbrev filled_hash : Bytes → Bytes
filled_hash b = replicate 32 ((length b + get_or b 0 0) % 2 ^ 8)

abbrev byte_keys : Keys
byte_keys = record {
  x25519_public = λ a. replicate 32 (get_or a 0 0);
  exchange = λ a b. replicate 32 (get_or a 0 0 + get_or b 0 0);
  ed25519_public = λ a. replicate 32 (get_or a 0 0);
  sign_with = λ key m. replicate 64 (get_or key 0 0 + length m);
  verify = λ key s m. same s (replicate 64 (get_or key 0 0 + length m));
  extract = λ n key salt. replicate n (get_or key 0 0);
  full_hash = filled_hash;
  exchange-comm = λ a b. ap (replicate 32) (omega arith);
  length-exchange = λ a b. length-replicate 32 (get_or a 0 0 + get_or b 0 0);
  length-extract = λ n key salt. length-replicate n (get_or key 0 0);
  length-x25519_public = λ a. length-replicate 32 (get_or a 0 0);
  length-ed25519_public = λ a. length-replicate 32 (get_or a 0 0);
  length-sign_with = λ key m. length-replicate 64 (get_or key 0 0 + length m);
  length-full_hash = λ b. length-replicate 32 ((length b + get_or b 0 0) % 2 ^ 8);
  verify-sign_with = λ key m. (same_iff (replicate 64 (get_or key 0 0 + length m)) _).1 refl;
}

abbrev find_entry : List (Bytes × IdentityEntry) → Bytes → Option IdentityEntry
find_entry [] h = none
find_entry ((k, e) ∷ rest) h = if same k h then some e else find_entry rest h

abbrev listed : KnownStore
listed = record {
  State = List (Bytes × IdentityEntry);
  get = find_entry;
  put = λ st h e. (h, e) ∷ st;
}

abbrev prv : Bytes
prv = replicate 32 3

abbrev sig_prv : Bytes
sig_prv = replicate 32 4

abbrev owner : Identity
owner = create_keys byte_keys prv sig_prv

decrypt_by-encrypt_for_example :
    (c : Bytes) × (encrypt_for byte_keys turning
        (replicate 32 5)
        (replicate 16 6)
        (7 ∷ 8 ∷ [])
        (known_as byte_keys prv sig_prv)
      ≡ some c)
    × (decrypt_by byte_keys turning c owner ≡ some (7 ∷ 8 ∷ []))
decrypt_by-encrypt_for_example =
    decrypt_by-encrypt_for byte_keys turning prv sig_prv (replicate 32 5) (replicate 16 6)
      (7 ∷ 8 ∷ []) refl

-- `app` and `a`
abbrev app_name : Bytes
app_name = 0x61 ∷ 0x70 ∷ 0x70 ∷ []

abbrev aspects : Bytes
aspects = 0x61 ∷ []

abbrev packed : Bytes → Bytes → Packet
packed h b = record (from_raw []) {
  packet_type = announce;
  context_flag = flag_unset;
  destination_hash = h;
  payload = b;
}

packed-Carries : Carries packed
packed-Carries = record {
  carries_announce = λ h b. refl;
  carries_flag = λ h b. refl;
  carries_hash = λ h b. refl;
  carries_content = λ h b. refl;
}

abbrev app_hash : Bytes
app_hash = replicate 16 128

hash_made : hash_of byte_keys (some owner) app_name (some aspects) ≡ some app_hash
unfolding hash_of name_hash_of expand_name has_dot truncated_hash create_keys left
hash_made = refl

abbrev unregistered : Bytes → Bool
unregistered b = false

no_dot : has_dot app_name ≡ false
unfolding has_dot
no_dot = refl

validate_announce-Heard_example :
    Heard byte_keys listed prv sig_prv
      ([], [])
      app_name
      aspects
      5000
      6000
      (replicate 5 1)
      []
      []
      false
      unregistered
      packed
      []
validate_announce-Heard_example =
    validate_announce-Heard byte_keys listed prv sig_prv ([], []) app_name aspects 5000 6000
      (replicate 5 1) [] [] app_hash false unregistered packed [] no_dot refl packed-Carries
      hash_made (inl refl) refl (omega arith)

announce-Heard :
    Heard byte_keys listed prv sig_prv
      ([], [])
      app_name
      aspects
      5000
      6000
      (replicate 5 1)
      []
      (9 ∷ [])
      true
      unregistered
      packed
      []
announce-Heard =
    validate_announce-Heard byte_keys listed prv sig_prv ([], []) app_name aspects 5000 6000
      (replicate 5 1) [] (9 ∷ []) app_hash true unregistered packed [] no_dot refl packed-Carries
      hash_made (inl refl) refl (omega arith)

abbrev heard_packet : Packet
heard_packet = packed announce-Heard.destination.hash announce-Heard.content

validate_announce-IsGenuine_example :
    (is_announce heard_packet.packet_type ≡ true)
    × IsGenuine byte_keys listed heard_packet
        (read_announce heard_packet.context_flag heard_packet.payload)
        []
        (validate_announce byte_keys listed 6000 false heard_packet []).0
validate_announce-IsGenuine_example =
    validate_announce-IsGenuine byte_keys listed 6000 heard_packet [] announce-Heard.heard

-- A destination that makes its own identity: its hash is not that of its name hash and identity.
own_identity :
    Option.map
      (λ (d : Destination). same d.hash (truncated_hash byte_keys (d.name_hash ++ owner.hash)))
      (new_destination byte_keys unregistered (prv, sig_prv) none incoming single app_name aspects)
    ≡ some false
unfolding new_destination named expand_name hash_of name_hash_of has_dot truncated_hash create_keys
    left same to_hex
own_identity = refl

-- A name with aspects, as one text.
whole_name :
    hash_from_name_and_identity byte_keys (app_name ++ (0x2e ∷ aspects)) (some owner)
    ≡ some app_hash
unfolding hash_from_name_and_identity app_and_aspects
whole_name = hash_made
