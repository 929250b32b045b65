-- ===== src/Tests/Sessions.antt =====
-- src/microReticulum/Link.cpp: links at both ends, at the keys of Tests/Links and the ciphers of
-- Tests/Secrets.
use micro_reticulum.Prelude.{
  ℕ, ◌≡◌, refl, arith, List, [], ◌∷◌, ◌++◌, none, some, Bool, true, false, replicate,
}
use micro_reticulum.Bytes.{Bytes, left, mid, mid_len, same}
use micro_reticulum.Packet.Context.{context_none, linkidentify}
use micro_reticulum.Packet.Types.{Packet, from_raw, data_packet}
use micro_reticulum.Cryptography.Derivation.{hkdf}
use micro_reticulum.Cryptography.Padding.{ok}
use micro_reticulum.Cryptography.Token.{Token, token, mode_aes, mode_aes_256_cbc}
use micro_reticulum.Link.{
  Status, pending, active, closed, teardown_none, Link, sends, calls_packet, calls_identified,
  proves, done,
}
use micro_reticulum.Link.Signalling.{signalling_bytes, mtu_from_lp_packet, mode_from_lp_packet}
use micro_reticulum.Link.Handshake.{signed_part, had_outbound, handshake, derive, update_mdu}
use micro_reticulum.Link.Establishment.{
  made_token, establish, check_proof, read_proof, validate_proof,
}
use micro_reticulum.Link.Session.{encrypt_on, identify, send_keepalive}
use micro_reticulum.Link.Receive.{receive}
use micro_reticulum.Link.Receive.Delivery.{
  Paired, Arrives, sealed_by, receive-encrypt_on, receive-identify,
}
use micro_reticulum.Link.History.{Event, validates, keeps_alive, tears_down, step, run}
use micro_reticulum.Link.History.Proofs.{is_up}
use micro_reticulum.Link.History.Authentic.{SomeSigned, run-SomeSigned, run_closed}
use micro_reticulum.Tests.Links.{byte_host}
use micro_reticulum.Tests.Secrets.{turning}

abbrev derived : Bytes
derived = replicate 32 3 ++ replicate 32 5

abbrev derived_token : Token
derived_token = record {
  mode = mode_aes_256_cbc;
  signing_key = replicate 32 3;
  encryption_key = replicate 32 5;
}

abbrev pub link_at : (initiator : Bool) (status : Status) → Link
link_at initiator status = record {
  link_id = replicate 16 1;
  hash = replicate 16 1;
  status = status;
  mode = 1;
  rtt = 0;
  mtu = 500;
  mdu = 431;
  establishment_cost = 0;
  last_inbound = 0;
  last_outbound = 0;
  last_proof = 0;
  last_data = 0;
  rx = 0;
  rxbytes = 0;
  activated_at = 0;
  owner = none;
  destination_key = replicate 32 8 ++ replicate 32 7;
  initiator = initiator;
  attached_interface = some 1;
  remote_identity = none;
  establishment_timeout = 0;
  request_data = [];
  request_time = 0;
  teardown_reason = teardown_none;
  token = none;
  prv = some (replicate 32 3);
  sig_prv = replicate 32 4;
  pub_bytes = replicate 32 3;
  sig_pub_bytes = replicate 32 4;
  peer_pub_bytes = [];
  peer_sig_pub_bytes = [];
  shared_key = [];
  derived_key = derived;
}

token_made : token derived mode_aes ≡ ok derived_token
unfolding token left mid
token_made = refl

ends-Paired : Paired (link_at true active) (link_at false active) derived_token
unfolding made_token token left mid
ends-Paired = record {
  pair_key = derived;
  pair_mode = mode_aes;
  pair_token = token_made;
  near = refl;
  far = refl;
}

abbrev carried : ℕ → Bytes → Packet
carried context content = record (from_raw []) {
  context = context;
  payload = sealed_by (encrypt_on turning (replicate 16 2) content (link_at true active));
}

arrives :
    (context : ℕ) (content : Bytes)
    → Arrives (carried context content) context (some 1) (link_at false active)
arrives context content = record {
  is_data = refl;
  has_context = refl;
  is_open = refl;
  is_from = refl;
}

receive-encrypt_on_example :
    (receive byte_host turning 200 true
      (some 1)
      (carried context_none (1 ∷ 2 ∷ []))
      (link_at false active)).1
    ≡ calls_packet (1 ∷ 2 ∷ []) ∷ proves ∷ []
receive-encrypt_on_example =
    receive-encrypt_on turning byte_host 200 true (some 1) (carried context_none (1 ∷ 2 ∷ []))
      (link_at true active) (link_at false active) derived_token (replicate 16 2) 1 (2 ∷ [])
      ends-Paired refl (arrives context_none (1 ∷ 2 ∷ [])) refl

abbrev identity_key : Bytes
identity_key = replicate 32 2 ++ replicate 32 4

abbrev identity_sent : Bytes
identity_sent = identity_key ++ byte_host.sign (4 ∷ []) (replicate 16 1 ++ identity_key)

receive-identify_example :
    (identify byte_host 150 identity_key (4 ∷ []) (link_at true active)
      ≡ done
          (had_outbound 150 false (record (link_at true active) { token = some derived_token }))
          (sends data_packet linkidentify identity_sent ∷ []))
    × ((receive byte_host turning 200 true
          (some 1)
          (carried linkidentify identity_sent)
          (link_at false active)).0.remote_identity
        ≡ some identity_key)
    × ((receive byte_host turning 200 true
          (some 1)
          (carried linkidentify identity_sent)
          (link_at false active)).1
        ≡ calls_identified identity_key ∷ [])
receive-identify_example =
    receive-identify turning byte_host 150 200 true (some 1) (carried linkidentify identity_sent)
      (link_at true active) (link_at false active) derived_token (replicate 16 2) (replicate 32 2)
      (4 ∷ []) ends-Paired refl refl refl refl (omega arith) refl refl
      (arrives linkidentify identity_sent) refl

-- A proof that the destination has signed, without signalled bytes, behind one that it has not.
abbrev signed_keys : Bytes
signed_keys =
    byte_host.sign (7 ∷ []) (signed_part (replicate 16 1) (replicate 32 6) (replicate 32 7) [])
    ++ replicate 32 6

abbrev unsigned : Packet
unsigned = record (from_raw []) { payload = 1 ∷ [] }

abbrev signed : Packet
signed = record (from_raw []) { payload = signed_keys }

abbrev calls : List Event
calls = validates 150 (some 1) unsigned ∷ keeps_alive 155 ∷ validates 160 (some 1) signed ∷ []

run_up : is_up (run byte_host turning calls (link_at true pending)).status ≡ true
unfolding run step validate_proof read_proof check_proof establish handshake derive hkdf made_token
    token left mid_len mid same update_mdu mode_from_lp_packet mtu_from_lp_packet signalling_bytes
    send_keepalive
run_up = refl

run-SomeSigned_example : SomeSigned byte_host (link_at true pending) calls
run-SomeSigned_example =
    run-SomeSigned byte_host turning calls (link_at true pending) refl refl run_up

run_closed_example :
    (run byte_host turning
      (tears_down 100 ∷ validates 160 (some 1) signed ∷ [])
      (link_at true closed)).status
    ≡ closed
run_closed_example =
    run_closed byte_host turning (tears_down 100 ∷ validates 160 (some 1) signed ∷ [])
      (link_at true closed) refl
