-- ===== src/Link/Session.antt =====
-- src/microReticulum/Link.cpp: encryption on a link, what ends it, and the start of `receive`.
use micro_reticulum.Prelude.{
  ℕ, ◌+◌, ◌-◌, max, List, [], ◌∷◌, ◌++◌, Option, none, some, Bool, true, false, ◌&&◌, ◌||◌, ltb,
  not, if◌then◌else◌, ◌==◌, length,
}
use micro_reticulum.Bytes.{Bytes, left, mid_len, same}
use micro_reticulum.Packet.Context.{keepalive, linkidentify, linkclose}
use micro_reticulum.Packet.Types.{data_packet}
use micro_reticulum.Cryptography.Padding.{ok, err}
use micro_reticulum.Cryptography.Token.{Primitives, Token, encrypt, decrypt}
use micro_reticulum.Link.{
  active, closed, is_pending, is_closed, is_active, half_ecpubsize, sig_bytes, initiator_closed,
  destination_closed, Host, Link, Effect, Try, done, threw, packed_size, sealed_size, sends,
  calls_established, calls_closed, calls_identified,
}
use micro_reticulum.Link.Handshake.{had_outbound}
use micro_reticulum.Link.Establishment.{made_token}

abbrev pub is_nil : Bytes → Bool
is_nil [] = true
is_nil (x ∷ xs) = false

module _ (p : Primitives) where
  -- The exception of a key that makes no token, or of the token, is `none`.
  unfoldable pub encrypt_on : (iv content : Bytes) → Link → Option (Link × Bytes)
  encrypt_on iv content l = elim (made_token l.token l.derived_key) [
    | none ↦ none
    | some t ↦ elim (encrypt p t iv content) [
      | ok c ↦ some (record l { token = some t }, c)
      | err e ↦ none
    ]
  ]

  -- An exception gives no bytes, which count as no plaintext.
  unfoldable pub decrypted : Option Token → Bytes → Bytes
  decrypted none c = []
  decrypted (some t) c = elim (decrypt p t c) [ ok b ↦ b | err e ↦ [] ]

abbrev pub keep_token : Option Token → Link → Link
keep_token none l = l
keep_token (some t) l = record l { token = some t }

-- `link_closed`. The token stays.
unfoldable pub link_closed : Link → Link × List Effect
link_closed l =
    (record l { prv = none; pub_bytes = []; shared_key = []; derived_key = [] }, calls_closed ∷ [])

abbrev pub close_as : (own_side : Bool) → Link → Link
close_as own_side l = record l {
  status = closed;
  teardown_reason =
      if if own_side then l.initiator else not l.initiator
      then initiator_closed
      else destination_closed;
}

-- `send` of a data packet that is encrypted, and `had_outbound` behind it. It throws on a closed
-- link, where no token can be made, and where the MTU of the link has no room for the packet; of
-- these only the first leaves the time of the last packet as it was.
unfoldable pub send_sealed : (now context : ℕ) (payload : Bytes) → Link → Try
send_sealed now context payload l =
    if is_closed l.status then threw l [] else elim (made_token l.token l.derived_key) [
      | none ↦ threw (record l { last_outbound = now }) []
      | some t ↦
          let kept = record l { token = some t } in
          if ltb l.mtu (packed_size (sealed_size (length payload)))
          then threw (record kept { last_outbound = now }) []
          else done (had_outbound now false kept) (sends data_packet context payload ∷ [])
    ]

-- The last part of `teardown`, which an exception of the packet before it skips.
abbrev pub then_close : Try → Try
then_close (threw l es) = threw l es
then_close (done l es) = let (t, cs) = link_closed (close_as true l) in done t (es ++ cs)

unfoldable pub teardown : (now : ℕ) → Link → Try
teardown now l = then_close (
    if is_pending l.status || is_closed l.status
    then done l []
    else send_sealed now linkclose l.link_id l)

-- With the plaintext of the packet.
unfoldable pub teardown_packet : (plaintext : Bytes) → Link → Link × List Effect
teardown_packet plaintext l =
    if same plaintext l.link_id then link_closed (close_as false l) else (l, [])

-- A keepalive is not encrypted.
unfoldable pub send_keepalive : (now : ℕ) → Link → Try
send_keepalive now l =
    if is_closed l.status
    then threw l []
    else if ltb l.mtu (packed_size 1)
    then threw (record l { last_outbound = now }) []
    else done (had_outbound now true l) (sends data_packet keepalive (0xff ∷ []) ∷ [])

module _ (h : Host) where
  -- `rtt_packet` with the plaintext of the packet.
  unfoldable pub rtt_packet : (now : ℕ) (plaintext : Bytes) → Link → Link × List Effect
  rtt_packet now plaintext l = if is_nil plaintext then (l, []) else (
    record l {
      rtt = max (now - l.request_time) (h.unpack_double plaintext);
      status = active;
      activated_at = now;
    },
    calls_established ∷ [],
  )

  -- `identify`, with the public key of an identity and the private one that signs for it.
  unfoldable pub identify : (now : ℕ) (public_key signing_key : Bytes) → Link → Try
  identify now public_key signing_key l =
      if l.initiator && is_active l.status
      then send_sealed now linkidentify (public_key ++ h.sign signing_key (l.link_id ++ public_key))
          l
      else done l []

  -- The case `LINKIDENTIFY` of `receive`, with the plaintext.
  unfoldable pub identify_packet : (plaintext : Bytes) → Link → Link × List Effect
  identify_packet plaintext l =
      let public_key = left plaintext 64 in
      let signature = mid_len plaintext 64 sig_bytes in
      if not l.initiator && length plaintext == 64 + sig_bytes
      then if h.verify (mid_len public_key half_ecpubsize half_ecpubsize) signature
          (l.link_id ++ public_key)
        then (record l { remote_identity = some public_key }, calls_identified public_key ∷ [])
        else (l, [])
      else (l, [])
