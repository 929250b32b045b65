-- ===== src/Link/Receive/Delivery.antt =====
-- src/microReticulum/Link.cpp: what one side encrypts, received by the other.
use micro_reticulum.Prelude.{
  ℕ, ◌+◌, ◌≤◌, ltb, ◌≡◌, refl, sym, ap, ap₂, ◌∙◌, List, [], ◌∷◌, ◌++◌, Option, none, some, Bool,
  true, false, ◌&&◌, ◌||◌, not, if◌then◌else◌, ◌==◌, length, length-append, arith,
}
use micro_reticulum.Bytes.{Bytes}
use micro_reticulum.Bytes.Slices.{left-append, mid_len-rest}
use micro_reticulum.Packet.Context.{context_none, keepalive, linkidentify, lrrtt}
use micro_reticulum.Packet.Types.{Packet, data_packet}
use micro_reticulum.Cryptography.Padding.{ok}
use micro_reticulum.Cryptography.Token.{Primitives, Token, TokenMode, token}
use micro_reticulum.Cryptography.Token.Sealing.{decrypt-encrypt}
use micro_reticulum.Link.{
  Status, pending, handshaking, active, stale, closed, done, packed_size, sealed_size, is_closed,
  is_active, half_ecpubsize, sig_bytes, Host, Link, Effect, sends, calls_packet, calls_identified,
  proves,
}
use micro_reticulum.Link.Handshake.{had_outbound}
use micro_reticulum.Link.Establishment.{made_token}
use micro_reticulum.Link.Session.{
  encrypt_on, decrypted, keep_token, send_sealed, identify, identify_packet,
}
use micro_reticulum.Link.Receive.{
  same_interface, is_read, is_echo, note_packet, receive_raw, receive_plaintext, receive_data,
  receive_typed, receive,
}

-- Two links whose tokens are the same, or are made from the same key.
pub record Paired (i r : Link) (t : Token) : Type 0 where
  pub pair_key : Bytes
  pub pair_mode : TokenMode
  pub pair_token : token pair_key pair_mode ≡ ok t
  pub near : made_token i.token i.derived_key ≡ some t
  pub far : made_token r.token r.derived_key ≡ some t

-- A data packet with a context that arrives for an open link from its interface.
pub record Arrives (q : Packet) (context : ℕ) (interface : Option ℕ) (r : Link) : Type 0 where
  pub is_data : q.packet_type ≡ data_packet
  pub has_context : q.context ≡ context
  pub is_open : is_closed r.status ≡ false
  pub is_from : same_interface interface r.attached_interface ≡ true

-- What was encrypted, if it was.
abbrev pub sealed_by : Option (Link × Bytes) → Bytes
sealed_by none = []
sealed_by (some (l, c)) = c

and_false : (a : Bool) → (a && false) ≡ false
and_false true = refl
and_false false = refl

is_active_open : (s : Status) → is_active s ≡ true → is_closed s ≡ false
is_active_open active e = refl
is_active_open pending e = cc
is_active_open handshaking e = cc
is_active_open stale e = cc
is_active_open closed e = cc

module _ (h : Host) where
  identify_packet-identity :
      (l : Link) (eh sk : Bytes)
      → l.initiator ≡ false
      → length eh ≡ half_ecpubsize
      → let public_key = eh ++ h.ed25519_public sk in
        identify_packet h (public_key ++ h.sign sk (l.link_id ++ public_key)) l
        ≡ (record l { remote_identity = some public_key }, calls_identified public_key ∷ [])
  unfolding identify_packet
  identify_packet-identity l eh sk other le =
      let public_key : Bytes = eh ++ h.ed25519_public sk in
      let message : Bytes = l.link_id ++ public_key in
      let signature : Bytes = h.sign sk message in
      let lk : length public_key ≡ 64 =
        omega (arith, length-append eh (h.ed25519_public sk), h.length-ed25519_public sk, le) in
      let size : length (public_key ++ signature) ≡ 128 =
        omega (arith, length-append public_key signature, h.length-sign sk message, lk) in
      let guard : (not l.initiator && length (public_key ++ signature) == 64 + sig_bytes) ≡ true =
        rw (other, size) refl in
      let first = left-append 64 public_key signature lk in
      let second =
        mid_len-rest 64 64 public_key signature lk (h.length-sign sk message) (omega arith) in
      let signer =
        mid_len-rest 32 32 eh (h.ed25519_public sk) le (h.length-ed25519_public sk) (omega arith) in
      rw (identify_packet, guard, first, second, signer, h.verify-sign sk message) refl

module _ (p : Primitives) where
  decrypted-encrypt_on :
      (i r : Link) (t : Token) (iv content : Bytes)
      → Paired i r t
      → length iv ≡ 16
      → decrypted p (made_token r.token r.derived_key) (sealed_by (encrypt_on p iv content i))
        ≡ content
  unfolding encrypt_on decrypted
  decrypted-encrypt_on i r t iv content w li =
      let (c, made, back) = decrypt-encrypt p w.pair_key w.pair_mode t iv content w.pair_token li in
      let sent : sealed_by (encrypt_on p iv content i) ≡ c = rw (encrypt_on, w.near, made) refl in
      rw (sent, w.far) (rw (decrypted, back) refl)

  module _ (h : Host) where
    -- A context whose case decrypts, and that is neither a keepalive nor a round trip.
    receive_read :
        (now : ℕ) (proved : Bool) (interface : Option ℕ) (q : Packet) (context : ℕ) (r : Link)
        (t : Token)
        → Arrives q context interface r
        → is_read context ≡ true
        → (context == keepalive) ≡ false
        → (context == lrrtt) ≡ false
        → made_token r.token r.derived_key ≡ some t
        → receive h p now proved interface q r
          ≡ receive_plaintext h now proved context
              (decrypted p (some t) q.payload)
              (record (note_packet now q r) { token = some t })
    unfolding receive receive_typed receive_data note_packet
    receive_read now proved interface q context r t w read quiet other made =
        let echo : is_echo q r ≡ false = rw (w.has_context, quiet, and_false r.initiator) refl in
        let busy : (is_closed r.status || is_echo q r) ≡ false = rw (w.is_open) echo in
        let seen : Link = note_packet now q r in
        let guard : (is_read q.context && not (r.initiator && q.context == lrrtt)) ≡ true =
          rw (w.has_context, read, other, and_false r.initiator) refl in
        let plain : ℕ → Option Token → Link × List Effect =
          λ c o. receive_plaintext h now proved c (decrypted p o q.payload) (keep_token o seen) in
        let opened : receive h p now proved interface q r
            ≡ receive_typed h p now proved q.packet_type q seen =
          rw (receive, busy, w.is_from) refl in
        opened
        ∙ ap (λ k. receive_typed h p now proved k q seen) w.is_data
        ∙ ap
            (λ b.
              if b
              then plain q.context (made_token r.token r.derived_key)
              else receive_raw now q seen)
            guard
        ∙ ap₂ plain w.has_context made

    -- A message of at least one byte that one side encrypts, and the other receives in a data
    -- packet without a context: the application gets the message, and a proof is asked for where
    -- the strategy wants one. The two links have the same token or make it from the same key.
    pub receive-encrypt_on :
        (now : ℕ) (proved : Bool) (interface : Option ℕ) (q : Packet) (i r : Link) (t : Token)
        (iv : Bytes)
        → (x : ℕ) (xs : Bytes) → Paired i r t
        → length iv ≡ 16
        → Arrives q context_none interface r
        → q.payload ≡ sealed_by (encrypt_on p iv (x ∷ xs) i)
        → (receive h p now proved interface q r).1
          ≡ calls_packet (x ∷ xs) ∷ (if proved then proves ∷ [] else [])
    unfolding receive_plaintext is_read
    receive-encrypt_on now proved interface q i r t iv x xs w li arrives pay =
        let back : decrypted p (some t) q.payload ≡ x ∷ xs =
          ap₂ (decrypted p) (sym w.far) pay ∙ decrypted-encrypt_on i r t iv (x ∷ xs) w li in
        let read =
          receive_read now proved interface q context_none r t arrives refl refl refl w.far in
        ap (λ (z : Link × List Effect). z.1) read
        ∙ ap
            (λ b.
              (receive_plaintext h now proved context_none b
                (record (note_packet now q r) { token = some t })).1)
            back

    -- The initiator of an active link with an MTU of at least 211 bytes, the size of the packet,
    -- identifies itself with a key pair, and the other side of the
    -- link receives what it sends: the remote identity is the public key, and the application hears
    -- of it. The two links have the same token or make it from the same key, and the same id.
    pub receive-identify :
        (now later : ℕ) (proved : Bool) (interface : Option ℕ) (q : Packet) (i r : Link) (t : Token)
        → (iv encryption_half signing_key : Bytes) → Paired i r t
        → length iv ≡ 16
        → length encryption_half ≡ half_ecpubsize
        → i.initiator ≡ true
        → is_active i.status ≡ true
        → 211 ≤ i.mtu
        → r.initiator ≡ false
        → i.link_id ≡ r.link_id
        → Arrives q linkidentify interface r
        → let public_key = encryption_half ++ h.ed25519_public signing_key in
          let identity = public_key ++ h.sign signing_key (i.link_id ++ public_key) in
          q.payload ≡ sealed_by (encrypt_on p iv identity i)
          → (identify h now public_key signing_key i
              ≡ done
                  (had_outbound now false (record i { token = some t }))
                  (sends data_packet linkidentify identity ∷ []))
            × ((receive h p later proved interface q r).0.remote_identity ≡ some public_key)
            × ((receive h p later proved interface q r).1 ≡ calls_identified public_key ∷ [])
    unfolding receive_plaintext identify send_sealed is_read note_packet
    receive-identify now later proved interface q i r t iv eh sk w li le side up room other ids
          arrives pay =
        let public_key : Bytes = eh ++ h.ed25519_public sk in
        let seen : Link = record (note_packet later q r) { token = some t } in
        let identity : Bytes = public_key ++ h.sign sk (r.link_id ++ public_key) in
        let sent : public_key ++ h.sign sk (i.link_id ++ public_key) ≡ identity =
          ap (λ d. public_key ++ h.sign sk (d ++ public_key)) ids in
        let back : decrypted p (some t) q.payload ≡ identity =
          ap₂ (decrypted p) (sym w.far) pay
          ∙ decrypted-encrypt_on i r t iv (public_key ++ h.sign sk (i.link_id ++ public_key)) w li
          ∙ sent in
        let run : receive h p later proved interface q r ≡ (
          record seen { remote_identity = some public_key },
          calls_identified public_key ∷ [],
        ) =
          receive_read later proved interface q linkidentify r t arrives refl refl refl w.far
          ∙ ap (λ b. identify_packet h b seen) back
          ∙ identify_packet-identity h seen eh sk other le in
        let length_sent : length (public_key ++ h.sign sk (i.link_id ++ public_key)) ≡ 128 = omega (
          arith,
          length-append public_key (h.sign sk (i.link_id ++ public_key)),
          length-append eh (h.ed25519_public sk),
          h.length-ed25519_public sk,
          h.length-sign sk (i.link_id ++ public_key),
          le,
        ) in
        let fitting : ltb i.mtu (
              packed_size
                (sealed_size (length (public_key ++ h.sign sk (i.link_id ++ public_key)))))
            ≡ false =
          rw length_sent (ground (arith, room)) in
        let opened = is_active_open i.status up in
        let active_side : (i.initiator && is_active i.status) ≡ true = rw (side, up) refl in
        (
          rw (identify, active_side, send_sealed, opened, w.near, fitting) refl,
          ap (λ (z : Link × List Effect). z.0.remote_identity) run,
          ap (λ (z : Link × List Effect). z.1) run,
        )
