-- ===== src/Link/History/Moves.antt =====
-- src/microReticulum/Link.cpp: what the calls leave as it is, and where they take the status.
use micro_reticulum.Prelude.{
  if◌then◌else◌, ℕ, ◌≡◌, refl, ◌∙◌, inl, inr, ◌⊎◌, List, [], ◌∷◌, Option, none, some, Bool, true,
  false, ◌&&◌, ◌||◌, not, ◌==◌, length, ◌+◌, ◌++◌, ltb, if_both, option_both,
}
use micro_reticulum.Bytes.{Bytes, same, left, mid_len}
use micro_reticulum.Packet.Context.{context_none, lrrtt, linkidentify, linkclose}
use micro_reticulum.Packet.Types.{Packet, PacketType, data_packet, announce, linkrequest, proof}
use micro_reticulum.Cryptography.Token.{Primitives, Token}
use micro_reticulum.Link.{
  Try, done, threw, packed_size, sealed_size, closed, is_pending, is_closed, is_active,
  half_ecpubsize, sig_bytes, Host, Link, Effect,
}
use micro_reticulum.Link.Establishment.{made_token}
use micro_reticulum.Link.Session.{
  is_nil, send_sealed, then_close, keep_token, link_closed, teardown, teardown_packet,
  send_keepalive, identify, identify_packet, decrypted,
}
use micro_reticulum.Link.History.{escaped}
use micro_reticulum.Link.Receive.{
  same_interface, is_read, is_echo, revived, note_packet, receive_raw, receive_proof,
  receive_plaintext, receive_data, receive_typed, receive,
}

not_both : (a b : Bool) → (a && not (true && b)) ≡ true → b ≡ false
not_both a false h = refl
not_both false true h = cc
not_both true true h = cc

-- A call that keeps the side, the id and the destination of a link, and leaves the status or
-- closes.
pub record Moves (l t : Link) : Type 0 where
  pub same_side : t.initiator ≡ l.initiator
  pub same_id : t.link_id ≡ l.link_id
  pub same_destination : t.destination_key ≡ l.destination_key
  pub settles : (t.status ≡ l.status) ⊎ (t.status ≡ closed)

abbrev pub Leads : Link → Link × List Effect → Type 0
Leads l r = Moves l r.0

stays : (l : Link) → Moves l l
stays l = record { same_side = refl; same_id = refl; same_destination = refl; settles = inl refl }

keep_token-Moves : (l : Link) (t : Option Token) → Moves l (keep_token t l)
keep_token-Moves l none = stays l
keep_token-Moves l (some t) = record {
  same_side = refl;
  same_id = refl;
  same_destination = refl;
  settles = inl refl;
}

follows : {k l t : Link} → Moves k l → Moves l t → Moves k t
follows a b = record {
  same_side = b.same_side ∙ a.same_side;
  same_id = b.same_id ∙ a.same_id;
  same_destination = b.same_destination ∙ a.same_destination;
  settles = elim b.settles [
    | inl e ↦ elim a.settles [ inl f ↦ inl (e ∙ f) | inr f ↦ inr (e ∙ f) ]
    | inr e ↦ inr e
  ];
}

teardown_packet-Moves : (b : Bytes) (l : Link) → Leads l (teardown_packet b l)
unfolding teardown_packet link_closed
teardown_packet-Moves b l =
    if_both (Leads l) (same b l.link_id)
      (λ e. record {
        same_side = refl;
        same_id = refl;
        same_destination = refl;
        settles = inr refl;
      })
      (λ e. stays l)

kept :
    {l t : Link}
    → t.initiator ≡ l.initiator
    → t.link_id ≡ l.link_id
    → t.destination_key ≡ l.destination_key
    → t.status ≡ l.status
    → Moves l t
kept side id dest e = record {
  same_side = side;
  same_id = id;
  same_destination = dest;
  settles = inl e;
}

send_sealed-Moves :
    (now context : ℕ) (payload : Bytes) (l : Link)
    → Leads l (escaped (send_sealed now context payload l))
unfolding send_sealed
send_sealed-Moves now context payload l =
    if_both (λ r. Leads l (escaped r)) (is_closed l.status) (λ e. stays l)
      (λ e.
        option_both (λ r. Leads l (escaped r)) (made_token l.token l.derived_key)
          (kept refl refl refl refl)
          (λ t.
            if_both (λ r. Leads l (escaped r))
              (ltb l.mtu (packed_size (sealed_size (length payload))))
              (λ f. kept refl refl refl refl) (λ f. kept refl refl refl refl)))

then_close-Moves : (l : Link) (r : Try) → Leads l (escaped r) → Leads l (escaped (then_close r))
unfolding link_closed
then_close-Moves l (threw t es) m = m
then_close-Moves l (done t es) m = record {
  same_side = m.same_side;
  same_id = m.same_id;
  same_destination = m.same_destination;
  settles = inr refl;
}

pub teardown-Moves : (now : ℕ) (l : Link) → Leads l (escaped (teardown now l))
unfolding teardown
teardown-Moves now l =
    let sent : Try =
      if is_pending l.status || is_closed l.status
      then done l []
      else send_sealed now linkclose l.link_id l in
    then_close-Moves l sent (
      if_both (λ r. Leads l (escaped r)) (is_pending l.status || is_closed l.status) (λ e. stays l)
        (λ e. send_sealed-Moves now linkclose l.link_id l))

pub send_keepalive-Moves : (now : ℕ) (l : Link) → Leads l (escaped (send_keepalive now l))
unfolding send_keepalive
send_keepalive-Moves now l =
    if_both (λ r. Leads l (escaped r)) (is_closed l.status) (λ e. stays l)
      (λ e.
        if_both (λ r. Leads l (escaped r)) (ltb l.mtu (packed_size 1))
          (λ f. kept refl refl refl refl) (λ f. kept refl refl refl refl))

receive_raw-Moves : (now : ℕ) (q : Packet) (l : Link) → Leads l (receive_raw now q l)
unfolding receive_raw
receive_raw-Moves now q l =
    if_both (Leads l) (q.context == 0xfa)
      (λ e.
        if_both (Leads l) (not l.initiator && same q.payload (0xff ∷ []))
          (λ f.
            if_both (Leads l) (ltb l.mtu (packed_size 1)) (λ g. kept refl refl refl refl)
              (λ g. kept refl refl refl refl))
          (λ f. stays l))
      (λ e. if_both (Leads l) (q.context == 0x01) (λ f. stays l) (λ f. stays l))

receive_proof-Moves : (q : Packet) (l : Link) → Leads l (receive_proof q l)
receive_proof-Moves q l = if_both (Leads l) (q.context == 0x05) (λ f. stays l) (λ f. stays l)

-- A packet takes the status where it was, or from stale to active, or to closed.
pub record Heard (l t : Link) : Type 0 where
  pub heard_side : t.initiator ≡ l.initiator
  pub heard_id : t.link_id ≡ l.link_id
  pub heard_destination : t.destination_key ≡ l.destination_key
  pub heard_status : (t.status ≡ l.status) ⊎ ((t.status ≡ revived l.status) ⊎ (t.status ≡ closed))

abbrev pub Hears : Link → Link × List Effect → Type 0
Hears l r = Heard l r.0

module _ (h : Host) where
  pub identify-Moves :
      (now : ℕ) (pk sk : Bytes) (l : Link) → Leads l (escaped (identify h now pk sk l))
  unfolding identify
  identify-Moves now pk sk l =
      if_both (λ r. Leads l (escaped r)) (l.initiator && is_active l.status)
        (λ e. send_sealed-Moves now linkidentify (pk ++ h.sign sk (l.link_id ++ pk)) l)
        (λ e. stays l)

  identify_packet-Moves : (b : Bytes) (l : Link) → Leads l (identify_packet h b l)
  unfolding identify_packet
  identify_packet-Moves b l =
      if_both (Leads l) (not l.initiator && length b == 64 + sig_bytes)
        (λ e.
          if_both (Leads l)
            (h.verify (mid_len (left b 64) half_ecpubsize half_ecpubsize) (mid_len b 64 sig_bytes)
              (l.link_id ++ left b 64))
            (λ f. record {
              same_side = refl;
              same_id = refl;
              same_destination = refl;
              settles = inl refl;
            })
            (λ f. stays l))
        (λ e. stays l)

  receive_plaintext-Moves :
      (now : ℕ) (proved : Bool) (context : ℕ) (b : Bytes) (l : Link)
      → (context == lrrtt) ≡ false
      → Leads l (receive_plaintext h now proved context b l)
  unfolding receive_plaintext
  receive_plaintext-Moves now proved context b l other =
      if_both (Leads l) (context == linkidentify) (λ e. identify_packet-Moves b l)
        (λ e.
          if_both (Leads l) (context == lrrtt) (λ f. absurd (cc (other, f)))
            (λ f.
              if_both (Leads l) (context == linkclose) (λ g. teardown_packet-Moves b l)
                (λ g.
                  if_both (Leads l) (is_nil b) (λ i. stays l)
                    (λ i.
                      if_both (Leads l) (context == context_none) (λ j. stays l) (λ j. stays l)))))

  module _ (p : Primitives) where
    receive_data-Moves :
        (now : ℕ) (proved : Bool) (q : Packet) (l : Link)
        → l.initiator ≡ true
        → Leads l (receive_data h p now proved q l)
    unfolding receive_data
    receive_data-Moves now proved q l side =
        let t = made_token l.token l.derived_key in
        if_both (Leads l) (is_read q.context && not (l.initiator && q.context == lrrtt))
          (λ e.
            let other = not_both (is_read q.context) (q.context == lrrtt) (rw side at e) in
            follows (keep_token-Moves l t) (
              receive_plaintext-Moves now proved q.context (decrypted p t q.payload)
                (keep_token t l) other))
          (λ e. receive_raw-Moves now q l)

    receive_typed-Moves :
        (now : ℕ) (proved : Bool) (k : PacketType) (q : Packet) (l : Link)
        → l.initiator ≡ true
        → Leads l (receive_typed h p now proved k q l)
    unfolding receive_typed
    receive_typed-Moves now proved data_packet q l side = receive_data-Moves now proved q l side
    receive_typed-Moves now proved proof q l side = receive_proof-Moves q l
    receive_typed-Moves now proved announce q l side = stays l
    receive_typed-Moves now proved linkrequest q l side = stays l

    pub receive-Heard :
        (now : ℕ) (proved : Bool) (interface : Option ℕ) (q : Packet) (l : Link)
        → l.initiator ≡ true
        → Heard l (receive h p now proved interface q l).0
    unfolding receive note_packet
    receive-Heard now proved interface q l side =
        let idle : Heard l l = record {
          heard_side = refl;
          heard_id = refl;
          heard_destination = refl;
          heard_status = inl refl;
        } in
        if_both (Hears l) (is_closed l.status || is_echo q l) (λ e. idle)
          (λ e.
            if_both (Hears l) (same_interface interface l.attached_interface)
              (λ f.
                let m = receive_typed-Moves now proved q.packet_type q (note_packet now q l) side in
                record {
                  heard_side = m.same_side;
                  heard_id = m.same_id;
                  heard_destination = m.same_destination;
                  heard_status = elim m.settles [ inl g ↦ inr (inl g) | inr g ↦ inr (inr g) ];
                })
              (λ f. idle))
