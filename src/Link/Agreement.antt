-- ===== src/Link/Agreement.antt =====
-- src/microReticulum/Link.cpp: a link request, its proof and the validation of the proof, one after
-- the other.
use micro_reticulum.Prelude.{
  ℕ, ◌+◌, ◌*◌, ◌%◌, max, ◌<◌, ◌≤◌, ◌^◌, ◌≡◌, refl, sym, ap, ◌∙◌, List, [], ◌∷◌, ◌++◌, Option, none,
  some, true, false, if◌then◌else◌, ◌==◌, length, length-append, arith,
}
use micro_reticulum.Bytes.{Bytes, mid_len}
use micro_reticulum.Packet.Context.{context_none, lrproof}
use micro_reticulum.Packet.Types.{Packet, linkrequest, proof}
use micro_reticulum.Packet.Wire.{get_hashable_part}
use micro_reticulum.Cryptography.Derivation.{salted}
use micro_reticulum.Link.{
  half_ecpubsize, reticulum_mtu, mode_default, establishment_timeout_per_hop, Host, Link, Effect,
  sends, registers,
}
use micro_reticulum.Link.Signalling.{signalling_bytes, link_id_from_lr_packet}
use micro_reticulum.Link.Signalling.Roundtrip.{
  signalling_bytes_enabled, link_id_from_lr_packet_unsignalled,
}
use micro_reticulum.Link.Handshake.{
  had_outbound, set_link_id, new_link, open_link, validate_request,
}
use micro_reticulum.Link.Handshake.Answer.{answer, agreed_mtu, validate_request-answer}
use micro_reticulum.Link.Establishment.{validate_proof}
use micro_reticulum.Link.Establishment.Agreement.{
  IsOpened, IsEstablished, validate_proof-IsEstablished,
}

-- What the initiator knows and picks, and what becomes of its request.
pub record Opening : Type 0 where
  pub opened_at : ℕ
  pub next_hop_mtu : ℕ
  pub hops : ℕ
  pub first_hop_timeout : ℕ
  pub destination_key : Bytes
  pub prv : Bytes
  pub sig_prv : Bytes
  pub packed : Bytes → Packet

-- What the owner of the destination picks, and where the request comes from.
pub record Answering : Type 0 where
  pub answered_at : ℕ
  pub owner_key : Bytes
  pub own_destination_key : Bytes
  pub own_prv : Bytes
  pub unused_sig_prv : Bytes
  pub interface : Option ℕ

module _ (h : Host) where
  abbrev pub open_with : Opening → Option (Link × List Effect)
  open_with o =
      open_link h o.opened_at o.next_hop_mtu o.hops o.first_hop_timeout o.destination_key o.prv
        o.sig_prv o.packed

  abbrev pub answer_with : Answering → Packet → Option (Link × List Effect)
  answer_with w p =
      validate_request h w.answered_at (some w.owner_key) w.own_destination_key w.own_prv
        w.unused_sig_prv w.interface p.payload p

  abbrev pub keys_of : Opening → Bytes
  keys_of o = h.x25519_public o.prv ++ h.ed25519_public o.sig_prv

  abbrev pub first_mtu : Opening → ℕ
  first_mtu o = if o.next_hop_mtu == 0 then reticulum_mtu else o.next_hop_mtu

  -- What the constructor makes of the link.
  open_link-IsOpened :
      (o : Opening) (id s : Bytes)
      → signalling_bytes (first_mtu o) mode_default ≡ some s
      → link_id_from_lr_packet h (o.packed (keys_of o ++ s)) ≡ id
      → (l : Link) × (open_with o
          ≡ some (l, registers ∷ sends linkrequest context_none (keys_of o ++ s) ∷ []))
        × IsOpened l o.prv id
        × (l.destination_key ≡ o.destination_key)
  unfolding open_link new_link
  open_link-IsOpened o id s made same =
      let request_data : Bytes = keys_of o ++ s in
      let p : Packet = o.packed request_data in
      let base : Link = new_link h true none o.destination_key o.prv o.sig_prv in
      let l : Link = had_outbound o.opened_at false (
        set_link_id h p (record base {
          establishment_timeout =
              o.first_hop_timeout + establishment_timeout_per_hop * max 1 o.hops;
          request_data = request_data;
          establishment_cost = length p.raw % 2 ^ 16;
          request_time = o.opened_at;
        })) in
      (
        l,
        rw (open_link, made) refl,
        record {
          opened_pending = refl;
          opened_mode = refl;
          opened_prv = refl;
          opened_id = same;
          opened_initiator = refl;
          opened_token = refl;
        },
        refl,
      )

  -- The three calls, with the links that they make and what they send; behind them the initiator's
  -- link is active and has the derived key, the id and the MTU of the owner's.
  pub record Agreed (o : Opening) (w : Answering) (s : Bytes) (q a : Packet) (now : ℕ)
      (interface : Option ℕ) : Type 0 where
    pub asking : Link
    pub answering : Link
    pub established : Link
    pub effects : List Effect
    pub opened :
        open_with o
        ≡ some (asking, registers ∷ sends linkrequest context_none (keys_of o ++ s) ∷ [])
    pub answered :
        answer_with w q ≡ some (answering, sends proof lrproof a.payload ∷ registers ∷ [])
    pub validated : validate_proof h now interface a asking ≡ (established, effects)
    pub agrees : IsEstablished established answering.derived_key answering.link_id answering.mtu

  -- A side asks, the owner of the destination answers, and the first side validates the answer. The
  -- request is packed with the data that it is given, and arrives with the same keys and the same
  -- hashed bytes before them, but perhaps with another MTU of at least 118 bytes, the size of the
  -- proof's packet, or none, as nodes on the way may lower it. The
  -- packet that comes back has the payload that the owner signs. If the key that the initiator has
  -- for the destination is the owner's, all calls succeed, the owner's proof is that payload, and
  -- the initiator's link becomes active with the derived key, the id and the MTU of the owner's
  -- link.
  pub open_link-Agreed :
      (o : Opening) (w : Answering) (q a : Packet) (front s t : Bytes) (m now : ℕ)
      (interface : Option ℕ)
      → signalling_bytes (first_mtu o) mode_default ≡ some s
      → signalling_bytes m mode_default ≡ some t
      → m < 2 ^ 16
      → 118 ≤ agreed_mtu m
      → mid_len o.destination_key half_ecpubsize half_ecpubsize ≡ h.ed25519_public w.owner_key
      → (o.packed (keys_of o ++ s)).payload ≡ keys_of o ++ s
      → (let p = o.packed (keys_of o ++ s) in
          get_hashable_part p.header_type p.raw ≡ front ++ (keys_of o ++ s))
      → q.payload ≡ keys_of o ++ t
      → get_hashable_part q.header_type q.raw ≡ front ++ (keys_of o ++ t)
      → a.payload ≡ answer h w.owner_key w.own_prv (link_id_from_lr_packet h q) m
      → Agreed o w s q a now interface
  open_link-Agreed o w q a front s t m now interface made made' small room known pp ph qp qh pay =
      let p : Packet = o.packed (keys_of o ++ s) in
      let id : Bytes = link_id_from_lr_packet h q in
      let lk : length (keys_of o) ≡ 64 = omega (
        arith,
        length-append (h.x25519_public o.prv) (h.ed25519_public o.sig_prv),
        h.length-x25519_public o.prv,
        h.length-ed25519_public o.sig_prv,
      ) in
      let same : link_id_from_lr_packet h p ≡ id =
        link_id_from_lr_packet_unsignalled h p q front (keys_of o) s t ph qh pp qp lk in
      let bytes = (signalling_bytes_enabled m mode_default t small made').1 in
      let (i, opened, state, dk) = open_link-IsOpened o id s made same in
      let (r, answered, key, mtu, rid) =
        validate_request-answer h w.answered_at w.owner_key w.own_destination_key w.own_prv
          w.unused_sig_prv (h.x25519_public o.prv) (h.ed25519_public o.sig_prv) m w.interface q
          small room (h.is_valid_key-x25519_public o.prv) (h.length-x25519_public o.prv)
          (h.length-ed25519_public o.sig_prv) (qp ∙ ap (◌++◌ (keys_of o)) bytes) in
      let (l, es, run, e) =
        validate_proof-IsEstablished h now interface a i w.owner_key o.prv w.own_prv id m small room
          state (ap (λ k. mid_len k 32 32) dk ∙ known) pay in
      record {
        asking = i;
        answering = r;
        established = l;
        effects = es;
        opened = opened;
        answered = answered ∙ ap (λ b. some (r, sends proof lrproof b ∷ registers ∷ [])) (sym pay);
        validated = run;
        agrees = record {
          is_up = e.is_up;
          same_key =
              e.same_key
              ∙ ap (λ k. h.extract 64 k (salted id)) (h.exchange-comm o.prv w.own_prv)
              ∙ sym key;
          same_id = e.same_id ∙ sym rid;
          same_mtu = e.same_mtu ∙ sym mtu;
        };
      }
