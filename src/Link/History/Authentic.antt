-- ===== src/Link/History/Authentic.antt =====
-- src/microReticulum/Link.cpp: any sequence of calls on a link that is not up, and on one that is
-- closed.
use micro_reticulum.Prelude.{
  ℕ, ◌≡◌, refl, sym, ap, ◌∙◌, inl, inr, ◌⊎◌, List, [], ◌∷◌, Option, true, false, ◌&&◌, if_both,
  Bool-cases,
}
use micro_reticulum.Packet.Types.{Packet}
use micro_reticulum.Cryptography.Token.{Primitives}
use micro_reticulum.Link.{
  Status, pending, handshaking, active, stale, closed, is_active, Host, Link,
}
use micro_reticulum.Link.Session.{send_sealed, teardown, link_closed, send_keepalive, identify}
use micro_reticulum.Link.Establishment.{validate_proof}
use micro_reticulum.Link.Receive.{revived, receive}
use micro_reticulum.Link.History.{
  Event, receives, validates, identifies, keeps_alive, tears_down, escaped, step, run,
}
use micro_reticulum.Link.History.Moves.{
  Moves, teardown-Moves, send_keepalive-Moves, identify-Moves, receive-Heard,
}
use micro_reticulum.Link.History.Proofs.{is_up, IsSigned, validate_proof-Proven}

is_up-revived : (s : Status) → is_up (revived s) ≡ is_up s
is_up-revived pending = refl
is_up-revived handshaking = refl
is_up-revived active = refl
is_up-revived stale = refl
is_up-revived closed = refl

settled : (s t : Status) → (t ≡ s) ⊎ (t ≡ closed) → is_up t ≡ true → is_up s ≡ true
settled s t (inl e) up = ap is_up (sym e) ∙ up
settled s t (inr e) up = absurd (cc (ap is_up e, up))

heard :
    (s t : Status) → (t ≡ s) ⊎ ((t ≡ revived s) ⊎ (t ≡ closed)) → is_up t ≡ true → is_up s ≡ true
heard s t (inl e) up = ap is_up (sym e) ∙ up
heard s t (inr (inl e)) up = sym (is_up-revived s) ∙ ap is_up (sym e) ∙ up
heard s t (inr (inr e)) up = absurd (cc (ap is_up e, up))

module _ (h : Host) where
  -- A call that validates a packet which the destination of the link has signed.
  pub data Signs (l : Link) : Event → Type 0 where
    signs :
        {now : ℕ} {interface : Option ℕ} {q : Packet}
        → IsSigned h l q
        → Signs l (validates now interface q)

  pub data SomeSigned (l : Link) : List Event → Type 0 where
    here : {e : Event} {es : List Event} → Signs l e → SomeSigned l (e ∷ es)
    later : {e : Event} {es : List Event} → SomeSigned l es → SomeSigned l (e ∷ es)

  IsSigned-alike :
      (k l : Link) (q : Packet)
      → k.link_id ≡ l.link_id
      → k.destination_key ≡ l.destination_key
      → IsSigned h k q
      → IsSigned h l q
  IsSigned-alike k l q id dest w = record {
    signalled = w.signalled;
    valid = rw (dest, id) at w.valid;
  }

  Signs-alike :
      (k l : Link)
      → k.link_id ≡ l.link_id
      → k.destination_key ≡ l.destination_key
      → (e : Event) → Signs k e
      → Signs l e
  Signs-alike k l id dest (validates now interface q) (signs v) =
      signs (IsSigned-alike k l q id dest v)
  Signs-alike k l id dest (receives now proved interface q) w = elim w [ ]
  Signs-alike k l id dest (identifies now pk sk) w = elim w [ ]
  Signs-alike k l id dest (keeps_alive now) w = elim w [ ]
  Signs-alike k l id dest (tears_down now) w = elim w [ ]

  SomeSigned-alike :
      (k l : Link)
      → k.link_id ≡ l.link_id
      → k.destination_key ≡ l.destination_key
      → (es : List Event) → SomeSigned k es
      → SomeSigned l es
  SomeSigned-alike k l id dest [] w = elim w [ ]
  SomeSigned-alike k l id dest (e ∷ es) (here w) = here (Signs-alike k l id dest e w)
  SomeSigned-alike k l id dest (e ∷ es) (later w) = later (SomeSigned-alike k l id dest es w)

  module _ (p : Primitives) where
    record Steps (l : Link) (e : Event) (t : Link) : Type 0 where
      side : t.initiator ≡ l.initiator
      id : t.link_id ≡ l.link_id
      destination : t.destination_key ≡ l.destination_key
      up : is_up t.status ≡ true → (is_up l.status ≡ true) ⊎ Signs l e

    settles_step : (l : Link) (e : Event) (t : Link) → Moves l t → Steps l e t
    settles_step l e t m = record {
      side = m.same_side;
      id = m.same_id;
      destination = m.same_destination;
      up = λ u. inl (settled l.status t.status m.settles u);
    }

    step-Steps : (e : Event) (l : Link) → l.initiator ≡ true → Steps l e (step h p e l).0
    unfolding step
    step-Steps (receives now proved interface q) l i =
        let m = receive-Heard h p now proved interface q l i in
        record {
          side = m.heard_side;
          id = m.heard_id;
          destination = m.heard_destination;
          up = λ u. inl (heard l.status _ m.heard_status u);
        }
    step-Steps (validates now interface q) l i =
        let m = validate_proof-Proven h now interface q l in
        record {
          side = m.proven_side;
          id = m.proven_id;
          destination = m.proven_destination;
          up = λ u. elim (m.proven_up u) [ inl a ↦ inl a | inr a ↦ inr (signs a) ];
        }
    step-Steps (identifies now pk sk) l i =
        settles_step l (identifies now pk sk) _ (identify-Moves h now pk sk l)
    step-Steps (keeps_alive now) l i =
        settles_step l (keeps_alive now) _ (send_keepalive-Moves now l)
    step-Steps (tears_down now) l i = settles_step l (tears_down now) _ (teardown-Moves now l)

    step_closed : (e : Event) (l : Link) → l.status ≡ closed → (step h p e l).0.status ≡ closed
    unfolding step receive validate_proof identify teardown send_sealed send_keepalive link_closed
    step_closed (receives now proved interface q) l c = simp (receive, c) refl
    step_closed (validates now interface q) l c = simp (validate_proof, c) refl
    step_closed (identifies now pk sk) l c =
        if_both (λ r. (escaped r).0.status ≡ closed) (l.initiator && is_active l.status)
          (λ e. simp (send_sealed, c) refl) (λ e. c)
    step_closed (keeps_alive now) l c = simp (send_keepalive, c) refl
    step_closed (tears_down now) l c = rw c refl

    -- An initiator's link that is neither active nor stale becomes so only by a call that validates
    -- a link proof with a signature of the destination's key, on the id of the link and the peer's
    -- keys: in every sequence of received packets, validated proofs, keepalives, identifications
    -- and teardowns behind which it is active or stale, there is such a call.
    pub run-SomeSigned :
        (es : List Event) (l : Link)
        → l.initiator ≡ true
        → is_up l.status ≡ false
        → is_up (run h p es l).status ≡ true
        → SomeSigned l es
    unfolding run
    run-SomeSigned [] l i down up = absurd (cc (down, up))
    run-SomeSigned (e ∷ es) l i down up =
        let t = (step h p e l).0 in
        let s = step-Steps e l i in
        elim (Bool-cases (is_up t.status)) [
          | inl u ↦ elim (s.up u) [ inl v ↦ absurd (cc (down, v)) | inr v ↦ here v ]
          | inr u ↦
              later
                (SomeSigned-alike t l s.id s.destination es (run-SomeSigned es t (s.side ∙ i) u up))
        ]

    -- Behind the first call that finds a link closed, every received packet, validated proof,
    -- keepalive, identification and teardown leaves it closed.
    pub run_closed :
        (es : List Event) (l : Link) → l.status ≡ closed → (run h p es l).status ≡ closed
    unfolding run
    run_closed [] l c = c
    run_closed (e ∷ es) l c = run_closed es (step h p e l).0 (step_closed e l c)
