-- ===== src/Transport/Links/Vouched.antt =====
-- src/microReticulum/Transport.cpp: an entry of the link table under the proofs and the packets that
-- come for its link.
use micro_reticulum.Prelude.{
  ℕ, ◌+◌, ◌≡◌, refl, subst, ◌⊎◌, inl, inr, List, [], ◌∷◌, Option, none, some, true, ◌||◌, ◌==◌,
  length, if_both, option_both,
}
use micro_reticulum.Bytes.{Bytes, left, mid, mid_len}
use micro_reticulum.Packet.Types.{Packet}
use micro_reticulum.Link.{half_ecpubsize, sig_bytes, link_mtu_size, Host}
use micro_reticulum.Link.Handshake.{signed_part}
use micro_reticulum.Transport.Links.{
  LinkEntry, Sent, link_outbound, transport_link, vouch, signalled_by, transport_proof,
}

pub data Event : Type 0 where
  hears_proof : (interface : ℕ) → Packet → Event
  hears_packet : (now interface : ℕ) → Packet → Event

module _ (h : Host) (recall : Bytes → Option Bytes) where
  unfoldable pub step : Event → LinkEntry → LinkEntry × Sent
  step (hears_proof interface q) e = transport_proof h recall interface q e
  step (hears_packet now interface q) e = transport_link now interface q e

  unfoldable pub run : List Event → LinkEntry → LinkEntry
  run [] e = e
  run (x ∷ xs) e = run xs (step x e).0

  -- A proof that the recalled key for this destination hash has signed.
  pub record IsVouched (destination_hash : Bytes) (q : Packet) : Type 0 where
    pub key : Bytes
    pub signalled : Bytes
    pub is_recalled : recall destination_hash ≡ some key
    pub is_valid :
        h.verify (mid key half_ecpubsize) (left q.payload sig_bytes) (
          signed_part q.destination_hash
            (mid_len q.payload sig_bytes half_ecpubsize)
            (mid_len key half_ecpubsize half_ecpubsize)
            signalled)
        ≡ true

  pub data SomeVouched (destination_hash : Bytes) : List Event → Type 0 where
    here :
        {interface : ℕ} {q : Packet} {xs : List Event}
        → IsVouched destination_hash q
        → SomeVouched destination_hash (hears_proof interface q ∷ xs)
    later :
        {x : Event} {xs : List Event}
        → SomeVouched destination_hash xs
        → SomeVouched destination_hash (x ∷ xs)

  -- The destination stays, and the entry is validated only by a proof that is vouched for.
  record Keeps (e t : LinkEntry) (xs : List Event) : Type 0 where
    same_destination : t.destination_hash ≡ e.destination_hash
    by_proof : t.validated ≡ true → (e.validated ≡ true) ⊎ SomeVouched e.destination_hash xs

  unchanged : (e : LinkEntry) (xs : List Event) → Keeps e e xs
  unchanged e xs = record { same_destination = refl; by_proof = inl }

  vouch-Keeps :
      (interface : ℕ) (q : Packet) (key signalled : Option Bytes) (e : LinkEntry)
      → recall e.destination_hash ≡ key
      → Keeps e (vouch h q key signalled e).0 (hears_proof interface q ∷ [])
  unfolding vouch
  vouch-Keeps interface q none signalled e known = unchanged e _
  vouch-Keeps interface q (some key) none e known = unchanged e _
  vouch-Keeps interface q (some key) (some s) e known =
      if_both (λ (r : LinkEntry × Sent). Keeps e r.0 (hears_proof interface q ∷ []))
        (h.verify (mid key half_ecpubsize) (left q.payload sig_bytes) (
          signed_part q.destination_hash (mid_len q.payload sig_bytes half_ecpubsize)
            (mid_len key half_ecpubsize half_ecpubsize) s))
        (λ valid. record {
          same_destination = refl;
          by_proof = λ f.
              inr
                (here (record { key = key; signalled = s; is_recalled = known; is_valid = valid }));
        })
        (λ invalid. unchanged e _)

  step-Keeps : (x : Event) (e : LinkEntry) → Keeps e (step x e).0 (x ∷ [])
  unfolding step transport_proof transport_link
  step-Keeps (hears_proof interface q) e =
      if_both (λ (r : LinkEntry × Sent). Keeps e r.0 (hears_proof interface q ∷ []))
        (interface == e.outbound_interface)
        (λ f.
          if_both (λ (r : LinkEntry × Sent). Keeps e r.0 (hears_proof interface q ∷ []))
            (length q.payload == sig_bytes + half_ecpubsize
              || length q.payload == sig_bytes + half_ecpubsize + link_mtu_size)
            (λ g. vouch-Keeps interface q (recall e.destination_hash) (signalled_by q) e refl)
            (λ g. unchanged e _))
        (λ f. unchanged e _)
  step-Keeps (hears_packet now interface q) e =
      option_both (λ (r : LinkEntry × Sent). Keeps e r.0 (hears_packet now interface q ∷ []))
        (link_outbound interface q.hops e) (unchanged e _)
        (λ out. record { same_destination = refl; by_proof = inl })

  from_first :
      {d : Bytes} (x : Event) (xs : List Event) → SomeVouched d (x ∷ []) → SomeVouched d (x ∷ xs)
  from_first x xs (here w) = here w
  from_first x xs (later w) = elim w [ ]

  -- Whatever proofs and packets come for the link of an entry, it is validated afterwards only if it
  -- was before, or if one of the proofs has a signature that is valid for the recalled key of the
  -- entry's destination.
  pub run-SomeVouched :
      (xs : List Event) (e : LinkEntry)
      → (run xs e).validated ≡ true
      → (e.validated ≡ true) ⊎ SomeVouched e.destination_hash xs
  unfolding run
  run-SomeVouched [] e f = inl f
  run-SomeVouched (x ∷ xs) e f =
      let w = step-Keeps x e in
      elim (run-SomeVouched xs (step x e).0 f) [
        | inl g ↦ elim (w.by_proof g) [ inl before ↦ inl before | inr s ↦ inr (from_first x xs s) ]
        | inr s ↦ inr (later (subst (λ d. SomeVouched d xs) w.same_destination s))
      ]
