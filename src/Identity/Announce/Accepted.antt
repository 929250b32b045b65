-- ===== src/Identity/Announce/Accepted.antt =====
-- src/microReticulum/Identity.cpp: what an announce has that `validate_announce` accepts.
use micro_reticulum.Prelude.{
  ℕ, ◌+◌, ◌≡◌, refl, sym, subst, ◌∙◌, ◌⊎◌, inl, inr, [], ◌∷◌, ◌++◌, some, Bool, true, false, not,
  if◌then◌else◌, leb, length, Bool-cases, Option-cases, if_both,
}
use micro_reticulum.Bytes.{Bytes, same}
use micro_reticulum.Bytes.Compare.{same_iff}
use micro_reticulum.Packet.Types.{Packet}
use micro_reticulum.Packet.Wire.{get_hashable_part}
use micro_reticulum.Identity.{
  signature_bytes, Keys, Identity, no_keys, truncated_hash, load_public_key, validate,
}
use micro_reticulum.Identity.Announce.{
  KnownStore, Announced, is_announce, before_signature, read_announce, signed_data, known_key,
  remember, note_known, validate_parts, validate_announce,
}

unnegated : (b : Bool) → not b ≡ false → b ≡ true
unnegated true e = refl
unnegated false e = absurd cc

module _ (k : Keys) (s : KnownStore) where
  abbrev pub signer : Announced → Identity
  signer a = load_public_key k a.public_key no_keys

  -- The signature is that of the announced key on all parts; the destination has the hash of the
  -- name and the key; and the store had this key, or had none and has got an entry for it.
  pub record IsGenuine (q : Packet) (a : Announced) (st next : s.State) : Type 0 where
    pub is_signed :
        k.verify (signer a).sig_pub_bytes a.signature (signed_data q.destination_hash a) ≡ true
    pub is_named : q.destination_hash ≡ truncated_hash k (a.name_hash ++ (signer a).hash)
    pub is_known :
        ((known_key (s.get st q.destination_hash) ≡ a.public_key) × (next ≡ st))
        ⊎ ((known_key (s.get st q.destination_hash) ≡ [])
            × ((now : ℕ) × (packet_hash : Bytes) × (app_data : Bytes) × (remember k s now
                    packet_hash q.destination_hash a.public_key app_data st
                  ≡ some next)))

  abbrev Genuine : Packet → Announced → s.State → s.State × Bool → Type 0
  Genuine q a st r = r.1 ≡ true → IsGenuine q a st r.0

  abbrev Noted : Packet → Announced → s.State → s.State × Bool → Type 0
  Noted q a st r =
      r.1 ≡ true
      → ((known_key (s.get st q.destination_hash) ≡ a.public_key) × (r.0 ≡ st))
        ⊎ ((known_key (s.get st q.destination_hash) ≡ [])
            × ((now : ℕ) × (packet_hash : Bytes) × (app_data : Bytes) × (remember k s now
                    packet_hash q.destination_hash a.public_key app_data st
                  ≡ some r.0)))

  note_known-Noted :
      (now : ℕ) (q : Packet) (a : Announced) (known app_data : Bytes) (st : s.State)
      → known_key (s.get st q.destination_hash) ≡ known
      → Noted q a st (note_known k s now q a known app_data st)
  note_known-Noted now q a [] app_data st e =
      let packet_hash : Bytes = k.full_hash (get_hashable_part q.header_type q.raw) in
      elim (Option-cases
        (remember k s now packet_hash q.destination_hash a.public_key app_data st)) [
          | inl f ↦
              let v : note_known k s now q a [] app_data st ≡ (st, false) =
                rw (note_known, f) refl in
              subst (Noted q a st) (sym v) (λ h. absurd cc)
          | inr (next, f) ↦
              let v : note_known k s now q a [] app_data st ≡ (next, true) =
                rw (note_known, f) refl in
              subst (Noted q a st) (sym v) (λ h. inr (e, (now, packet_hash, app_data, f)))
        ]
  note_known-Noted now q a (x ∷ xs) app_data st e =
      λ h. inl (e ∙ sym ((same_iff a.public_key (x ∷ xs)).0 h), refl)

  validate_parts-Genuine :
      (now : ℕ) (q : Packet) (a : Announced) (st : s.State)
      → Genuine q a st (validate_parts k s now false q a st)
  unfolding validate_parts validate load_public_key
  validate_parts-Genuine now q a st =
      let app_data : Bytes =
        if leb (length q.payload) (before_signature + signature_bytes) then [] else a.app_data in
      let valid : Bool =
        k.verify (signer a).sig_pub_bytes a.signature (signed_data q.destination_hash a) in
      let named : Bool =
        same q.destination_hash (truncated_hash k (a.name_hash ++ (signer a).hash)) in
      if_both (Genuine q a st) (not valid) (λ e h. absurd cc)
        (λ e.
          if_both (Genuine q a st) named
            (λ f h. record {
              is_signed = unnegated valid e;
              is_named = (same_iff q.destination_hash _).0 f;
              is_known =
                  note_known-Noted now q a (known_key (s.get st q.destination_hash)) app_data st
                    refl h;
            })
            (λ f h. absurd cc))

  -- An announce that is accepted, and not only for its signature, is an announce packet whose
  -- signature is valid for the announced key over the destination hash and all the parts, whose
  -- destination hash is that of the announced name and key, and whose key is the known one of this
  -- destination, or is remembered where none was known.
  pub validate_announce-IsGenuine :
      (now : ℕ) (q : Packet) (st : s.State)
      → (validate_announce k s now false q st).1 ≡ true
      → (is_announce q.packet_type ≡ true)
        × IsGenuine q
            (read_announce q.context_flag q.payload)
            st
            (validate_announce k s now false q st).0
  unfolding validate_announce
  validate_announce-IsGenuine now q st h =
      let a : Announced = read_announce q.context_flag q.payload in
      elim (Bool-cases (is_announce q.packet_type)) [
        | inl e ↦
            let v : validate_announce k s now false q st ≡ validate_parts k s now false q a st =
              rw (validate_announce, e) refl in
            (e, subst (Genuine q a st) (sym v) (validate_parts-Genuine now q a st) h)
        | inr e ↦ absurd (cc (rw (validate_announce, e) at h))
      ]
